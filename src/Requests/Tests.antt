-- ===== src/Requests/Tests.antt =====
-- Runs of lib/v2/requests.py on concrete requests, and the cases in which its theorems apply. The world of
-- these runs, in which calls return, unless the test says which one raises.
mod Commands
mod Create
mod Cross
mod Helpers
mod Validate
mod Runs
use consoleme.Base.{
  ℕ, String, Bool, true, false, Option, none, some, List, [], ◌∷◌, starts_with, str_eq,
  if◌then◌else◌,
}
use consoleme.Json.{Json, object, end}
use consoleme.Config.{Config}
use consoleme.Aws.{Lookups, no_constraint}
use consoleme.Models.{
  Action, Principal, aws_resource, Arn, Status, RequestStatus, Detail, inline_policy,
  managed_policy, PolicyModel, ResourceChange, TagChange, TagAction, Change, Request, Response,
  AwsPrincipal,
}
use consoleme.Requests.World.{Call, Failure, Env, Work}
use consoleme.Requests.Flow.{State}

abbrev config : Config
config = record {
  application_admin = none;
  groups = λ key. if str_eq key "groups.can_admin_policies" then "policy-admins" ∷ [] else [];
  attributes = λ key. [];
  supported_resource_types = "s3" ∷ "sns" ∷ "sqs" ∷ [];
  sts_resource_policy_supported = true;
  fallback_reviewers = [];
  region = "us-west-2";
}

abbrev role_arn : String
role_arn = "arn:aws:iam::123456789012:role/app"

abbrev parsed : String → Arn
parsed arn =
    if starts_with arn "arn:aws:s3"
    then record { service = "s3"; region = ""; account = ""; resource = "logs"; resource_path = "" }
    else record {
      service = "iam";
      region = "";
      account = "123456789012";
      resource = "role";
      resource_path = "app";
    }

abbrev lookups : Lookups
lookups = record {
  parse_arn = parsed;
  account_from_arn = λ arn. (parsed arn).account;
  config_cache = λ arn. if starts_with arn "arn:aws:s3" then some "123456789012" else none;
  s3_cache = [];
  bucket_location = λ bucket account. no_constraint;
}

abbrev details : AwsPrincipal
details = record {
  inline_policies = [];
  assume_role_policy_document = object end;
  managed_policies = [];
  permissions_boundary = none;
}

-- A world with these outcomes of its calls.
abbrev world : (List Call → Call → Option Failure) → Env
world outcome = record {
  config = config;
  outcome = outcome;
  lookups = lookups;
  details = λ calls kind account name. some details;
  managed_policy = λ calls arn. object end;
  tag_set = λ calls name. (some "team", some "data") ∷ (some "env", some "test") ∷ [];
  queue_url = λ calls name. name;
  digest = λ doc. "digest";
  now = 1700000000;
  new_id = "comment-1";
}

abbrev calm : Env
calm = world (λ calls call. none)

abbrev denied : Failure
denied = record { code = "AccessDenied"; message = "not allowed" }

-- Everything is denied.
abbrev closed : Env
closed = world (λ calls call. some denied)

abbrev policy : PolicyModel
policy = record { version = none; policy_document = object end; policy_sha256 = none }

abbrev attach_change : String → Status → Change
attach_change id status = record {
  id = id;
  principal = aws_resource role_arn;
  status = status;
  autogenerated = false;
  updated_by = none;
  detail = managed_policy "arn:aws:iam::aws:policy/ReadOnlyAccess" Action.attach;
}

abbrev inline_change : String → Status → Change
inline_change id status = record {
  id = id;
  principal = aws_resource role_arn;
  status = status;
  autogenerated = false;
  updated_by = none;
  detail = inline_policy (record {
    policy_name = some "p";
    new = true;
    action = some Action.attach;
    policy = some policy;
    old_policy = none;
  });
}

abbrev request : RequestStatus → List Change → Request
request status changes = record {
  id = "request-1";
  request_url = none;
  principal = aws_resource role_arn;
  requester_email = "ann@example.com";
  request_status = status;
  cross_account = false;
  admin_auto_approve = false;
  changes = changes;
  reviewer = none;
  comments = [];
}

abbrev start : Work
start = record { response = record { errors = 0; action_results = [] }; calls = [] }

abbrev of_request : Request → State
of_request r = record { request = r; work = start }

abbrev bucket_change : ResourceChange
bucket_change = record {
  arn = "arn:aws:s3:::logs";
  source_change_id = none;
  supported = some true;
  policy = policy;
  old_policy = none;
}

abbrev rename : TagChange
rename = record {
  original_key = some "team";
  key = some "owner";
  original_value = some "data";
  value = none;
  tag_action = TagAction.update;
}
