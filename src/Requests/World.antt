-- ===== src/Requests/World.antt =====
-- What lib/v2/requests.py works on beside the request itself: the response that it fills, the calls that
-- it makes of other systems, and the exceptions that it raises. A call of AWS, DynamoDB, the mail service
-- or a cache that AWS fills is recorded, newest first; what it answers is a parameter.
use consoleme.Base.{
  ℕ, ◌+◌, String, Bool, true, false, Option, none, some, List, [], ◌∷◌, ◌++◌, fstring,
  if◌then◌else◌,
}
use consoleme.Json.{Json}
use consoleme.Config.{Config}
use consoleme.Aws.{Lookups}
use consoleme.Models.{AwsPrincipal, Request, Response, ActionResult, Verdict, success, error}

-- The two kinds of IAM principal that have calls of their own.
pub data Kind : Type 0 where
  role user : Kind

pub data Call : Type 0 where
  -- `boto3_cached_conn`
  connect : (service account region : String) → Call
  -- `put_role_policy`, `put_user_policy`, and so on down to `untag_role`, `untag_user`
  put_policy : Kind → (name : String) → Option String → Json → Call
  delete_policy : Kind → (name : String) → Option String → Call
  put_boundary : Kind → (name arn : String) → Call
  delete_boundary : Kind → (name : String) → Call
  attach_policy : Kind → (name arn : String) → Call
  detach_policy : Kind → (name arn : String) → Call
  tag_principal : Kind → (name : String) → (key value : Option String) → Call
  untag_principal : Kind → (name : String) → (key : Option String) → Call
  update_assume_role_policy : (name : String) → Json → Call
  tag_policy : (arn : String) → (key value : Option String) → Call
  untag_policy : (arn : String) → (key : Option String) → Call
  put_bucket_policy : (bucket : String) → Json → Call
  set_topic_policy : (arn : String) → Json → Call
  get_queue_url : (name : String) → Call
  set_queue_policy : (url : String) → Json → Call
  put_bucket_tagging : (bucket : String) → List (Option String × Option String) → Call
  tag_topic : (arn : String) → (key value : Option String) → Call
  untag_topic : (arn : String) → (key : Option String) → Call
  tag_queue : (url : String) → (key value : Option String) → Call
  untag_queue : (url : String) → (key : Option String) → Call
  create_managed_policy : (name path arn : String) → Json → Call
  update_managed_policy : (name arn : String) → Json → Call
  -- reads
  get_managed_policy_document : (arn account : String) → Call
  fetch_resource_details : (account service name region : String) → Call
  get_details : Kind → (account name : String) → Call
  fetch_iam_role : (account arn : String) → Call
  -- `write_policy_request_v2`
  write_policy_request : Request → Call
  send_status_update : Request → Call
  send_new_comment : Request → (author : String) → (to_addresses : List String) → Call

-- An exception that a call raises: the `Code` of a `ClientError`, or an empty text, and its `str`.
pub record Failure : Type 0 where
  pub code : String
  pub message : String

pub record Env : Type 0 where
  pub config : Config
  -- what a call raises, after the calls that were made before it
  pub outcome : List Call → Call → Option Failure
  -- how arns are read, and the caches of resources
  pub lookups : Lookups
  -- what the reads return
  pub details : List Call → Kind → (account name : String) → Option AwsPrincipal
  pub managed_policy : List Call → (arn : String) → Json
  pub tag_set : List Call → (name : String) → List (Option String × Option String)
  pub queue_url : List Call → (name : String) → String
  -- `sha256(json.dumps(document))`
  pub digest : Json → String
  -- `int(time.time())`, `str(uuid.uuid4())`
  pub now : ℕ
  pub new_id : String

pub record Work : Type 0 where
  pub response : Response
  pub calls : List Call

pub data Error : Type 0 where
  unauthorized invalid_request_parameter no_matching_request unsupported_change_type :
      String → Error
  -- an attribute of `None`, or one that the class lacks
  attribute_error : Error
  external : Failure → Error

pub data Result (A : Type 0) : Type 0 where
  ok : A → Result A
  raised : Error → Result A

abbrev result : Verdict → String → Bool → ActionResult
result v message visible = record { status = v; message = message; visible = visible }

-- `response.action_results.append(ActionResult(status="success", …))`
unfoldable pub succeed : String → Bool → Work → Work
succeed message visible w = record w {
  response = record {
    errors = w.response.errors;
    action_results = w.response.action_results ++ result success message visible ∷ [];
  };
}

-- `response.errors += 1` and an `ActionResult(status="error", …)`
unfoldable pub fail : String → Work → Work
fail message w = record w {
  response = record {
    errors = w.response.errors + 1;
    action_results = w.response.action_results ++ result error message true ∷ [];
  };
}

-- The body of a `try`: it goes on until a call raises.
abbrev pub Act : Type 0
Act = Work → Option Failure × Work

unfoldable pub perform : Env → Call → Act
perform e c w = (e.outcome w.calls c, record w { calls = c ∷ w.calls })

infixl 5 ◌>>◌
unfoldable pub ◌>>◌ : Act → Act → Act
◌>>◌ m k w = let (r, w') = m w in elim r [ none ↦ k w' | some f ↦ (some f, w') ]

unfoldable pub pass : Act
pass w = (none, w)

unfoldable pub report : String → Act
report message w = (none, succeed message true w)

-- `'NoneType' object has no attribute …`, and its like
abbrev pub attribute_failure : Failure
attribute_failure = record {
  code = "";
  message = "'NoneType' object has no attribute 'policy_document'";
}

unfoldable pub break_off : Failure → Act
break_off f w = (some f, w)

unfoldable pub when : Bool → Act → Act
when b m = if b then m else pass

-- `try: m; status = applied; except Exception as e: …`: whether the change was applied.
unfoldable pub caught : Act → String → Work → Bool × Work
caught m message w =
    let (r, w') = m w in
    elim r [ none ↦ (true, w') | some f ↦ (false, fail (fstring (message ∷ f.message ∷ [])) w') ]

-- Where a call that is in no `try` raises, so does the caller.
abbrev pub escape :
    {A : Type 0} → Option Failure × Work → (Work → Result A × Work) → Result A × Work
escape (none, w) k = k w
escape (some f, w) k = (raised (external f), w)

-- One step after another, unless the first raises.
abbrev pub chain : {A B : Type 0} → Result A → (A → Result B) → Result B
chain (ok a) k = k a
chain (raised err) k = raised err
