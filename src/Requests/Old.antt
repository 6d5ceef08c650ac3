-- ===== src/Requests/Old.antt =====
-- `populate_old_policies` and `populate_old_managed_policies`: what a change would replace is kept with it.
pub mod Kept
use consoleme.Base.{
  String, Bool, false, ◌&&◌, Option, none, some, List, [], ◌∷◌, str_eq, if◌then◌else◌,
}
use consoleme.Json.{Json, truthy}
use consoleme.Aws.{get_resource_account}
use consoleme.Models.{
  Principal, aws_resource, honeybee, PolicyModel, InlineChange, Detail, inline_policy,
  assume_role_policy, managed_policy_resource, Change, is_applied, AwsPrincipal,
}
use consoleme.Requests.World.{
  Kind, role, user, get_details, get_managed_policy_document, Failure, Env, Work, attribute_error,
  external, Result, ok, raised, perform,
}
use consoleme.Requests.Steps.{same_text}
use consoleme.Requests.Role.{is_role_or_user, principal_name}

-- A loop that changes the items in place, until one of them raises.
unfoldable pub step_each :
    Change
    → List Change
    → Result Change
    → Result (Unit {0}) × List Change
    → Result (Unit {0}) × List Change
step_each c cs (ok d) (r, ds) = (r, d ∷ ds)
step_each c cs (raised err) _ = (raised err, c ∷ cs)

unfoldable pub each : (Change → Result Change) → List Change → Result (Unit {0}) × List Change
each f [] = (ok tt, [])
each f (c ∷ cs) = step_each c cs (f c) (each f cs)

unfoldable pub policy_model : Env → Json → PolicyModel
policy_model e doc = record {
  version = none;
  policy_document = doc;
  policy_sha256 = some (e.digest doc);
}

-- The document of the first inline policy of this name.
unfoldable pub find_inline : Option String → List (String × Json) → Option Json
find_inline name [] = none
find_inline name ((other, doc) ∷ rest) =
    if same_text name (some other) then some doc else find_inline name rest

unfoldable pub keep_inline : Env → Change → InlineChange → Option Json → Change
keep_inline e c ch none = c
keep_inline e c ch (some doc) = record c {
  detail = inline_policy (record ch { old_policy = some (policy_model e doc) });
}

-- One change of the loop; the principal may be missing.
unfoldable pub populate_detail : Env → Option AwsPrincipal → Change → Detail → Result Change
populate_detail e none c (assume_role_policy ch) = raised attribute_error
populate_detail e (some p) c (assume_role_policy ch) = ok (record c {
  detail =
      assume_role_policy
        (record ch { old_policy = some (policy_model e p.assume_role_policy_document) });
})
populate_detail e none c (inline_policy ch) = if ch.new then ok c else raised attribute_error
populate_detail e (some p) c (inline_policy ch) =
    if ch.new then ok c else ok (keep_inline e c ch (find_inline ch.policy_name p.inline_policies))
populate_detail e p c _ = ok c

unfoldable pub populate_one : Env → Option AwsPrincipal → Change → Result Change
populate_one e p c = if is_applied c.status then ok c else populate_detail e p c c.detail

abbrev with_work : Work → Result (Unit {0}) × List Change → Result (Unit {0}) × List Change × Work
with_work w (r, cs) = (r, cs, w)

-- `get_role_details` or `get_user_details`; what it found is that of the time after the call.
unfoldable pub populate_found :
    Env
    → Kind
    → (account name : String) → List Change
    → Option Failure × Work
    → Result (Unit {0}) × List Change × Work
populate_found e k account name cs (some f, w) = (raised (external f), cs, w)
populate_found e k account name cs (none, w) =
    with_work w (each (populate_one e (e.details w.calls k account name)) cs)

unfoldable pub populate_from :
    Env
    → Kind
    → (account name : String) → List Change
    → Work
    → Result (Unit {0}) × List Change × Work
unfolding populate_found
populate_from e k account name cs w =
    populate_found e k account name cs (perform e (get_details k account name) w)

unfoldable pub populate_arn :
    Env → String → List Change → Work → Result (Unit {0}) × List Change × Work
populate_arn e arn cs w =
    let a = e.lookups.parse_arn arn in
    if is_role_or_user a
    then populate_from e (if str_eq a.resource "role" then role else user)
        (get_resource_account e.lookups arn) (principal_name a) cs w
    else (ok tt, cs, w)

unfoldable pub populate_old_policies :
    Env → Principal → List Change → Work → Result (Unit {0}) × List Change × Work
populate_old_policies e (aws_resource arn) cs w = populate_arn e arn cs w
populate_old_policies e (honeybee _ _ _) cs w = with_work w (each (populate_one e none) cs)

-- `change.old_policy and old_policy_sha256 == change.old_policy.policy_sha256`
unfoldable pub is_current : Env → Json → Option PolicyModel → Bool
is_current e doc none = false
is_current e doc (some p) = same_text (some (e.digest doc)) p.policy_sha256

unfoldable pub keep_managed : Env → Json → Change → Detail → Change
unfolding is_current policy_model
keep_managed e doc c (managed_policy_resource m) =
    if is_current e doc m.old_policy then c else record c {
      detail = managed_policy_resource (record m { old_policy = some (policy_model e doc) });
    }
keep_managed e doc c _ = c

unfoldable pub populate_managed_one : Env → Json → Change → Change
unfolding keep_managed
populate_managed_one e doc c =
    if is_applied c.status then c else if truthy doc then keep_managed e doc c c.detail else c

unfoldable pub populate_managed_each : Env → Json → List Change → List Change
unfolding populate_managed_one
populate_managed_each e doc [] = []
populate_managed_each e doc (c ∷ cs) = populate_managed_one e doc c ∷ populate_managed_each e doc cs

-- A policy that is not there yet has no old version; any other exception goes on.
unfoldable pub populate_managed_from :
    Env
    → (arn : String) → List Change
    → Option Failure × Work
    → Result (Unit {0}) × List Change × Work
populate_managed_from e arn cs (some f, w) =
    if str_eq f.code "NoSuchEntity" then (ok tt, cs, w) else (raised (external f), cs, w)
populate_managed_from e arn cs (none, w) =
    (ok tt, populate_managed_each e (e.managed_policy w.calls arn) cs, w)

unfoldable pub populate_old_managed_policies :
    Env → Principal → List Change → Work → Result (Unit {0}) × List Change × Work
populate_old_managed_policies e (aws_resource arn) cs w =
    let a = e.lookups.parse_arn arn in
    if str_eq a.service "iam" && str_eq a.resource "policy"
    then populate_managed_from e arn cs (perform e (get_managed_policy_document arn a.account) w)
    else (ok tt, cs, w)
populate_old_managed_policies e (honeybee _ _ _) cs w = (ok tt, cs, w)
