-- ===== src/Requests/Role.antt =====
-- `apply_changes_to_role`: the changes of a request are made to an IAM role or user, in a best effort.
pub mod Accounts
pub mod Untouched
use consoleme.Base.{
  String, Bool, true, false, not, ◌&&◌, ◌||◌, Option, none, some, List, [], ◌∷◌, str_eq,
  truthy_text, fstring, split, last, if◌then◌else◌,
}
use consoleme.Aws.{get_resource_account}
use consoleme.Models.{
  applied, is_applied, Principal, aws_resource, honeybee, Detail, inline_policy, managed_policy,
  permissions_boundary, assume_role_policy, resource_tag, change_type, Change, Request, Arn,
}
use consoleme.Requests.World.{
  connect, Failure, Env, external, Work, unsupported_change_type, attribute_error, Result, ok,
  raised, fail, perform,
}
use consoleme.Requests.Steps.{
  apply_inline, apply_boundary, apply_managed, apply_assume_role, apply_tag,
}

-- A change type that is not applied by this function. For one that was generated, in a request that an
-- administrator approved from the start, there is nothing to say.
unfoldable pub apply_unsupported : Bool → Change → Work → Work
apply_unsupported admin_auto_approve c w =
    if c.autogenerated && admin_auto_approve
    then w
    else fail
        (fstring (
          "Error occurred applying: Change type "
          ∷ change_type c.detail
          ∷ " is not supported"
          ∷ []))
        w

-- `specific_change_id and change.id != specific_change_id`
unfoldable pub is_skipped : Option String → String → Bool
is_skipped none id = false
is_skipped (some specific) id = truthy_text (some specific) && not (str_eq id specific)

-- What the branch leaves in the change.
abbrev pub settle : Change → Result (Detail × Bool) × Work → Result Change × Work
settle c (ok (d, true), w) = (ok (record c { detail = d; status = applied }), w)
settle c (ok (d, false), w) = (ok (record c { detail = d }), w)
settle c (raised err, w) = (raised err, w)

-- What was done before an exception stays done.
unfoldable pub and_then :
    Change
    → List Change
    → Result Change × Work
    → (Work → Result (Unit {0}) × List Change × Work)
    → Result (Unit {0}) × List Change × Work
and_then c cs (ok c', w) k = let (r, cs', w') = k w in (r, c' ∷ cs', w')
and_then c cs (raised err, w) k = (raised err, c ∷ cs, w)

module _ (e : Env) (admin_auto_approve : Bool) (a : Arn) (name : String) where
  -- The new detail, and whether the change was applied.
  unfoldable pub apply_detail : Change → Detail → Work → Result (Detail × Bool) × Work
  apply_detail c (inline_policy ch) w =
      let (done, w') = apply_inline e a name ch ch.action w in (ok (inline_policy ch, done), w')
  apply_detail c (permissions_boundary arn action) w =
      let (done, w') = apply_boundary e a name arn action w in
      (ok (permissions_boundary arn action, done), w')
  apply_detail c (managed_policy arn action) w =
      let (done, w') = apply_managed e a name arn action w in
      (ok (managed_policy arn action, done), w')
  apply_detail c (assume_role_policy ch) w =
      if str_eq a.resource "user"
      then (
        raised (
            unsupported_change_type
              "IAM users don't have assume role policies. Unable to process request."),
        w,
      )
      else (let (done, w') = apply_assume_role e a name ch w in
          (ok (assume_role_policy ch, done), w'))
  apply_detail c (resource_tag t) w =
      let (t', done, w') = apply_tag e a name t t.tag_action w in (ok (resource_tag t', done), w')
  apply_detail c d w = (ok (d, false), apply_unsupported admin_auto_approve c w)

  unfoldable pub apply_one : Option String → Change → Work → Result Change × Work
  apply_one specific c w =
      if is_applied c.status || is_skipped specific c.id
      then (ok c, w)
      else settle c (apply_detail c c.detail w)

  -- The loop over the changes.
  unfoldable pub apply_each :
      Option String → List Change → Work → Result (Unit {0}) × List Change × Work
  apply_each specific [] w = (ok tt, [], w)
  apply_each specific (c ∷ cs) w = and_then c cs (apply_one specific c w) (apply_each specific cs)

-- An arn of an IAM role or user.
unfoldable pub is_role_or_user : Arn → Bool
is_role_or_user a = str_eq a.service "iam" && (str_eq a.resource "role" || str_eq a.resource "user")

-- `resource_path.split("/")[-1]`
abbrev pub principal_name : Arn → String
principal_name a = last (split b'/' a.resource_path)

abbrev pub not_supported : String
not_supported =
    "Resource not found, or ARN type not supported for inline/managed/assume role policy changes."

-- Behind the making of the client.
unfoldable pub apply_connected :
    Env
    → Bool
    → Arn
    → Option String
    → List Change
    → Option Failure × Work
    → Result (Unit {0}) × List Change × Work
apply_connected e auto a specific cs (some f, w) = (raised (external f), cs, w)
apply_connected e auto a specific cs (none, w) =
    apply_each e auto a (principal_name a) specific cs w

-- The function on a principal's arn; the changes of the request are given and handed back.
unfoldable pub apply_changes_to_arn :
    Env
    → Bool
    → String
    → Option String
    → List Change
    → Work
    → Result (Unit {0}) × List Change × Work
apply_changes_to_arn e auto arn specific cs w =
    let a = e.lookups.parse_arn arn in
    if is_role_or_user a
    then apply_connected e auto a specific cs
        (perform e (connect "iam" (get_resource_account e.lookups arn) e.config.region) w)
    else (ok tt, cs, fail not_supported w)

unfoldable pub apply_to_principal :
    Env → Principal → Request → Option String → Work → Result (Unit {0}) × List Change × Work
apply_to_principal e (aws_resource arn) r specific w =
    apply_changes_to_arn e r.admin_auto_approve arn specific r.changes w
apply_to_principal e (honeybee _ _ _) r specific w = (raised attribute_error, r.changes, w)

unfoldable pub apply_changes_to_role :
    Env → Request → Option String → Work → Result (Unit {0}) × List Change × Work
unfolding apply_to_principal
apply_changes_to_role e r specific w = apply_to_principal e r.principal r specific w
