-- ===== src/Requests/Checks.antt =====
-- `generate_request_from_change_model_array`, its middle part: the checks of the changes, one by one and
-- together, and `generate_policy_name` of lib/change_request.py, which names the inline policies.
use consoleme.Base.{
  ℕ, zero, String, Bool, true, false, not, ◌&&◌, ◌||◌, Option, none, some, List, [], ◌∷◌, ◌++◌, map,
  length, ltb, str_eq, truthy_text, fstring, split, decimal, if◌then◌else◌,
}
use consoleme.Json.{Json, null}
use consoleme.Aws.{get_resource_account}
use consoleme.Models.{
  InlineChange, Detail, inline_policy, managed_policy, permissions_boundary, assume_role_policy,
  managed_policy_resource, AwsPrincipal, Arn,
}
use consoleme.Requests.World.{
  role, user, get_details, get_managed_policy_document, Failure, Env, Work,
  invalid_request_parameter, unsupported_change_type, external, Result, ok, raised, perform, escape,
  chain,
}
use consoleme.Requests.Role.{is_role_or_user, principal_name}
use consoleme.Requests.Validate.{
  Checked, validate_inline_policy_change, validate_managed_policy_change,
  validate_permissions_boundary_change, validate_assume_role_policy_change,
  validate_managed_policy_resource_change,
}
use consoleme.Requests.Drafts.{Draft, Groups, first_of}

-- What the naming of a policy takes from outside: `policies.temp_policy_prefix` and a random text, here
-- for the change with this id.
pub record Naming : Type 0 where
  pub temp_policy_prefix : String
  pub random : String → String

unfoldable pub generate_policy_name :
    Naming → (now : ℕ) → (id requester : String) → Option String → Option ℕ → Option String
generate_policy_name n now id requester name expiration =
    if truthy_text name
    then name
    else some (elim expiration [
      | none ↦
          fstring
            ("cm_" ∷ first_of (split b'@' requester) ∷ "_" ∷ decimal now ∷ "_" ∷ n.random id ∷ [])
      | some zero ↦
          fstring
            ("cm_" ∷ first_of (split b'@' requester) ∷ "_" ∷ decimal now ∷ "_" ∷ n.random id ∷ [])
      | some date ↦ fstring (
          n.temp_policy_prefix
          ∷ "_"
          ∷ decimal date
          ∷ "_"
          ∷ first_of (split b'@' requester)
          ∷ "_"
          ∷ decimal now
          ∷ [])
    ])

abbrev pub invalid : {A : Type 0} → String → Result A
invalid message = raised (invalid_request_parameter message)

unfoldable pub is_empty : List Draft → Bool
is_empty [] = true
is_empty (d ∷ ds) = false

-- None of the changes that only a role or a user can have.
unfoldable pub has_no_role_changes : Groups → Bool
unfolding is_empty
has_no_role_changes g =
    is_empty g.inline && (is_empty g.managed && (is_empty g.assume && is_empty g.boundary))

abbrev pub not_a_role : String
not_a_role =
    "Resource not found, or ARN type not supported for inline/managed/assume role policy changes."

module _ (e : Env) (n : Naming) (requester : String) where
  -- An inline policy gets its name.
  unfoldable pub name_inline : Draft → InlineChange → InlineChange
  unfolding generate_policy_name
  name_inline d ch = record ch {
    policy_name =
        generate_policy_name n e.now d.change.id requester ch.policy_name d.expiration_date;
  }

  unfoldable pub named : Draft → Detail → Draft
  unfolding name_inline
  named d (inline_policy ch) = record d {
    change = record d.change { detail = inline_policy (name_inline d ch) };
  }
  named d _ = d

  abbrev pub named_group : Groups → Groups
  named_group g = record g { inline = map (λ (d : Draft). named d d.change.detail) g.inline }

  -- What the validation says of one change of a role or user.
  unfoldable pub check_change : Arn → AwsPrincipal → Detail → Checked
  check_change a p (inline_policy ch) = validate_inline_policy_change ch p
  check_change a p (managed_policy arn action) = validate_managed_policy_change arn action p
  check_change a p (permissions_boundary arn action) =
      validate_permissions_boundary_change arn action p
  check_change a p (assume_role_policy ch) =
      if str_eq a.resource "user"
      then raised (
          unsupported_change_type
            "Unable to modify an assume role policy associated with an IAM user")
      else validate_assume_role_policy_change ch p
  check_change a p _ = ok tt

  -- The loops over the lists, in the source's order.
  unfoldable pub check_all : Arn → AwsPrincipal → List Draft → Checked
  unfolding check_change
  check_all a p [] = ok tt
  check_all a p (d ∷ ds) = chain (check_change a p d.change.detail) (λ _. check_all a p ds)

  unfoldable pub check_groups : Arn → Groups → Option AwsPrincipal → Result Groups
  unfolding check_all
  check_groups a g none = invalid "Principal not found"
  check_groups a g (some p) =
      chain
        (check_all a p
          ((named_group g).inline ++ (g.managed ++ (g.boundary ++ (g.assume ++ g.tags)))))
        (λ _. ok (named_group g))

  unfoldable pub check_role : String → Arn → Groups → Work → Result Groups × Work
  unfolding check_groups
  check_role arn a g w =
      let kind = if str_eq a.resource "role" then role else user in
      let account = get_resource_account e.lookups arn in
      if not (is_role_or_user a)
      then (invalid not_a_role, w)
      else escape (perform e (get_details kind account (principal_name a)) w)
          (λ w'. (check_groups a g (e.details w'.calls kind account (principal_name a)), w'))

  unfoldable pub check_fit : (policy_name : String) → Json → Detail → Checked
  check_fit name doc (managed_policy_resource m) =
      validate_managed_policy_resource_change m name doc
  check_fit name doc _ = ok tt

  unfoldable pub check_policies : (policy_name : String) → Json → List Draft → Checked
  unfolding check_fit
  check_policies name doc [] = ok tt
  check_policies name doc (d ∷ ds) =
      chain (check_fit name doc d.change.detail) (λ _. check_policies name doc ds)

  -- Behind the read of the policy. That AWS does not have it is no error.
  unfoldable pub check_against :
      String → Arn → Groups → Option Failure × Work → Result Groups × Work
  unfolding check_policies
  check_against arn a g (none, w) = (
    chain (check_policies (principal_name a) (e.managed_policy w.calls arn) g.managed_resource)
        (λ _. ok g),
    w,
  )
  check_against arn a g (some f, w) =
      if str_eq f.code "NoSuchEntity"
      then (chain (check_policies (principal_name a) null g.managed_resource) (λ _. ok g), w)
      else if str_eq f.code ""
      then (raised (external f), w)
      else (
        invalid (fstring ("Exception raised while getting managed policy: " ∷ f.message ∷ [])),
        w,
      )

  unfoldable pub check_managed_policy : String → Arn → Groups → Work → Result Groups × Work
  check_managed_policy arn a g w =
      let read =
        perform e (get_managed_policy_document arn (get_resource_account e.lookups arn)) w in
      let checked = check_against arn a g read in
      if not (str_eq a.service "iam") || not (str_eq a.resource "policy")
      then (invalid "Principal ARN type not supported for managed policy resource changes.", w)
      else if str_eq a.account "aws"
      then (invalid "AWS Managed Policies aren't valid for changes.", w)
      else if not (has_no_role_changes g)
      then (
        invalid "Principal ARN type not supported for inline/managed/assume role policy changes.",
        w,
      )
      else if ltb 1 (length g.managed_resource)
      then (invalid "One one managed policy resource change supported per request.", w)
      else checked

  -- The changes of an AWS resource, checked, and with the names that they get.
  unfoldable pub check_drafts : String → Groups → Work → Result Groups × Work
  check_drafts arn g w =
      let a = e.lookups.parse_arn arn in
      let of_policy = check_managed_policy arn a g w in
      let of_role = check_role arn a g w in
      if ltb 1 (length g.assume)
      then (invalid "One one assume role policy change supported per request.", w)
      else if not (is_empty g.managed_resource)
      then of_policy
      else if not (has_no_role_changes g)
      then of_role
      else (ok g, w)
