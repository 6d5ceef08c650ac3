-- ===== src/Requests/Create/Ways.antt =====
-- The ways in which a request passes the checks of `generate_request_from_change_model_array`.
use consoleme.Base.{
  ◌≤◌, String, ◌≡◌, refl, true, false, none, some, List, [], ◌∷◌, ◌++◌, length, eq_iff, Bool-cases,
  inl, inr, str_eq, All, if◌then◌else◌,
}
use consoleme.Json.{Json, null}
use consoleme.Aws.{get_resource_account}
use consoleme.Models.{
  AwsPrincipal, Arn, Detail, inline_policy, managed_policy, permissions_boundary,
  assume_role_policy, managed_policy_resource,
}
use consoleme.Requests.World.{
  Call, role, user, Failure, Env, Work, ok, raised, get_details, get_managed_policy_document, chain,
}
use consoleme.Requests.Role.{is_role_or_user, principal_name}
use consoleme.Requests.Validate.{
  Checked, validate_inline_policy_change, validate_managed_policy_change,
  validate_permissions_boundary_change, validate_assume_role_policy_change,
  validate_managed_policy_resource_change,
}
use consoleme.Requests.Drafts.{Draft, Groups}
use consoleme.Requests.Stubs.Foreign.{Returns}
use consoleme.Requests.Checks.{
  Naming, named_group, check_change, check_all, check_fit, check_policies, is_empty,
  has_no_role_changes,
}

abbrev pub role_changes : Groups → List Draft
role_changes g = g.inline ++ (g.managed ++ (g.boundary ++ (g.assume ++ g.tags)))

-- What the validation asks of one change of a role or user. The trust policy of a user is not changed.
abbrev pub IsValid : Arn → AwsPrincipal → Detail → Type 0
IsValid a p (inline_policy ch) = validate_inline_policy_change ch p ≡ ok tt
IsValid a p (managed_policy arn action) = validate_managed_policy_change arn action p ≡ ok tt
IsValid a p (permissions_boundary arn action) =
    validate_permissions_boundary_change arn action p ≡ ok tt
IsValid a p (assume_role_policy ch) =
    ¬ (a.resource ≡ "user") × (validate_assume_role_policy_change ch p ≡ ok tt)
IsValid a p _ = Unit

-- And of a change of a managed policy with this name and document.
abbrev pub IsFitting : (name : String) → (doc : Json) → Detail → Type 0
IsFitting name doc (managed_policy_resource m) =
    validate_managed_policy_resource_change m name doc ≡ ok tt
IsFitting name doc _ = Unit

both :
    (c rest : Checked) (A B : Type 0)
    → (c ≡ ok tt → A)
    → Returns (λ (_ : Unit {0}). B) rest
    → Returns (λ (_ : Unit {0}). A × B) (chain c (λ _. rest))
both (ok x) (ok y) A B f h = (f refl, h)
both (ok x) (raised err) A B f h = tt
both (raised err) rest A B f h = tt

module _ (e : Env) (n : Naming) (requester arn : String) (g : Groups) where
  abbrev pub a : Arn
  a = e.lookups.parse_arn arn

  abbrev pub account : String
  account = get_resource_account e.lookups arn

  -- The read of the role or user, and the read of the policy.
  abbrev pub details_call : Call
  details_call =
      get_details (if str_eq a.resource "role" then role else user) account (principal_name a)

  abbrev pub policy_call : Call
  policy_call = get_managed_policy_document arn account

  -- AWS knows the role or user: the read returns, and this is what it returns.
  pub record IsThere (w : Work) (p : AwsPrincipal) : Type 0 where
    pub returns : e.outcome w.calls details_call ≡ none
    pub answer :
        e.details
          (details_call ∷ w.calls)
          (if str_eq a.resource "role" then role else user)
          account
          (principal_name a)
        ≡ some p

  -- The document of the policy: what AWS returns, or none, if it says that there is no such policy.
  pub data IsDocument (w : Work) : Json → Type 0 where
    returned :
        e.outcome w.calls policy_call ≡ none
        → IsDocument w (e.managed_policy (policy_call ∷ w.calls) arn)
    no_policy :
        (f : Failure)
        → e.outcome w.calls policy_call ≡ some f
        → f.code ≡ "NoSuchEntity"
        → IsDocument w null

  -- The ways to pass, with the lists that go on.
  pub data Admitted (w : Work) : Groups → Type 0 where
    -- tags and resource policies alone
    no_check : is_empty g.managed_resource ≡ true → has_no_role_changes g ≡ true → Admitted w g
    -- an IAM role or user that is there, every change of which passes its validation
    of_principal :
        (p : AwsPrincipal)
        → IsThere w p
        → is_empty g.managed_resource ≡ true
        → is_role_or_user (e.lookups.parse_arn arn) ≡ true
        → All
            (λ (d : Draft). IsValid (e.lookups.parse_arn arn) p d.change.detail)
            (role_changes (named_group e n requester g))
        → Admitted w (named_group e n requester g)
    -- one change of a customer's own managed policy, which fits to what there is
    of_policy :
        (doc : Json)
        → IsDocument w doc
        → str_eq (e.lookups.parse_arn arn).service "iam" ≡ true
        → str_eq (e.lookups.parse_arn arn).resource "policy" ≡ true
        → str_eq (e.lookups.parse_arn arn).account "aws" ≡ false
        → has_no_role_changes g ≡ true
        → length g.managed_resource ≤ 1
        → All
            (λ (d : Draft).
              IsFitting (principal_name (e.lookups.parse_arn arn)) doc d.change.detail)
            g.managed_resource
        → Admitted w g

  valid :
      (a : Arn) (p : AwsPrincipal) (d : Detail)
      → check_change e n requester a p d ≡ ok tt
      → IsValid a p d
  unfolding check_change
  valid a p (inline_policy ch) h = h
  valid a p (managed_policy arn action) h = h
  valid a p (permissions_boundary arn action) h = h
  valid a p (assume_role_policy ch) h = elim (Bool-cases (str_eq a.resource "user")) [
    | inl e ↦ cc (rw e at h)
    | inr e ↦ (λ same. cc (e, (eq_iff a.resource "user").1 same), rw e at h)
  ]
  valid a p _ h = tt

  fitting :
      (name : String) (doc : Json) (d : Detail)
      → check_fit e n requester name doc d ≡ ok tt
      → IsFitting name doc d
  unfolding check_fit
  fitting name doc (managed_policy_resource m) h = h
  fitting name doc _ h = tt

  pub check_all-passes :
      (a : Arn) (p : AwsPrincipal) (ds : List Draft)
      → Returns
          (λ _. All (λ (d : Draft). IsValid a p d.change.detail) ds)
          (check_all e n requester a p ds)
  unfolding check_all
  check_all-passes a p [] = tt
  check_all-passes a p (d ∷ ds) =
      both (check_change e n requester a p d.change.detail) (check_all e n requester a p ds) _ _
        (valid a p d.change.detail) (check_all-passes a p ds)

  pub check_policies-passes :
      (name : String) (doc : Json) (ds : List Draft)
      → Returns
          (λ _. All (λ (d : Draft). IsFitting name doc d.change.detail) ds)
          (check_policies e n requester name doc ds)
  unfolding check_policies
  check_policies-passes name doc [] = tt
  check_policies-passes name doc (d ∷ ds) =
      both (check_fit e n requester name doc d.change.detail)
        (check_policies e n requester name doc ds) _ _ (fitting name doc d.change.detail)
        (check_policies-passes name doc ds)
