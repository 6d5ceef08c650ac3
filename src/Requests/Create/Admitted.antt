-- ===== src/Requests/Create/Admitted.antt =====
-- Which requests pass the checks of `generate_request_from_change_model_array`.
use consoleme.Base.{
  ◌≤◌, String, ◌≡◌, refl, inl, inr, Bool, true, false, not, ◌||◌, Option, none, some, ◌∷◌, arith,
  eq_iff, length, ltb, str_eq, Bool-cases, All, if◌then◌else◌,
}
use consoleme.Json.{Json, null}
use consoleme.Models.{AwsPrincipal, Arn}
use consoleme.Requests.World.{
  Failure, Env, Work, external, Result, ok, raised, perform, escape, chain,
}
use consoleme.Requests.Role.{is_role_or_user, principal_name}
use consoleme.Requests.Validate.{Checked}
use consoleme.Requests.Drafts.{Draft, Groups}
use consoleme.Requests.Stubs.Foreign.{Returns, Returns-map}
use consoleme.Requests.Checks.{
  Naming, named_group, check_groups, check_role, check_policies, check_against, not_a_role,
  check_managed_policy, check_drafts, is_empty, has_no_role_changes, invalid,
}
use consoleme.Requests.Create.Ways.{
  IsFitting, role_changes, details_call, policy_call, IsThere, IsDocument, returned, no_policy,
  Admitted, no_check, of_principal, of_policy, check_all-passes, check_policies-passes,
}

module _ (e : Env) (n : Naming) (requester arn : String) (g : Groups) (w : Work) where
  -- Of a result with the work, after a start from this work.
  abbrev Passes : Result Groups × Work → Type 0
  Passes q = Returns (Admitted e n requester arn g w) q.0

  if-Passes :
      (b : Bool) (x y : Result Groups × Work)
      → (b ≡ true → Passes x)
      → (b ≡ false → Passes y)
      → Passes (if b then x else y)
  if-Passes true x y h k = h refl
  if-Passes false x y h k = k refl

  abbrev arn_read : Arn
  arn_read = e.lookups.parse_arn arn

  Passes-with :
      (g' : Groups) (c : Checked) (v : Work) (P : Type 0)
      → Returns (λ (_ : Unit {0}). P) c
      → (P → Admitted e n requester arn g w g')
      → Passes (chain c (λ _. ok g'), v)
  Passes-with g' (ok x) v P h f = f h
  Passes-with g' (raised err) v P h f = tt

  check_groups-Passes :
      (p : Option AwsPrincipal) (v : Work)
      → ((q : AwsPrincipal) → p ≡ some q → IsThere e n requester arn g w q)
      → is_empty g.managed_resource ≡ true
      → is_role_or_user arn_read ≡ true
      → Passes (check_groups e n requester arn_read g p, v)
  unfolding check_groups
  check_groups-Passes none v there h k = tt
  check_groups-Passes (some p) v there h k =
      Passes-with (named_group e n requester g) _ v _
        (check_all-passes e n requester arn g arn_read p
          (role_changes (named_group e n requester g)))
        (of_principal p (there p refl) h k)

  escape-Passes :
      (o : Option Failure) (v : Work) (k : Work → Result Groups × Work)
      → (o ≡ none → Passes (k v))
      → Passes (escape (o, v) k)
  escape-Passes none v k h = h refl
  escape-Passes (some f) v k h = tt

  check_role-Passes :
      is_empty g.managed_resource ≡ true → Passes (check_role e n requester arn arn_read g w)
  unfolding check_role perform
  check_role-Passes h =
      if-Passes (not (is_role_or_user arn_read)) (invalid not_a_role, w) _ (λ _. tt)
        (λ is_one.
          escape-Passes (e.outcome w.calls (details_call e n requester arn g)) _ _ (λ returns.
            check_groups-Passes _ w (λ q answer. record { returns = returns; answer = answer }) h
              (ground (arith, is_one))))

  check_against-Passes :
      (o : Option Failure)
      → e.outcome w.calls (policy_call e n requester arn g) ≡ o
      → ((doc : Json)
          → IsDocument e n requester arn g w doc
          → All
              (λ (d : Draft). IsFitting (principal_name arn_read) doc d.change.detail)
              g.managed_resource
          → Admitted e n requester arn g w g)
      → Passes (
          check_against e n requester arn arn_read g
            (o, record w { calls = policy_call e n requester arn g ∷ w.calls }))
  unfolding check_against
  check_against-Passes none read f =
      Passes-with g _ w _
        (check_policies-passes e n requester arn g (principal_name arn_read)
          (e.managed_policy (policy_call e n requester arn g ∷ w.calls) arn) g.managed_resource)
        (f _ (returned read))
  check_against-Passes (some x) read f =
      if-Passes (str_eq x.code "NoSuchEntity") _ _
        (λ missing.
          Passes-with g
            (check_policies e n requester (principal_name arn_read) null g.managed_resource) w _
            (check_policies-passes e n requester arn g (principal_name arn_read) null
              g.managed_resource)
            (f null (no_policy x read ((eq_iff x.code "NoSuchEntity").0 missing))))
        (λ _. if-Passes (str_eq x.code "") (raised (external x), _) _ (λ _. tt) (λ _. tt))

  check_managed_policy-Passes : Passes (check_managed_policy e n requester arn arn_read g w)
  unfolding check_managed_policy perform
  check_managed_policy-Passes =
      if-Passes (not (str_eq arn_read.service "iam") || not (str_eq arn_read.resource "policy"))
        (invalid "Principal ARN type not supported for managed policy resource changes.", w) _
        (λ _. tt)
        (λ is_policy.
          if-Passes (str_eq arn_read.account "aws")
            (invalid "AWS Managed Policies aren't valid for changes.", w) _ (λ _. tt)
            (λ is_own.
              if-Passes (not (has_no_role_changes g))
                (
                  invalid
                      "Principal ARN type not supported for inline/managed/assume role policy changes.",
                  w,
                )
                _ (λ _. tt)
                (λ alone.
                  if-Passes (ltb 1 (length g.managed_resource))
                    (invalid "One one managed policy resource change supported per request.", w) _
                    (λ _. tt)
                    (λ single. check_against-Passes _ refl (λ doc is_doc fits.
                      of_policy doc is_doc (ground (arith, is_policy)) (ground (arith, is_policy))
                        is_own (ground (arith, alone)) (ground (arith, single)) fits)))))

  checked : Result Groups × Work
  checked =
      if not (is_empty g.managed_resource)
      then check_managed_policy e n requester arn arn_read g w
      else if not (has_no_role_changes g)
      then check_role e n requester arn arn_read g w
      else (ok g, w)

  checked-Passes : Passes checked
  unfolding checked
  checked-Passes =
      if-Passes (not (is_empty g.managed_resource))
        (check_managed_policy e n requester arn arn_read g w) _ (λ _. check_managed_policy-Passes)
        (λ no_policy.
          if-Passes (not (has_no_role_changes g)) (check_role e n requester arn arn_read g w)
            (ok g, w) (λ _. check_role-Passes (ground (arith, no_policy)))
            (λ alone. no_check (ground (arith, no_policy)) (ground (arith, alone))))

  -- A request that passes the checks has at most one change of a trust policy, and its changes pass in one of
  -- the ways of Admitted: they need no check, or every one passes its validation against the role or user that
  -- AWS returns, or it is one change of a customer's own managed policy and fits to the document that AWS
  -- returns, or to none, if there is no such policy.
  pub check_drafts-Admitted :
      Returns
        (λ (g' : Groups). (length g.assume ≤ 1) × Admitted e n requester arn g w g')
        (check_drafts e n requester arn g w).0
  unfolding check_drafts checked
  check_drafts-Admitted = elim (Bool-cases (ltb 1 (length g.assume))) [
    | inl many ↦ rw many tt
    | inr few ↦ rw few (
        Returns-map (Admitted e n requester arn g w) _ checked.0 (λ g' x. (ground (arith, few), x))
          checked-Passes)
  ]
