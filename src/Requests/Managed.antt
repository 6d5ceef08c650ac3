-- ===== src/Requests/Managed.antt =====
-- `apply_managed_policy_resource_change`: a managed policy is created or gets a new version.
pub mod Outcome
use consoleme.Base.{
  zero, String, Bool, false, not, ◌||◌, some, List, [], ◌∷◌, str_eq, truthy_text, fstring,
  remove_from, if◌then◌else◌,
}
use consoleme.Models.{Principal, aws_resource, honeybee, ManagedResourceChange, Change, Arn}
use consoleme.Requests.World.{
  create_managed_policy, update_managed_policy, Env, Work, attribute_error, Result, ok, raised,
  fail, perform, ◌>>◌, report, caught,
}
use consoleme.Requests.Steps.{with_document}
use consoleme.Requests.Role.{principal_name}
use consoleme.Requests.Old.{populate_old_managed_policies}

module _ (e : Env) (arn : String) (a : Arn) (m : ManagedResourceChange) where
  -- `"/" + resource_path.replace(policy_name, "")`
  unfoldable pub policy_path : String
  policy_path = fstring ("/" ∷ remove_from (principal_name a) zero a.resource_path ∷ [])

  unfoldable pub create_policy : Work → Bool × Work
  create_policy w =
      caught
        (do
          with_document m.policy
              (λ doc. perform e (create_managed_policy (principal_name a) policy_path arn doc))
          report (fstring ("Successfully created managed policy " ∷ arn ∷ [])))
        "Error occurred creating managed policy: " w

  unfoldable pub update_policy : Work → Bool × Work
  update_policy w =
      caught
        (do
          with_document m.policy
              (λ doc. perform e (update_managed_policy (principal_name a) arn doc))
          report (fstring ("Successfully updated managed policy " ∷ arn ∷ [])))
        "Error occurred creating updating policy: " w

-- Behind the old policies: whether the change was applied.
unfoldable pub put_managed_policy :
    Env
    → (arn : String) → Arn
    → ManagedResourceChange
    → Result (Unit {0}) × List Change × Work
    → Result Bool × List Change × Work
put_managed_policy e arn a m (raised err, cs, w) = (raised err, cs, w)
put_managed_policy e arn a m (ok _, cs, w) =
    let (done, w') = if m.new then create_policy e arn a m w else update_policy e arn a m w in
    (ok done, cs, w')

unfoldable pub change_managed_policy :
    Env
    → (arn : String) → ManagedResourceChange
    → List Change
    → Work
    → Result Bool × List Change × Work
change_managed_policy e arn m cs w =
    let a = e.lookups.parse_arn arn in
    if not (str_eq a.service "iam") || (not (str_eq a.resource "policy") || str_eq a.account "aws")
    then (ok false, cs, fail "ARN type not supported for managed policy resource changes." w)
    else if not (truthy_text (some a.account))
    then (
      ok false,
      cs,
      fail
          (fstring ("Cannot apply change to " ∷ arn ∷ " as cannot determine resource account" ∷ []))
          w,
    )
    else put_managed_policy e arn a m (populate_old_managed_policies e (aws_resource arn) cs w)

unfoldable pub apply_managed_policy_resource_change :
    Env → Principal → ManagedResourceChange → List Change → Work → Result Bool × List Change × Work
apply_managed_policy_resource_change e (aws_resource arn) m cs w =
    change_managed_policy e arn m cs w
apply_managed_policy_resource_change e (honeybee _ _ _) m cs w = (raised attribute_error, cs, w)
