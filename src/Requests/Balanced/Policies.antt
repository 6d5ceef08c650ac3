-- ===== src/Requests/Balanced/Policies.antt =====
-- The reading of old policies, and the changes of managed policies, keep the books.
use consoleme.Base.{String, Option, none, some, List, refl, if◌then◌else◌}
use consoleme.Models.{Principal, aws_resource, honeybee, ManagedResourceChange, Change, Arn}
use consoleme.Requests.World.{Env, Kind, Failure, Work, Result, ok, raised}
use consoleme.Requests.Old.{
  populate_found, populate_from, populate_arn, populate_old_policies, populate_managed_from,
  populate_old_managed_policies,
}
use consoleme.Requests.Managed.{
  create_policy, update_policy, put_managed_policy, change_managed_policy,
  apply_managed_policy_resource_change,
}
use consoleme.Requests.Balanced.{
  Balanced, Balanced-trans, fail-Balanced, tidy_rules, caught-Balanced,
}
use consoleme.Requests.Balanced.Roles.{if-Balanced, if-Balanced-2, perform-Balanced}

module _ (e : Env) where
  populate_found-Balanced :
      (k : Kind) (account name : String) (cs : List Change) (w : Work) (p : Option Failure × Work)
      → Balanced w p.1
      → Balanced w (populate_found e k account name cs p).2
  unfolding populate_found
  populate_found-Balanced k account name cs w (some f, v) h = h
  populate_found-Balanced k account name cs w (none, v) h = h

  populate_from-Balanced :
      (k : Kind) (account name : String) (cs : List Change) (w : Work)
      → Balanced w (populate_from e k account name cs w).2
  unfolding populate_from
  populate_from-Balanced k account name cs w =
      populate_found-Balanced k account name cs w _ (perform-Balanced e _ w)

  pub populate_old_policies-Balanced :
      (p : Principal) (cs : List Change) (w : Work) → Balanced w (populate_old_policies e p cs w).2
  unfolding populate_old_policies populate_arn
  populate_old_policies-Balanced (aws_resource arn) cs w =
      search (if-Balanced-2, populate_from-Balanced)
  populate_old_policies-Balanced (honeybee _ _ _) cs w = refl

  populate_managed_from-Balanced :
      (arn : String) (cs : List Change) (w : Work) (p : Option Failure × Work)
      → Balanced w p.1
      → Balanced w (populate_managed_from e arn cs p).2
  unfolding populate_managed_from
  populate_managed_from-Balanced arn cs w (some f, v) h = search if-Balanced-2
  populate_managed_from-Balanced arn cs w (none, v) h = h

  populate_old_managed_policies-Balanced :
      (p : Principal) (cs : List Change) (w : Work)
      → Balanced w (populate_old_managed_policies e p cs w).2
  unfolding populate_old_managed_policies
  populate_old_managed_policies-Balanced (aws_resource arn) cs w =
      search (if-Balanced-2, populate_managed_from-Balanced, perform-Balanced)
  populate_old_managed_policies-Balanced (honeybee _ _ _) cs w = refl

  create_policy-Balanced :
      (arn : String) (a : Arn) (m : ManagedResourceChange) (w : Work)
      → Balanced w (create_policy e arn a m w).1
  unfolding create_policy
  create_policy-Balanced arn a m w = caught-Balanced _ _ w (search tidy_rules depth 12)

  update_policy-Balanced :
      (arn : String) (a : Arn) (m : ManagedResourceChange) (w : Work)
      → Balanced w (update_policy e arn a m w).1
  unfolding update_policy
  update_policy-Balanced arn a m w = caught-Balanced _ _ w (search tidy_rules depth 12)

  put_managed_policy-Balanced :
      (arn : String) (a : Arn) (m : ManagedResourceChange) (w : Work)
      (p : Result (Unit {0}) × List Change × Work)
      → Balanced w p.2
      → Balanced w (put_managed_policy e arn a m p).2
  unfolding put_managed_policy
  put_managed_policy-Balanced arn a m w (raised err, ds, v) h = h
  put_managed_policy-Balanced arn a m w (ok done, ds, v) h =
      Balanced-trans w v (if m.new then create_policy e arn a m v else update_policy e arn a m v).1
        h (search (if-Balanced, create_policy-Balanced, update_policy-Balanced))

  change_managed_policy-Balanced :
      (arn : String) (m : ManagedResourceChange) (cs : List Change) (w : Work)
      → Balanced w (change_managed_policy e arn m cs w).2
  unfolding change_managed_policy
  change_managed_policy-Balanced arn m cs w = search (
    if-Balanced-2, fail-Balanced, put_managed_policy-Balanced,
    populate_old_managed_policies-Balanced,
  )

  pub apply_managed_policy_resource_change-Balanced :
      (p : Principal) (m : ManagedResourceChange) (cs : List Change) (w : Work)
      → Balanced w (apply_managed_policy_resource_change e p m cs w).2
  unfolding apply_managed_policy_resource_change
  apply_managed_policy_resource_change-Balanced (aws_resource arn) m cs w =
      change_managed_policy-Balanced arn m cs w
  apply_managed_policy_resource_change-Balanced (honeybee _ _ _) m cs w = refl
