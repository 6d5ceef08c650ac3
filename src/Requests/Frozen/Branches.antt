-- ===== src/Requests/Frozen/Branches.antt =====
-- What the parts of the commands do to the changes of a request, the one that the command names set apart.
use consoleme.Base.{String, ◌≡◌, refl, Bool, true, false, Option, none, some, List}
use consoleme.Models.{
  Principal, Detail, resource_policy, sts_resource_policy, resource_tag, managed_policy_resource,
  TagChange, ResourceChange, ManagedResourceChange, RequestStatus, Change, Request,
}
use consoleme.Requests.World.{Env}
use consoleme.Requests.Pairs.{Pairs, Frozen, Pairs-refl, Pairs-trans, Frozen-refl, Frozen-trans}
use consoleme.Requests.Role.{apply_changes_to_role}
use consoleme.Requests.Flow.{M, on_changes, edit}
use consoleme.Requests.Keeps.{Keeps, Keeps->>=}
use consoleme.Requests.Complete.{
  with_detail, edit_change, refresh_role, announce, announce_status, announce_settled,
  maybe_approve_reject_request,
}
use consoleme.Requests.Branches.{
  populate_all, refresh_principal, through_role, mark, through_resource, retagged, through_tag,
  through_managed, dispatch,
}
use consoleme.Requests.Modify.{if_fresh, fresh_change}
use consoleme.Requests.Frozen.{
  Spares, Spares-refl, Spares-trans, Frozen→Spares, update_specific-Spares,
}
use consoleme.Requests.Frozen.Helpers.{
  populate_old_policies-Frozen, apply_changes_to_role-Frozen,
  apply_managed_policy_resource_change-Frozen,
}
use consoleme.Requests.Frozen.Rules.{Order, Of, Of-Laws, Keeps-on_changes, step_rules}

module _ (C : List Change → List Change → Type 0) (o : Order C) (e : Env) (user : String) where
  pub Keeps-refresh_role : (r : Request) → Keeps (Of C) (refresh_role e user r)
  unfolding refresh_role
  Keeps-refresh_role r = search step_rules depth 20

  pub Keeps-announce : Keeps (Of C) (announce e user)
  unfolding announce
  Keeps-announce = search (step_rules, Keeps-refresh_role) depth 20

  pub Keeps-announce_status :
      (status : RequestStatus) → Keeps (Of C) (announce_status e user status)
  unfolding announce_status
  Keeps-announce_status status = search (step_rules, Keeps-announce) depth 20

  pub Keeps-announce_settled :
      (status : Option RequestStatus) → Keeps (Of C) (announce_settled e user status)
  unfolding announce_settled
  Keeps-announce_settled none = search step_rules depth 20
  Keeps-announce_settled (some status) = Keeps-announce_status status

  pub Keeps-maybe_approve_reject_request : Keeps (Of C) (maybe_approve_reject_request e user)
  unfolding maybe_approve_reject_request
  Keeps-maybe_approve_reject_request = search (step_rules, Keeps-announce_settled)

pub Frozen-Order : Order (Pairs Frozen)
Frozen-Order = record {
  same = Pairs-refl Frozen Frozen-refl;
  chain = Pairs-trans Frozen Frozen-trans;
}

pub Spares-Order : (id : String) → Order (Spares id)
Spares-Order id = record { same = Spares-refl id; chain = Spares-trans id }

pub Frozen→Spares-Keeps :
    (id : String) {A : Type 0} (m : M A) → Keeps (Of (Pairs Frozen)) m → Keeps (Of (Spares id)) m
Frozen→Spares-Keeps id m h = record {
  keeps = λ s. Frozen→Spares id s.request.changes _ (h.keeps s);
}

module _ (e : Env) where
  pub Keeps-populate_all : Keeps (Of (Pairs Frozen)) (populate_all e)
  unfolding populate_all
  Keeps-populate_all =
      Keeps-on_changes (Pairs Frozen) Frozen-Order _
        (λ r w. populate_old_policies-Frozen e r.principal r.changes w)

  pub Keeps-refresh_principal :
      (C : List Change → List Change → Type 0) → Order C → Keeps (Of C) (refresh_principal e)
  unfolding refresh_principal
  Keeps-refresh_principal C o = search step_rules depth 20

  pub Keeps-edit_change :
      (id : String) (f : Change → Change)
      → ((c : Change) → (f c).id ≡ c.id)
      → Keeps (Of (Spares id)) (edit_change id f)
  unfolding edit_change edit
  Keeps-edit_change id f h = record { keeps = λ s. update_specific-Spares id f h s.request.changes }

  pub Keeps-through_role : (id : String) → Keeps (Of (Spares id)) (through_role e id)
  unfolding through_role
  Keeps-through_role id =
      search (step_rules, Spares-Order, all_old, applied_to_role, Keeps-refresh_principal) depth 12
    where
      all_old : Keeps (Of (Spares id)) (populate_all e)
      all_old = Frozen→Spares-Keeps id _ Keeps-populate_all

      applied_to_role :
          Keeps (Of (Spares id)) (on_changes (λ r w. apply_changes_to_role e r (some id) w))
      applied_to_role = Frozen→Spares-Keeps id _ (
          Keeps-on_changes (Pairs Frozen) Frozen-Order _
            (λ r w. apply_changes_to_role-Frozen e r (some id) w))

  pub with_detail-id : (d : Detail) (c : Change) → (with_detail d c).id ≡ c.id
  unfolding with_detail
  with_detail-id d c = refl

  pub Keeps-mark : (id : String) (done : Bool) → Keeps (Of (Spares id)) (mark e id done)
  unfolding mark
  Keeps-mark id true = Keeps-edit_change id _ (λ c. refl)
  Keeps-mark id false = search (step_rules, Spares-Order)

  pub Keeps-retagged :
      (id : String) (p : TagChange × Bool) → Keeps (Of (Spares id)) (retagged e id p)
  unfolding retagged
  Keeps-retagged id (t, done) =
      Keeps->>= _ (Of-Laws _ (Spares-Order id)) _ _ (Keeps-edit_change id _ (with_detail-id _))
        (λ _. Keeps-mark id done)

  pub Keeps-through_resource :
      (id : String) (sts : Bool) (rc : ResourceChange)
      → Keeps (Of (Spares id)) (through_resource e id sts rc)
  unfolding through_resource
  Keeps-through_resource id sts rc =
      Keeps->>= _ (Of-Laws _ (Spares-Order id)) _ _
        (Keeps-on_changes (Spares id) (Spares-Order id) _ (λ r w. Spares-refl id r.changes))
        (λ done. Keeps-mark id done)

  pub Keeps-through_tag :
      (id : String) (t : TagChange) (arn : String) → Keeps (Of (Spares id)) (through_tag e id t arn)
  unfolding through_tag
  Keeps-through_tag id t arn =
      search
        (
          step_rules, Spares-Order, Spares-refl, Keeps-on_changes, Keeps-retagged,
          Keeps-through_role,
        )
        depth 12

  pub Keeps-through_managed :
      (id : String) (m : ManagedResourceChange) → Keeps (Of (Spares id)) (through_managed e id m)
  unfolding through_managed
  Keeps-through_managed id m =
      Keeps->>= _ (Of-Laws _ (Spares-Order id)) _ _
        (Frozen→Spares-Keeps id _ (
          Keeps-on_changes (Pairs Frozen) Frozen-Order _
            (λ r w. apply_managed_policy_resource_change-Frozen e r.principal m r.changes w)))
        (λ done. Keeps-mark id done)

  pub Keeps-dispatch :
      (id : String) (p : Principal) (d : Detail) → Keeps (Of (Spares id)) (dispatch e id p d)
  unfolding dispatch
  Keeps-dispatch id p (resource_policy rc) = Keeps-through_resource id false rc
  Keeps-dispatch id p (sts_resource_policy rc) = Keeps-through_resource id true rc
  Keeps-dispatch id p (resource_tag t) =
      search (step_rules, Spares-Order, Keeps-through_tag) depth 12
  Keeps-dispatch id p (managed_policy_resource m) = Keeps-through_managed id m
  Keeps-dispatch id p _ = Keeps-through_role id

  pub Keeps-if_fresh :
      (id : String) (found : Option Change) → Keeps (Of (Spares id)) (if_fresh found)
  unfolding if_fresh
  Keeps-if_fresh id none = search (step_rules, Spares-Order)
  Keeps-if_fresh id (some c) = search (step_rules, Spares-Order)

  pub Keeps-fresh_change : (id : String) → Keeps (Of (Spares id)) (fresh_change id)
  unfolding fresh_change
  Keeps-fresh_change id = search (step_rules, Spares-Order, Keeps-if_fresh) depth 12
