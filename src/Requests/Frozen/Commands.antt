-- ===== src/Requests/Frozen/Commands.antt =====
-- What the commands of `parse_and_apply_policy_request_modification` do to the changes of a request.
use consoleme.Base.{
  ℕ, Option-cases, Bool-cases, String, ◌≡◌, refl, Bool, true, false, Option, none, some, List, inl,
  inr,
}
use consoleme.Json.{Json}
use consoleme.Models.{
  Detail, Status, RequestStatus, Change, is_applied, is_not_applied, Request, Modification,
}
use consoleme.Requests.World.{Env, Error}
use consoleme.Requests.Pairs.{Preserved, all-Preserved, Pairs, Frozen, Pairs-refl, Frozen-refl}
use consoleme.Requests.Select.{get_specific_change}
use consoleme.Requests.Flow.{State, M, raise, gets, ◌>>=◌}
use consoleme.Requests.Keeps.{Keeps}
use consoleme.Requests.Complete.{Done}
use consoleme.Requests.Refusal.{authorized}
use consoleme.Requests.Modify.{
  parse_and_apply_policy_request_modification, touched, called_off, add, comment, if_fresh,
  fresh_change, update, persist_applied, apply, cancel, close_as, close, approve, reopen, execute,
  edited,
}
use consoleme.Requests.Frozen.{Spares, Spares→Frozen}
use consoleme.Requests.Frozen.Rules.{Of, Keeps-edit, step_rules}
use consoleme.Requests.Frozen.Branches.{
  Keeps-maybe_approve_reject_request, Frozen-Order, Spares-Order, Keeps-populate_all,
  Keeps-refresh_principal, Keeps-edit_change, with_detail-id, Keeps-dispatch, Keeps-fresh_change,
}

module _ (e : Env) (user : String) where
  edited-id : (d : Detail) (c : Change) → (edited e user d c).id ≡ c.id
  unfolding edited
  edited-id d c = refl

  touched-id : (c : Change) → (touched e user c).id ≡ c.id
  unfolding touched
  touched-id c = refl

  called_off-id : (c : Change) → (called_off e user c).id ≡ c.id
  unfolding called_off
  called_off-id c = refl

  add-changes : (text : String) (r : Request) → (add e user text r).changes ≡ r.changes
  unfolding add
  add-changes text r = refl

  Keeps-update : (id : String) (doc : Json) → Keeps (Of (Spares id)) (update e user id doc)
  unfolding update
  Keeps-update id doc =
      search (step_rules, Spares-Order, Keeps-fresh_change, Keeps-edit_change, edited-id) depth 20

  Keeps-persist_applied :
      (id : String) (found : Option Change)
      → Keeps (Of (Spares id)) (persist_applied e user id found)
  unfolding persist_applied
  Keeps-persist_applied id none = search (step_rules, Spares-Order)
  Keeps-persist_applied id (some c) =
      search (step_rules, Spares-Order, Keeps-edit_change, touched-id) depth 12

  Keeps-apply : (id : String) (doc : Option Json) → Keeps (Of (Spares id)) (apply e user id doc)
  unfolding apply
  Keeps-apply id doc =
      search
        (
          step_rules, Spares-Order, Keeps-fresh_change, Keeps-edit_change, with_detail-id,
          Keeps-dispatch, Keeps-persist_applied,
        )
        depth 20

  Keeps-cancel : (id : String) → Keeps (Of (Spares id)) (cancel e user id)
  unfolding cancel
  Keeps-cancel id =
      search (step_rules, Spares-Order, Keeps-fresh_change, Keeps-edit_change, called_off-id) depth
        20

  Keeps-close_as :
      (status : RequestStatus) (good bad : String)
      → Keeps (Of (Pairs Frozen)) (close_as e user status good bad)
  unfolding close_as
  Keeps-close_as status good bad = search (step_rules, Frozen-Order) depth 30

  Keeps-close :
      (verb : String) (status : RequestStatus) (good bad : String)
      → Keeps (Of (Pairs Frozen)) (close e user verb status good bad)
  unfolding close
  Keeps-close verb status good bad = search (step_rules, Frozen-Order, Keeps-close_as) depth 30

  Keeps-approve : Keeps (Of (Pairs Frozen)) (approve e user)
  unfolding approve
  Keeps-approve =
      search (step_rules, Frozen-Order, Keeps-populate_all, Keeps-refresh_principal) depth 30

  Keeps-reopen : Keeps (Of (Pairs Frozen)) (reopen e user)
  unfolding reopen
  Keeps-reopen = search (step_rules, Frozen-Order) depth 30

  Keeps-comment : (text : String) → Keeps (Of (Pairs Frozen)) (comment e user text)
  unfolding comment
  Keeps-comment text = search (step_rules, Frozen-Order, Keeps-edit, add-changes) depth 30

not_fresh : (c : Change) → is_not_applied c.status ≡ true → is_applied c.status ≡ false
not_fresh c h =
    elim c.status as (λ x. is_not_applied x ≡ true → is_applied x ≡ false) [
      | Status.applied ↦ λ p. cc
      | Status.not_applied ↦ λ p. refl
      | Status.cancelled ↦ λ p. refl
    ]
      h

-- A command that starts by looking for a change that is not applied.
fresh_change-Frozen :
    (id : String) (k : Change → M Done)
    → Keeps (Of (Spares id)) (fresh_change id >>= k)
    → Keeps (Of (Pairs Frozen)) (fresh_change id >>= k)
unfolding fresh_change if_fresh gets raise ◌>>=◌
fresh_change-Frozen id k h = record {
  keeps = λ s. elim (Option-cases (get_specific_change id s.request.changes)) [
    | inl none_found ↦ rw none_found (Pairs-refl Frozen Frozen-refl s.request.changes)
    | inr (c, found) ↦ elim (Bool-cases (is_not_applied c.status)) [
      | inl fresh ↦ Spares→Frozen id s.request.changes _ c found (not_fresh c fresh) (h.keeps s)
      | inr stale ↦ rw (found, stale) (Pairs-refl Frozen Frozen-refl s.request.changes)
    ]
  ];
}

module _ (e : Env) (user : String) where
  pub execute-Frozen : (cmd : Modification) → Keeps (Of (Pairs Frozen)) (execute e user cmd)
  unfolding execute update apply cancel
  execute-Frozen (Modification.add_comment text) = Keeps-comment e user text
  execute-Frozen (Modification.update_change id doc) =
      fresh_change-Frozen id _ (Keeps-update e user id doc)
  execute-Frozen (Modification.apply_change id doc) =
      fresh_change-Frozen id _ (Keeps-apply e user id doc)
  execute-Frozen (Modification.cancel_change id) = fresh_change-Frozen id _ (Keeps-cancel e user id)
  execute-Frozen Modification.cancel_request = Keeps-close e user _ _ _ _
  execute-Frozen Modification.reject_request = Keeps-close e user _ _ _ _
  execute-Frozen Modification.move_back_to_pending = Keeps-reopen e user
  execute-Frozen Modification.approve_request = Keeps-approve e user

  Keeps-authorized : (x : Option Error) → Keeps (Of (Pairs Frozen)) (authorized x)
  unfolding authorized
  Keeps-authorized none = search (step_rules, Frozen-Order)
  Keeps-authorized (some err) = search (step_rules, Frozen-Order)

  pub modification-Frozen :
      (cmd : Modification) (groups : List String) (last_updated : ℕ) (probe : Bool)
      → Keeps
          (Of (Pairs Frozen))
          (parse_and_apply_policy_request_modification e cmd user groups last_updated probe)
  unfolding parse_and_apply_policy_request_modification
  modification-Frozen cmd groups last_updated probe =
      search
        (
          step_rules, Frozen-Order, Keeps-authorized, execute-Frozen,
          Keeps-maybe_approve_reject_request,
        )
        depth 20

-- Whatever the command, whoever gives it, and however it ends, the changes of the request stay in their
-- places with their ids, and a change that was applied before is exactly as it was.
pub applied_changes-Preserved :
    (e : Env) (cmd : Modification) (user : String) (groups : List String) (last_updated : ℕ)
    (probe : Bool) (s : State)
    → let (r, t) =
        parse_and_apply_policy_request_modification e cmd user groups last_updated probe s in
      Pairs Preserved s.request.changes t.request.changes
applied_changes-Preserved e cmd user groups last_updated probe s =
    all-Preserved s.request.changes _
      ((modification-Frozen e user cmd groups last_updated probe).keeps s)
