-- ===== src/Requests/Closed/Life.antt =====
-- A request of which something is applied is not lost: what the commands do to its status, one after the other.
use consoleme.Base.{ℕ, String, arith, ◌≡◌, refl, inl, inr, Bool, true, false, not, ◌||◌, List}
use consoleme.Models.{RequestStatus, Request, Modification}
use consoleme.Requests.World.{Env}
use consoleme.Requests.Flow.{State, M, gets, edit, ◌>>=◌, update_dynamo_with_change}
use consoleme.Requests.Keeps.{Laws, Keeps, Keeps->>=}
use consoleme.Requests.Same.{
  Same, same_rules, Same-edit, Same-update, Same-apply, Same-cancel, Same-populate_all,
  Same-refresh_principal,
}
use consoleme.Requests.Refusal.{is_closed, is_for_closed}
use consoleme.Requests.Complete.{Done, set_status, set_reviewer}
use consoleme.Requests.Modify.{
  comment, update, apply, cancel, approve, reopen, execute,
  parse_and_apply_policy_request_modification,
}
use consoleme.Requests.Closed.Guard.{modification-Admitted, modification-cases}
use consoleme.Requests.Closed.Steps.{
  IsHonoured, status-IsAside, open-IsHonoured, after, maybe_approve-IsHonoured, Same-comment,
  standing-IsHonoured, close-IsHonoured,
}

-- What is not cancelled or rejected does not become so.
StaysOpen : State → State → Type 0
StaysOpen s t =
    is_closed s.request.request_status ≡ false → is_closed t.request.request_status ≡ false

StaysOpen-Laws : Laws StaysOpen
unfolding StaysOpen
StaysOpen-Laws = record { same = λ s h. h; chain = λ s t u f g h. g (f h) }

Same→StaysOpen : (m : M Done) → Keeps (Same (λ r. r.request_status)) m → Keeps StaysOpen m
unfolding StaysOpen
Same→StaysOpen m h = record { keeps = λ s k. rw h.keeps k }

gets-StaysOpen : {A : Type 0} (f : State → A) → Keeps StaysOpen (gets f)
unfolding StaysOpen gets
gets-StaysOpen f = record { keeps = λ s k. k }

module _ (e : Env) (user : String) where
  set_reviewer-status : (r : Request) → (set_reviewer user r).request_status ≡ r.request_status
  unfolding set_reviewer
  set_reviewer-status r = refl

  approved-StaysOpen : Keeps StaysOpen (edit (set_status RequestStatus.approved))
  unfolding StaysOpen edit set_status
  approved-StaysOpen = record { keeps = λ s h. refl }

  approve-StaysOpen : Keeps StaysOpen (approve e user)
  unfolding approve
  approve-StaysOpen =
      search
        (
          Keeps->>=, StaysOpen-Laws, gets-StaysOpen, approved-StaysOpen, Same→StaysOpen, Same-edit,
          set_reviewer-status, Same-populate_all, Same-refresh_principal, status-IsAside,
          same_rules,
        )
        depth 24

  approve-open :
      (s : State)
      → is_closed s.request.request_status ≡ false
      → is_closed (approve e user s).1.request.request_status ≡ false
  unfolding StaysOpen
  approve-open s h = approve-StaysOpen.keeps s h

  reopen-pending : (s : State) → (reopen e user s).1.request.request_status ≡ RequestStatus.pending
  unfolding reopen ◌>>=◌ edit set_status update_dynamo_with_change
  reopen-pending s = refl

  may_go_on : (a b : Bool) → (not a || b) ≡ true → b ≡ false → a ≡ false
  may_go_on a b h k = ground arith

  execute-IsHonoured :
      (cmd : Modification) (s : State)
      → (not (is_closed s.request.request_status) || is_for_closed cmd) ≡ true
      → IsHonoured s.request
      → IsHonoured (execute e user cmd s).1.request
  unfolding execute
  execute-IsHonoured (Modification.add_comment text) s k h =
      standing-IsHonoured e user s.request (comment e user text s).1.request
        ((Same-comment e user text).keeps s) h
  execute-IsHonoured (Modification.update_change id doc) s k h =
      open-IsHonoured (update e user id doc s).1.request
        (rw ((Same-update _ status-IsAside e user id doc).keeps s) (may_go_on _ false k refl))
  execute-IsHonoured (Modification.apply_change id doc) s k h =
      open-IsHonoured (apply e user id doc s).1.request
        (rw ((Same-apply _ status-IsAside e user id doc).keeps s) (may_go_on _ false k refl))
  execute-IsHonoured (Modification.cancel_change id) s k h =
      open-IsHonoured (cancel e user id s).1.request
        (rw ((Same-cancel _ status-IsAside e user id).keeps s) (may_go_on _ false k refl))
  execute-IsHonoured Modification.cancel_request s k h = close-IsHonoured e user _ _ _ _ s h
  execute-IsHonoured Modification.reject_request s k h = close-IsHonoured e user _ _ _ _ s h
  execute-IsHonoured Modification.move_back_to_pending s k h =
      open-IsHonoured (reopen e user s).1.request (rw reopen-pending refl)
  execute-IsHonoured Modification.approve_request s k h =
      open-IsHonoured (approve e user s).1.request (approve-open s (may_go_on _ false k refl))

module _ (e : Env) (cmd : Modification) (user : String) (groups : List String) (last_updated : ℕ)
    (probe : Bool) where
  -- A request of which something is applied is never cancelled or rejected: this holds after every
  -- command, whoever gives it and however it ends, if it held before.
  pub modification-IsHonoured :
      (s : State)
      → IsHonoured s.request
      → let (r, t) =
          parse_and_apply_policy_request_modification e cmd user groups last_updated probe s in
        IsHonoured t.request
  modification-IsHonoured s h = elim (modification-cases e cmd user groups last_updated probe s) [
    | inl same ↦ rw same h
    | inr admitted ↦ rw (modification-Admitted e cmd user groups last_updated probe s admitted) (
        after IsHonoured _ _ s (execute-IsHonoured e user cmd s admitted.1 h)
          (maybe_approve-IsHonoured e user))
  ]
