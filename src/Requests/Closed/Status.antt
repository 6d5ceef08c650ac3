-- ===== src/Requests/Closed/Status.antt =====
-- What the changes settle about the status, and what each command does to it.
use consoleme.Base.{String, ◌≡◌, refl, inl, inr, true, false, Option, none, some, List, Bool-cases}
use consoleme.Models.{RequestStatus, Change, Request}
use consoleme.Requests.World.{Env}
use consoleme.Requests.Flow.{State, gets, pure, edit, ◌>>=◌}
use consoleme.Requests.Keeps.{Keeps}
use consoleme.Requests.Select.{any_applied, any_pending, settled_status}
use consoleme.Requests.Same.{Same, same_rules, Same-edit}
use consoleme.Requests.Refusal.{is_closed}
use consoleme.Requests.Complete.{
  set_status, set_reviewer, refresh_role, announce, announce_status, announce_settled,
  maybe_approve_reject_request,
}

-- What a request is told to be, and the changes that it holds.
abbrev pub standing : Request → RequestStatus × List Change
standing r = (r.request_status, r.changes)

abbrev pub or_current : Option RequestStatus → RequestStatus → RequestStatus
or_current none current = current
or_current (some status) current = status

pub set_reviewer-standing :
    (user : String) (r : Request) → standing (set_reviewer user r) ≡ standing r
unfolding set_reviewer
set_reviewer-standing user r = refl

module _ (e : Env) (user : String) where
  Same-refresh_role : (r : Request) → Keeps (Same standing) (refresh_role e user r)
  unfolding refresh_role
  Same-refresh_role r = search same_rules depth 12

  Same-announce : Keeps (Same standing) (announce e user)
  unfolding announce
  Same-announce = search (same_rules, Same-edit, set_reviewer-standing, Same-refresh_role) depth 20

  announce_settled-standing :
      (settled : Option RequestStatus) (s : State)
      → standing (announce_settled e user settled s).1.request
        ≡ (or_current settled s.request.request_status, s.request.changes)
  unfolding announce_settled announce_status pure edit set_status ◌>>=◌
  announce_settled-standing none s = refl
  announce_settled-standing (some status) s = Same-announce.keeps _

  -- After a command, the status is the one that the changes settle, if they settle one, whether or not
  -- the mail about it, or a later step, raises. The changes are left as they are.
  pub maybe_approve_reject_request-standing :
      (s : State)
      → standing (maybe_approve_reject_request e user s).1.request ≡ (
        or_current (settled_status s.request.changes) s.request.request_status,
        s.request.changes,
      )
  unfolding maybe_approve_reject_request ◌>>=◌ gets
  maybe_approve_reject_request-standing s =
      announce_settled-standing (settled_status s.request.changes) s

pub settled_status-open :
    (cs : List Change) (st : RequestStatus)
    → any_applied cs ≡ true
    → is_closed st ≡ false
    → is_closed (or_current (settled_status cs) st) ≡ false
unfolding settled_status
settled_status-open cs st h k = elim (Bool-cases (any_pending cs)) [
  | inl p ↦ rw p k
  | inr p ↦ rw (p, h) refl
]

pub settled_status-approved :
    (cs : List Change) (st : RequestStatus)
    → any_applied cs ≡ true
    → st ≡ RequestStatus.approved
    → or_current (settled_status cs) st ≡ RequestStatus.approved
unfolding settled_status
settled_status-approved cs st h k = elim (Bool-cases (any_pending cs)) [
  | inl p ↦ rw p k
  | inr p ↦ rw (p, h) refl
]
