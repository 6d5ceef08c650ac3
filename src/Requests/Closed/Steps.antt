-- ===== src/Requests/Closed/Steps.antt =====
-- What single commands, and the end of all of them, do to the status of a request.
use consoleme.Base.{String, ◌≡◌, refl, ap, ◌⊎◌, inl, inr, false, Bool-cases}
use consoleme.Models.{RequestStatus, Request}
use consoleme.Requests.World.{Env, Result, ok, raised}
use consoleme.Requests.Flow.{State, M, gets, ◌>>=◌, continue, check, note}
use consoleme.Requests.Keeps.{Keeps}
use consoleme.Requests.Select.{any_applied}
use consoleme.Requests.Same.{Same, same_rules, Same-edit, IsAside}
use consoleme.Requests.Refusal.{is_closed, is_open}
use consoleme.Requests.Complete.{Done, set_status, set_reviewer, maybe_approve_reject_request}
use consoleme.Requests.Modify.{comment, add, close_as, close}
use consoleme.Requests.Closed.Status.{
  standing, maybe_approve_reject_request-standing, settled_status-open,
}

-- Of a request that is cancelled or rejected nothing is applied.
abbrev pub IsHonoured : Request → Type 0
IsHonoured r = (any_applied r.changes ≡ false) ⊎ (is_closed r.request_status ≡ false)

pub status-IsAside : IsAside (λ (r : Request). r.request_status)
status-IsAside = record { aside = λ r cs. refl }

pub open-IsHonoured : (r : Request) → is_closed r.request_status ≡ false → IsHonoured r
open-IsHonoured r h = inr h

-- What follows a command, if the command does not raise.
pub after :
    (P : Request → Type 0) (m k : M Done) (s : State)
    → P (m s).1.request
    → ((t : State) → P t.request → P (k t).1.request)
    → P ((m >>= λ _. k) s).1.request
unfolding ◌>>=◌
after P m k s h f = go (m s) h
  where
    go : (p : Result Done × State) → P p.1.request → P (continue p (λ _. k)).1.request
    go (ok _, t) h = f t h
    go (raised err, t) h = h

module _ (e : Env) (user : String) where
  pub maybe_approve-IsHonoured :
      (t : State)
      → IsHonoured t.request
      → IsHonoured (maybe_approve_reject_request e user t).1.request
  maybe_approve-IsHonoured t h =
      let both = maybe_approve_reject_request-standing e user t in
      elim (Bool-cases (any_applied t.request.changes)) [
        | inr none_applied ↦ inl (rw (ap (λ x. x.1) both) none_applied)
        | inl some_applied ↦ inr (
            rw (ap (λ x. x.0) both) (
              settled_status-open t.request.changes t.request.request_status some_applied
                (elim h [ inl n ↦ cc | inr o ↦ o ])))
      ]

  add-standing : (text : String) (r : Request) → standing (add e user text r) ≡ standing r
  unfolding add
  add-standing text r = refl

  pub Same-comment : (text : String) → Keeps (Same standing) (comment e user text)
  unfolding comment
  Same-comment text = search (same_rules, Same-edit, add-standing) depth 20

  pub standing-IsHonoured : (r q : Request) → standing q ≡ standing r → IsHonoured r → IsHonoured q
  standing-IsHonoured r q h k = elim k [
    | inl n ↦ inl (rw (ap (λ x. x.1) h) n)
    | inr o ↦ inr (rw (ap (λ x. x.0) h) o)
  ]

  set_status-changes :
      (status : RequestStatus) (r : Request) → (set_status status r).changes ≡ r.changes
  unfolding set_status
  set_status-changes status r = refl

  set_reviewer-changes : (r : Request) → (set_reviewer user r).changes ≡ r.changes
  unfolding set_reviewer
  set_reviewer-changes r = refl

  Same-close_as :
      (status : RequestStatus) (good bad : String)
      → Keeps (Same (λ r. r.changes)) (close_as e user status good bad)
  unfolding close_as
  Same-close_as status good bad =
      search (same_rules, Same-edit, set_status-changes, set_reviewer-changes) depth 20

  pub close-IsHonoured :
      (verb : String) (status : RequestStatus) (good bad : String) (s : State)
      → IsHonoured s.request
      → IsHonoured (close e user verb status good bad s).1.request
  unfolding close ◌>>=◌ gets check note
  close-IsHonoured verb status good bad s h = elim (Bool-cases (is_open s.request.request_status)) [
    | inr other ↦ rw other h
    | inl open_now ↦ elim (Bool-cases (any_applied s.request.changes)) [
      | inl some_applied ↦ rw (open_now, some_applied) h
      | inr none_applied ↦
          rw (open_now, none_applied)
            (inl (rw ((Same-close_as status good bad).keeps s) none_applied))
    ]
  ]
