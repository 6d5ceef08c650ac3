-- ===== src/Requests/Closed/Settled.antt =====
-- A request that is approved, and of which something is applied, stays so.
use consoleme.Base.{
  ℕ, String, arith, ◌≡◌, refl, ◌∙◌, ap, ◌≢◌, inl, inr, Bool, true, none, List, [], ◌∷◌, Bool-cases,
}
use consoleme.Policies.{can_move_back_to_pending_v2}
use consoleme.Models.{RequestStatus, is_applied, Change, Request, Modification}
use consoleme.Requests.World.{Env, Work}
use consoleme.Requests.Flow.{State, gets, ◌>>=◌, check}
use consoleme.Requests.Pairs.{
  Pairs, Preserved, all-Preserved, Frozen, Pairs-refl, Pairs-trans, Frozen-refl, Frozen-trans,
}
use consoleme.Requests.Frozen.Commands.{execute-Frozen, modification-Frozen}
use consoleme.Requests.Select.{any_applied}
use consoleme.Requests.Same.{Same-update, Same-apply, Same-cancel}
use consoleme.Requests.Refusal.{refusal, unless}
use consoleme.Requests.Complete.{maybe_approve_reject_request}
use consoleme.Requests.Modify.{close, approve, execute, parse_and_apply_policy_request_modification}
use consoleme.Requests.Closed.Guard.{modification-Admitted, modification-cases}
use consoleme.Requests.Closed.Status.{
  maybe_approve_reject_request-standing, settled_status-approved,
}
use consoleme.Requests.Closed.Life.{modification-IsHonoured}
use consoleme.Requests.Closed.Steps.{IsHonoured, status-IsAside, after, Same-comment}

-- The end of most requests.
abbrev pub IsDone : Request → Type 0
IsDone r = (r.request_status ≡ RequestStatus.approved) × (any_applied r.changes ≡ true)

any_applied-Frozen :
    (cs ds : List Change) → Pairs Frozen cs ds → any_applied cs ≡ true → any_applied ds ≡ true
unfolding any_applied
any_applied-Frozen [] ds h p = cc
any_applied-Frozen (c ∷ cs) [] h p = elim h [ ]
any_applied-Frozen (c ∷ cs) (d ∷ ds) (h, hs) p = elim (Bool-cases (is_applied c.status)) [
  | inl applied_before ↦ rw (h.1 applied_before, applied_before) refl
  | inr not_before ↦ ground (arith, any_applied-Frozen cs ds hs (rw not_before at p))
]

module _ (e : Env) (user : String) where
  maybe_approve-IsDone :
      (t : State) → IsDone t.request → IsDone (maybe_approve_reject_request e user t).1.request
  maybe_approve-IsDone t (h, k) =
      let both = maybe_approve_reject_request-standing e user t in
      (
        rw (ap (λ x. x.0) both) (settled_status-approved t.request.changes _ k h),
        rw (ap (λ x. x.1) both) k,
      )

  not_moved_back :
      (groups : List String) (last_updated : ℕ) (probe : Bool) (r : Request)
      → r.request_status ≡ RequestStatus.approved
      → refusal e user groups last_updated probe r Modification.move_back_to_pending ≢ none
  unfolding refusal unless can_move_back_to_pending_v2
  not_moved_back groups last_updated probe r h k = cc (rw h at k)

  execute-approved :
      (cmd : Modification) (groups : List String) (last_updated : ℕ) (probe : Bool) (s : State)
      → refusal e user groups last_updated probe s.request cmd ≡ none
      → s.request.request_status ≡ RequestStatus.approved
      → (execute e user cmd s).1.request.request_status ≡ RequestStatus.approved
  unfolding execute close approve ◌>>=◌ gets check
  execute-approved (Modification.add_comment text) groups last_updated probe s k h =
      ap (λ x. x.0) ((Same-comment e user text).keeps s) ∙ h
  execute-approved (Modification.update_change id doc) groups last_updated probe s k h =
      (Same-update _ status-IsAside e user id doc).keeps s ∙ h
  execute-approved (Modification.apply_change id doc) groups last_updated probe s k h =
      (Same-apply _ status-IsAside e user id doc).keeps s ∙ h
  execute-approved (Modification.cancel_change id) groups last_updated probe s k h =
      (Same-cancel _ status-IsAside e user id).keeps s ∙ h
  execute-approved Modification.cancel_request groups last_updated probe s k h = rw h refl
  execute-approved Modification.reject_request groups last_updated probe s k h = rw h refl
  execute-approved Modification.move_back_to_pending groups last_updated probe s k h =
      elim (not_moved_back groups last_updated probe s.request h k) [ ]
  execute-approved Modification.approve_request groups last_updated probe s k h = rw h refl

module _ (e : Env) (cmd : Modification) (user : String) (groups : List String) (last_updated : ℕ)
    (probe : Bool) where
  pub modification-IsDone :
      (s : State)
      → IsDone s.request
      → let (r, t) =
          parse_and_apply_policy_request_modification e cmd user groups last_updated probe s in
        IsDone t.request
  modification-IsDone s h = elim (modification-cases e cmd user groups last_updated probe s) [
    | inl same ↦ rw same h
    | inr admitted ↦ rw (modification-Admitted e cmd user groups last_updated probe s admitted) (
        after IsDone _ _ s
          (
            execute-approved e user cmd groups last_updated probe s admitted.0 h.0,
            any_applied-Frozen s.request.changes _ ((execute-Frozen e user cmd).keeps s) h.1,
          )
          (maybe_approve-IsDone e user))
  ]

-- The requests that some sequence of commands makes of this one. Each command comes from its own user,
-- at its own time, with a response and a world of its own.
pub data Becomes (r : Request) : Request → Type 0 where
  unchanged : Becomes r r
  then_command :
      {q : Request}
      → Becomes r q
      → (e : Env) (cmd : Modification) (user : String) (groups : List String) (last_updated : ℕ)
        (probe : Bool) (w : Work)
      → Becomes r
          (parse_and_apply_policy_request_modification e cmd user groups last_updated probe
            (record { request = q; work = w })).1.request

Becomes-Frozen : (r q : Request) → Becomes r q → Pairs Frozen r.changes q.changes
Becomes-Frozen r _ unchanged = Pairs-refl Frozen Frozen-refl r.changes
Becomes-Frozen r _ (then_command {q = q} b e cmd user groups last_updated probe w) =
    Pairs-trans Frozen Frozen-trans r.changes q.changes _ (Becomes-Frozen r q b) (
      (modification-Frozen e user cmd groups last_updated probe).keeps
        (record { request = q; work = w }))

Becomes-approved : (r q : Request) → IsDone r → Becomes r q → IsDone q
Becomes-approved r _ h unchanged = h
Becomes-approved r _ h (then_command {q = q} b e cmd user groups last_updated probe w) =
    modification-IsDone e cmd user groups last_updated probe (record { request = q; work = w })
      (Becomes-approved r q h b)

pub Becomes-Preserved : (r q : Request) → Becomes r q → Pairs Preserved r.changes q.changes
Becomes-Preserved r q b = all-Preserved r.changes q.changes (Becomes-Frozen r q b)

-- Once a request is approved and one of its changes is applied, it is approved for good, whatever commands
-- follow and however they end; and what was applied then is for ever as it was.
pub Becomes-IsDone :
    (r q : Request) → IsDone r → Becomes r q → IsDone q × Pairs Preserved r.changes q.changes
Becomes-IsDone r q h b = (Becomes-approved r q h b, Becomes-Preserved r q b)

-- A request that is not both cancelled or rejected and in part applied never becomes so, whatever commands
-- follow and however they end.
pub Becomes-IsHonoured : (r q : Request) → IsHonoured r → Becomes r q → IsHonoured q
Becomes-IsHonoured r _ h unchanged = h
Becomes-IsHonoured r _ h (then_command {q = q} b e cmd user groups last_updated probe w) =
    modification-IsHonoured e cmd user groups last_updated probe (record { request = q; work = w })
      (Becomes-IsHonoured r q h b)
