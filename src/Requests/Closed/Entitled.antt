-- ===== src/Requests/Closed/Entitled.antt =====
-- Who may give which command to a request, and when, and what happens to all the others.
use consoleme.Base.{
  ℕ, ◌+◌, ◌≤◌, String, ◌≡◌, refl, ◌↔◌, ◌⊎◌, inl, inr, Bool, true, false, Option, none, some, List,
  iff_trans, or_map, and_map, iff_refl, or_true_iff,
}
use consoleme.Config.{Config}
use consoleme.Auth.{is_application_admin, listed, can_admin_policies}
use consoleme.Auth.Rights.{Right, Names, has_iff}
use consoleme.Policies.Access.{can_move_back_to_pending_v2_iff, can_update_cancel_requests_v2_iff}
use consoleme.Models.{RequestStatus, Request, Modification}
use consoleme.Requests.World.{Env, Error, unauthorized, invalid_request_parameter, Result, raised}
use consoleme.Requests.Flow.{State, ◌>>=◌}
use consoleme.Requests.Complete.{Done, maybe_approve_reject_request}
use consoleme.Requests.Refusal.{
  refusal, owner_refusal, manager_refusal, unless, is_closed, is_for_closed, wrong_status,
}
use consoleme.Requests.Modify.{execute, parse_and_apply_policy_request_modification}
use consoleme.Requests.Closed.Guard.{
  modification-refused, modification-closed, modification-Admitted,
}

-- The user is the application administrator or has that group, or is on one of the two lists, or has a group
-- that is: that of the administrators, and that of those who administer policies.
abbrev pub Administers : Config → (user : String) → (groups : List String) → Type 0
Administers c user groups =
    (is_application_admin c.application_admin user groups ≡ true)
    ⊎ (Names user groups (listed c "groups.can_admin" "dynamic_config.groups.can_admin")
        ⊎ Names user groups
            (listed c "groups.can_admin_policies" "dynamic_config.groups.can_admin_policies"))

-- The request is over.
abbrev pub IsOver : RequestStatus → Type 0
IsOver status = (status ≡ RequestStatus.cancelled) ⊎ (status ≡ RequestStatus.rejected)

-- A request that is over still takes the command.
pub data IsTaken : Modification → Type 0 where
  a_comment : {text : String} → IsTaken (Modification.add_comment text)
  a_reopening : IsTaken Modification.move_back_to_pending

module _ (e : Env) (user : String) (groups : List String) (last_updated : ℕ) (probe : Bool) where
  -- Who may give the command. Comments and the cancelling of single changes are open to all; a request that
  -- was over for more than a day is not moved back.
  abbrev pub IsEntitled : Request → Modification → Type 0
  IsEntitled r (Modification.update_change id doc) =
      (user ≡ r.requester_email) ⊎ Administers e.config user groups
  IsEntitled r Modification.cancel_request =
      (user ≡ r.requester_email) ⊎ Administers e.config user groups
  IsEntitled r (Modification.apply_change id doc) =
      Administers e.config user groups ⊎ (probe ≡ true)
  IsEntitled r Modification.approve_request = Administers e.config user groups
  IsEntitled r Modification.reject_request = Administers e.config user groups
  IsEntitled r Modification.move_back_to_pending =
      IsOver r.request_status × ((e.now ≤ last_updated + 86400) × Administers e.config user groups)
  IsEntitled r (Modification.add_comment text) = Unit
  IsEntitled r (Modification.cancel_change id) = Unit

  -- What comes of a command: an exception, with nothing changed, written or called, for who may not give it,
  -- and for what comes too late; else it is run, and the status is settled if it does not raise.
  pub data Guarded (cmd : Modification) (s : State) : Result Done × State → Type 0 where
    refused :
        (message : String)
        → ¬ IsEntitled s.request cmd
        → Guarded cmd s (raised (unauthorized message), s)
    too_late :
        (message : String)
        → IsEntitled s.request cmd
        → IsOver s.request.request_status
        → ¬ IsTaken cmd
        → Guarded cmd s (raised (invalid_request_parameter message), s)
    given :
        IsEntitled s.request cmd
        → (¬ IsOver s.request.request_status) ⊎ IsTaken cmd
        → Guarded cmd s ((execute e user cmd >>= λ _. maybe_approve_reject_request e user) s)

  -- Whether an exception is raised about the user's rights, and who is entitled.
  abbrev Answered : Type 0 → Option Error → Type 0
  Answered P o = ((o ≡ none) × P) ⊎ ((message : String) × (o ≡ some (unauthorized message)) × ¬ P)

  unless-Answered :
      {P : Type 0} (b : Bool) (message : String) → (b ≡ true) ↔ P → Answered P (unless b message)
  unfolding unless
  unless-Answered true message h = inl (refl, h.0 refl)
  unless-Answered false message h = inr (message, refl, λ p. cc (h.1 p))

  administers : (can_admin_policies e.config user groups ≡ true) ↔ Administers e.config user groups
  administers = has_iff Right.admin_policies e.config user groups

  owner-Answered :
      (r : Request)
      → Answered
          ((user ≡ r.requester_email) ⊎ Administers e.config user groups)
          (owner_refusal e user groups r)
  unfolding owner_refusal
  owner-Answered r = unless-Answered _ _ (
      iff_trans (can_update_cancel_requests_v2_iff e.config r.requester_email user groups)
        (or_map iff_refl administers))

  manager-Answered :
      (b : Bool)
      → Answered (Administers e.config user groups ⊎ (b ≡ true)) (manager_refusal e user groups b)
  unfolding manager_refusal
  manager-Answered b = unless-Answered _ _ (
      iff_trans (or_true_iff (can_admin_policies e.config user groups) b)
        (or_map administers iff_refl))

  admin-Answered : Answered (Administers e.config user groups) (manager_refusal e user groups false)
  unfolding manager_refusal
  admin-Answered = unless-Answered _ _ (
      iff_trans (or_true_iff (can_admin_policies e.config user groups) false)
        (λ h. elim h [ inl p ↦ administers.0 p | inr p ↦ cc ], λ h. inl (administers.1 h)))

  refusal-Answered :
      (r : Request) (cmd : Modification)
      → Answered (IsEntitled r cmd) (refusal e user groups last_updated probe r cmd)
  unfolding refusal
  refusal-Answered r (Modification.update_change id doc) = owner-Answered r
  refusal-Answered r Modification.cancel_request = owner-Answered r
  refusal-Answered r (Modification.apply_change id doc) = manager-Answered probe
  refusal-Answered r Modification.approve_request = admin-Answered
  refusal-Answered r Modification.reject_request = admin-Answered
  refusal-Answered r Modification.move_back_to_pending = unless-Answered _ _ (
      iff_trans
        (can_move_back_to_pending_v2_iff e.config e.now r.request_status last_updated user groups)
        (and_map iff_refl (and_map iff_refl administers)))
  refusal-Answered r (Modification.add_comment text) = inl (refl, tt)
  refusal-Answered r (Modification.cancel_change id) = inl (refl, tt)

over :
    (st : RequestStatus)
    → ((is_closed st ≡ true) × IsOver st) ⊎ ((is_closed st ≡ false) × ¬ IsOver st)
over RequestStatus.pending = inr (refl, λ h. elim h [ inl p ↦ cc | inr p ↦ cc ])
over RequestStatus.approved = inr (refl, λ h. elim h [ inl p ↦ cc | inr p ↦ cc ])
over RequestStatus.cancelled = inl (refl, inl refl)
over RequestStatus.rejected = inl (refl, inr refl)

taken :
    (cmd : Modification)
    → ((is_for_closed cmd ≡ true) × IsTaken cmd) ⊎ ((is_for_closed cmd ≡ false) × ¬ IsTaken cmd)
taken (Modification.add_comment text) = inl (refl, a_comment)
taken Modification.move_back_to_pending = inl (refl, a_reopening)
taken (Modification.update_change id doc) = inr (refl, λ h. elim h [ ])
taken (Modification.apply_change id doc) = inr (refl, λ h. elim h [ ])
taken (Modification.cancel_change id) = inr (refl, λ h. elim h [ ])
taken Modification.cancel_request = inr (refl, λ h. elim h [ ])
taken Modification.reject_request = inr (refl, λ h. elim h [ ])
taken Modification.approve_request = inr (refl, λ h. elim h [ ])

module _ (e : Env) (user : String) (groups : List String) (last_updated : ℕ) (probe : Bool) where
  admitted-Guarded :
      (cmd : Modification) (s : State)
      → refusal e user groups last_updated probe s.request cmd ≡ none
      → IsEntitled e user groups last_updated probe s.request cmd
      → Guarded e user groups last_updated probe cmd s
          (parse_and_apply_policy_request_modification e cmd user groups last_updated probe s)
  unfolding wrong_status
  admitted-Guarded cmd s asked entitled = elim (over s.request.request_status) [
    | inr (still_open, not_over) ↦
        rw
          (modification-Admitted e cmd user groups last_updated probe s (asked, rw still_open refl))
          (given entitled (inl not_over))
    | inl (closed, is_over) ↦ elim (taken cmd) [
      | inl (for_closed, is_taken) ↦
          rw
            (modification-Admitted e cmd user groups last_updated probe s
              (asked, rw (closed, for_closed) refl))
            (given entitled (inr is_taken))
      | inr (other, not_taken) ↦
          rw (modification-closed e cmd user groups last_updated probe s asked closed other)
            (too_late _ entitled is_over not_taken)
    ]
  ]

  -- Whatever comes of a command, it is this. A user who may not give it gets `Unauthorized`, and one who may,
  -- but gives a command other than a comment or a move back to pending when the request is cancelled or
  -- rejected, gets `InvalidRequestParameter`; in both cases nothing is changed, written or called. In all
  -- other cases the command is run, and the status is settled if it does not raise.
  pub modification-Guarded :
      (cmd : Modification) (s : State)
      → Guarded e user groups last_updated probe cmd s
          (parse_and_apply_policy_request_modification e cmd user groups last_updated probe s)
  modification-Guarded cmd s =
      elim (refusal-Answered e user groups last_updated probe s.request cmd) [
        | inl (asked, entitled) ↦ admitted-Guarded cmd s asked entitled
        | inr (message, asked, not_entitled) ↦
            rw
              (modification-refused e cmd user groups last_updated probe s (unauthorized message)
                asked)
              (refused message not_entitled)
      ]
