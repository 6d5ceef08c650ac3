-- ===== src/Requests/Closed/Guard.antt =====
-- What stands in front of the commands: who is not authorized, or asks too much of a closed request, gets an
-- exception and changes nothing.
use consoleme.Base.{
  ℕ, String, arith, ◌≡◌, refl, ◌⊎◌, inl, inr, Bool, true, false, not, ◌||◌, none, some, List,
  Bool-cases, Option-cases,
}
use consoleme.Models.{Request, Modification}
use consoleme.Requests.World.{Env, Error, raised}
use consoleme.Requests.Flow.{State, gets, raise, pure, ◌>>=◌, check}
use consoleme.Requests.Complete.{maybe_approve_reject_request}
use consoleme.Requests.Refusal.{refusal, is_closed, is_for_closed, wrong_status, authorized}
use consoleme.Requests.Modify.{execute, parse_and_apply_policy_request_modification}

module _ (e : Env) (cmd : Modification) (user : String) (groups : List String) (last_updated : ℕ)
    (probe : Bool) where
  -- The request, as it is, may be given the command.
  abbrev pub Admitted : Request → Type 0
  Admitted r =
      (refusal e user groups last_updated probe r cmd ≡ none)
      × ((not (is_closed r.request_status) || is_for_closed cmd) ≡ true)

  -- A user who is refused gets the exception; nothing is changed, written or called.
  pub modification-refused :
      (s : State) (err : Error)
      → refusal e user groups last_updated probe s.request cmd ≡ some err
      → parse_and_apply_policy_request_modification e cmd user groups last_updated probe s
        ≡ (raised err, s)
  unfolding parse_and_apply_policy_request_modification authorized ◌>>=◌ gets raise
  modification-refused s err h = rw h refl

  -- A request that is cancelled or rejected takes comments and may be moved back to pending; any other
  -- command of a user who is not refused raises, and changes, writes and calls nothing.
  pub modification-closed :
      (s : State)
      → refusal e user groups last_updated probe s.request cmd ≡ none
      → is_closed s.request.request_status ≡ true
      → is_for_closed cmd ≡ false
      → parse_and_apply_policy_request_modification e cmd user groups last_updated probe s
        ≡ (raised (wrong_status s.request cmd), s)
  unfolding parse_and_apply_policy_request_modification authorized ◌>>=◌ gets pure check
  modification-closed s h closed asked = rw (h, closed, asked) refl

  pub modification-Admitted :
      (s : State)
      → Admitted s.request
      → parse_and_apply_policy_request_modification e cmd user groups last_updated probe s
        ≡ (execute e user cmd >>= λ _. maybe_approve_reject_request e user) s
  unfolding parse_and_apply_policy_request_modification authorized ◌>>=◌ gets pure check
  modification-Admitted s (h, k) = rw (h, k) refl

  -- Either the command is given, or the state stays as it is.
  pub modification-cases :
      (s : State)
      → ((parse_and_apply_policy_request_modification e cmd user groups last_updated probe s).1 ≡ s)
        ⊎ Admitted s.request
  modification-cases s =
      elim (Option-cases (refusal e user groups last_updated probe s.request cmd)) [
        | inr (err, h) ↦ inl (rw (modification-refused s err h) refl)
        | inl h ↦
            elim (Bool-cases (not (is_closed s.request.request_status) || is_for_closed cmd)) [
              | inl k ↦ inr (h, k)
              | inr k ↦ inl (left_alone s h k)
            ]
      ]
    where
      left_alone :
          (s : State)
          → refusal e user groups last_updated probe s.request cmd ≡ none
          → (not (is_closed s.request.request_status) || is_for_closed cmd) ≡ false
          → (parse_and_apply_policy_request_modification e cmd user groups last_updated probe s).1
            ≡ s
      left_alone s h k = rw (modification-closed s h (ground arith) (ground arith)) refl
