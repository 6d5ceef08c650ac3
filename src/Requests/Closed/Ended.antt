-- ===== src/Requests/Closed/Ended.antt =====
-- That a request can be ended: `cancel_request` of a pending request of which nothing is applied.
use consoleme.Base.{ℕ, ◌+◌, arith, String, ◌≡◌, refl, inr, Bool, true, false, List}
use consoleme.Policies.{can_update_cancel_requests_v2}
use consoleme.Models.{RequestStatus, Change, cancel_request}
use consoleme.Requests.World.{Env, Result, ok, raised}
use consoleme.Requests.Flow.{
  State, gets, pure, check, edit, note, call, update_dynamo_with_change, ◌>>=◌, continue,
}
use consoleme.Requests.Select.{any_applied}
use consoleme.Requests.Refusal.{refusal, owner_refusal, unless, is_open, is_closed}
use consoleme.Requests.Complete.{Done, set_status, set_reviewer, maybe_approve_reject_request}
use consoleme.Requests.Modify.{
  close, close_as, execute, parse_and_apply_policy_request_modification,
}
use consoleme.Requests.Closed.Guard.{modification-Admitted}
use consoleme.Requests.Closed.Database.{
  HasEnded, Steady-told, dynamo-HasEnded, maybe_approve_reject_request-HasEnded,
}

module _ (e : Env) (user : String) where
  close_as-HasEnded :
      (status : RequestStatus) (good bad : String) (s : State)
      → status ≡ RequestStatus.cancelled
      → HasEnded e s.request.changes
          (s.work.response.errors + 1)
          (close_as e user status good bad s).1
  unfolding close_as edit set_status set_reviewer ◌>>=◌ call update_dynamo_with_change
  close_as-HasEnded status good bad s h =
      (Steady-told e s.request.changes (s.work.response.errors + 1)).keeps _ (
        dynamo-HasEnded e s.request.changes (s.work.response.errors + 1) good bad true _ (rw h refl)
          (inr (omega arith)))

  close-HasEnded :
      (good bad : String) (s : State)
      → is_open s.request.request_status ≡ true
      → any_applied s.request.changes ≡ false
      → HasEnded e s.request.changes
          (s.work.response.errors + 1)
          (close e user "cancelled" RequestStatus.cancelled good bad s).1
  unfolding close ◌>>=◌ gets check note pure
  close-HasEnded good bad s h k =
      rw (h, k) (close_as-HasEnded RequestStatus.cancelled good bad s refl)

  and_settled :
      (cs : List Change) (n : ℕ) (q : Result Done × State)
      → any_applied cs ≡ false
      → HasEnded e cs n q.1
      → HasEnded e cs n (continue q (λ _. maybe_approve_reject_request e user)).1
  and_settled cs n (raised err, s) h k = k
  and_settled cs n (ok x, s) h k = maybe_approve_reject_request-HasEnded e cs n user s h k

  is_open-closed : (status : RequestStatus) → is_open status ≡ true → is_closed status ≡ false
  is_open-closed RequestStatus.pending h = refl
  is_open-closed RequestStatus.cancelled h = cc
  is_open-closed RequestStatus.approved h = cc
  is_open-closed RequestStatus.rejected h = cc

  -- Whoever may cancel a request can end it while it is pending and nothing of it is applied: whichever calls
  -- raise, the request in memory is cancelled then, with its changes as before, and so is the one that the
  -- database holds, unless the response counts at least one error more.
  pub modification-cancelled :
      (groups : List String) (last_updated : ℕ) (probe : Bool) (s : State)
      → can_update_cancel_requests_v2 e.config s.request.requester_email user groups ≡ true
      → is_open s.request.request_status ≡ true
      → any_applied s.request.changes ≡ false
      → HasEnded e s.request.changes
          (s.work.response.errors + 1)
          (parse_and_apply_policy_request_modification e cancel_request user groups last_updated
            probe s).1
  unfolding execute ◌>>=◌ refusal owner_refusal unless
  modification-cancelled groups last_updated probe s may open_now nothing =
      let admitted =
        modification-Admitted e cancel_request user groups last_updated probe s
          (rw may refl, rw (is_open-closed s.request.request_status open_now) refl) in
      rw admitted (
        and_settled s.request.changes (s.work.response.errors + 1)
          (close e user "cancelled" RequestStatus.cancelled "Successfully cancelled request"
            "Error cancelling request" s)
          nothing (close-HasEnded _ _ s open_now nothing))
