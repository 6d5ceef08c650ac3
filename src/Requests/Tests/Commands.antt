-- ===== src/Requests/Tests/Commands.antt =====
-- Commands on concrete requests.
use consoleme.Base.{◌≡◌, refl, inr, true, false, none, some, [], ◌∷◌}
use consoleme.Auth.{is_in_group, is_application_admin, can_admin_all, can_admin_policies}
use consoleme.Policies.{can_update_cancel_requests_v2}
use consoleme.Models.{RequestStatus, Status, Change, Request, Modification}
use consoleme.Requests.World.{unauthorized, raised}
use consoleme.Requests.Pairs.{Pairs, Preserved}
use consoleme.Requests.Select.{any_applied}
use consoleme.Requests.Refusal.{refusal, owner_refusal, unless, wrong_status}
use consoleme.Requests.Complete.{maybe_approve_reject_request}
use consoleme.Requests.Modify.{parse_and_apply_policy_request_modification}
use consoleme.Requests.Frozen.Commands.{applied_changes-Preserved}
use consoleme.Requests.Closed.Database.{HasEnded}
use consoleme.Requests.Closed.Ended.{modification-cancelled}
use consoleme.Requests.Closed.Guard.{modification-refused, modification-closed}
use consoleme.Requests.Closed.Entitled.{Guarded, modification-Guarded}
use consoleme.Requests.Closed.Settles.{Settles, maybe_approve_reject_request-Settles}
use consoleme.Requests.Closed.Steps.{IsHonoured}
use consoleme.Requests.Closed.Settled.{
  IsDone, Becomes, unchanged, then_command, Becomes-IsDone, Becomes-IsHonoured,
}
use consoleme.Requests.Quiet.{aws_writes, aws_writes-modification}
use consoleme.Requests.Balanced.{errors_in}
use consoleme.Requests.Balanced.Commands.{errors-modification}
use consoleme.Requests.Tests.{
  calm, closed, config, request, attach_change, inline_change, of_request,
}

-- A request of which one change is applied and one is not.
abbrev half_done : Request
half_done =
    request RequestStatus.approved
      (attach_change "a" Status.applied ∷ inline_change "b" Status.not_applied ∷ [])

abbrev open_request : Request
open_request = request RequestStatus.pending (inline_change "b" Status.not_applied ∷ [])

half_done-IsDone : IsDone half_done
unfolding any_applied
half_done-IsDone = (refl, refl)

-- What the request becomes when its second change is cancelled.
abbrev cancelled_second : Request
cancelled_second =
    (parse_and_apply_policy_request_modification calm (Modification.cancel_change "b")
      "ann@example.com" [] 0 false (of_request half_done)).1.request

abbrev cancel_second : Becomes half_done cancelled_second
cancel_second =
    then_command unchanged calm (Modification.cancel_change "b") "ann@example.com" [] 0 false
      (of_request half_done).work

Becomes-IsDone_example :
    IsDone cancelled_second × Pairs Preserved half_done.changes cancelled_second.changes
Becomes-IsDone_example = Becomes-IsDone half_done cancelled_second half_done-IsDone cancel_second

Becomes-IsHonoured_example : IsHonoured cancelled_second
Becomes-IsHonoured_example = Becomes-IsHonoured half_done cancelled_second (inr refl) cancel_second

applied_changes-Preserved_example :
    Pairs Preserved half_done.changes
      (parse_and_apply_policy_request_modification calm
        (Modification.apply_change "b" none)
        "bob@example.com"
        ("policy-admins" ∷ [])
        0
        false
        (of_request half_done)).1.request.changes
applied_changes-Preserved_example =
    applied_changes-Preserved calm (Modification.apply_change "b" none) "bob@example.com"
      ("policy-admins" ∷ []) 0 false (of_request half_done)

stranger_refused :
    refusal calm "eve@example.com" [] 0 false open_request Modification.cancel_request
    ≡ some (unauthorized "You are not authorized to update or cancel changes in this request")
unfolding refusal owner_refusal unless can_update_cancel_requests_v2 can_admin_policies
    can_admin_all is_application_admin is_in_group
stranger_refused = refl

-- Eve may not cancel the request of another user.
modification-Guarded_example :
    Guarded calm "eve@example.com" [] 0 false Modification.cancel_request
      (of_request open_request)
      (parse_and_apply_policy_request_modification calm Modification.cancel_request
        "eve@example.com" [] 0 false
        (of_request open_request))
modification-Guarded_example =
    modification-Guarded calm "eve@example.com" [] 0 false Modification.cancel_request
      (of_request open_request)

stranger_is_told :
    parse_and_apply_policy_request_modification calm Modification.cancel_request "eve@example.com"
      [] 0 false
      (of_request open_request)
    ≡ (
      raised (unauthorized "You are not authorized to update or cancel changes in this request"),
      of_request open_request,
    )
stranger_is_told =
    modification-refused calm Modification.cancel_request "eve@example.com" [] 0 false
      (of_request open_request)
      (unauthorized "You are not authorized to update or cancel changes in this request")
      stranger_refused

abbrev rejected_request : Request
rejected_request = request RequestStatus.rejected (inline_change "b" Status.not_applied ∷ [])

cancel_not_refused :
    refusal calm "eve@example.com" [] 0 false rejected_request (Modification.cancel_change "b")
    ≡ none
unfolding refusal
cancel_not_refused = refl

late_command_is_told :
    parse_and_apply_policy_request_modification calm
      (Modification.cancel_change "b")
      "eve@example.com"
      []
      0
      false
      (of_request rejected_request)
    ≡ (
      raised (wrong_status rejected_request (Modification.cancel_change "b")),
      of_request rejected_request,
    )
late_command_is_told =
    modification-closed calm (Modification.cancel_change "b") "eve@example.com" [] 0 false
      (of_request rejected_request) cancel_not_refused refl refl

aws_writes-modification_example :
    aws_writes
      (parse_and_apply_policy_request_modification calm Modification.approve_request
        "bob@example.com"
        ("policy-admins" ∷ [])
        0
        false
        (of_request open_request)).1.work.calls
    ≡ []
aws_writes-modification_example =
    aws_writes-modification calm Modification.approve_request "bob@example.com"
      ("policy-admins" ∷ []) 0 false (of_request open_request) (λ id doc. λ h. cc)

errors-modification_example :
    let t =
      (parse_and_apply_policy_request_modification closed
        (Modification.apply_change "b" none)
        "bob@example.com"
        ("policy-admins" ∷ [])
        0
        false
        (of_request open_request)).1 in
    t.work.response.errors ≡ errors_in t.work.response.action_results
errors-modification_example =
    errors-modification closed (Modification.apply_change "b" none) "bob@example.com"
      ("policy-admins" ∷ []) 0 false (of_request open_request) refl

maybe_approve_reject_request-Settles_example :
    let r =
      (maybe_approve_reject_request calm "bob@example.com" (of_request half_done)).1.request in
    (r.changes ≡ half_done.changes)
    × Settles half_done.changes RequestStatus.approved r.request_status
maybe_approve_reject_request-Settles_example =
    maybe_approve_reject_request-Settles calm "bob@example.com" (of_request half_done)

abbrev renew : Change → Change
renew c = record c { autogenerated = true }

ann_may_cancel : can_update_cancel_requests_v2 config "ann@example.com" "ann@example.com" [] ≡ true
unfolding can_update_cancel_requests_v2
ann_may_cancel = refl

nothing_applied : any_applied open_request.changes ≡ false
unfolding any_applied
nothing_applied = refl

-- Every call is denied, so the database holds no cancelled request, and an error is counted.
modification-cancelled_example :
    HasEnded closed open_request.changes 1
      (parse_and_apply_policy_request_modification closed Modification.cancel_request
        "ann@example.com" [] 0 false
        (of_request open_request)).1
modification-cancelled_example =
    modification-cancelled closed "ann@example.com" [] 0 false (of_request open_request)
      ann_may_cancel refl nothing_applied
