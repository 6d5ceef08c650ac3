-- ===== src/Requests/Complete.antt =====
-- `maybe_approve_reject_request`: what the changes settle about their request.
use consoleme.Base.{String, false, Option, none, some, starts_with, if◌then◌else◌}
use consoleme.Aws.{get_resource_account}
use consoleme.Models.{RequestStatus, Detail, Change, Request}
use consoleme.Requests.World.{fetch_iam_role, send_status_update, Env}
use consoleme.Requests.Select.{update_specific, settled_status}
use consoleme.Requests.Flow.{
  M, pure, gets, lift, ◌>>=◌, ◌>>◌, edit, call, arn_of, update_dynamo_with_change,
}

abbrev pub Done : Type 0
Done = Unit {0}

unfoldable pub set_status : RequestStatus → Request → Request
set_status status r = record r { request_status = status }

unfoldable pub set_reviewer : String → Request → Request
set_reviewer user r = record r { reviewer = some user }

unfoldable pub with_detail : Detail → Change → Change
with_detail d c = record c { detail = d }

unfoldable pub edit_change : String → (Change → Change) → M Done
edit_change id f = edit (λ r. record r { changes = update_specific id f r.changes })

module _ (e : Env) (user : String) where
  -- The prefix is the source's; no arn begins so.
  unfoldable pub refresh_role : Request → M Done
  refresh_role r = do
    arn ← lift (arn_of r.principal)
    if starts_with arn "aws:aws:iam::"
        then call e (λ _. fetch_iam_role (get_resource_account e.lookups arn) arn)
        else pure tt

  unfoldable pub announce : M Done
  announce = do
    edit (set_reviewer user)
    update_dynamo_with_change e "Successfully updated request status"
        "Error updating request in dynamo" false
    call e send_status_update
    r ← gets (λ s. s.request)
    refresh_role r

  unfoldable pub announce_status : RequestStatus → M Done
  announce_status status = do edit (set_status status); announce

  unfoldable pub announce_settled : Option RequestStatus → M Done
  announce_settled none = pure tt
  announce_settled (some status) = announce_status status

  unfoldable pub maybe_approve_reject_request : M Done
  maybe_approve_reject_request = do
    settled ← gets (λ s. settled_status s.request.changes)
    announce_settled settled
