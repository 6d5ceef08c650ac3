-- ===== src/Requests/Modify.antt =====
-- `parse_and_apply_policy_request_modification`: the commands of a policy request.
use consoleme.Base.{
  ℕ, String, Bool, true, false, not, ◌||◌, Option, none, some, List, [], ◌∷◌, ◌++◌, str_eq, fstring,
  if◌then◌else◌,
}
use consoleme.Json.{Json, truthy}
use consoleme.Models.{
  RequestStatus, Status, Detail, Change, is_applied, is_not_applied, Comment, Request, Modification,
}
use consoleme.Requests.World.{
  send_status_update, send_new_comment, Env, Error, invalid_request_parameter, no_matching_request,
  Result, ok, fail,
}
use consoleme.Requests.Select.{
  get_specific_change, set_document, has_document, is_resource_policy, any_applied,
}
use consoleme.Requests.Flow.{
  M, pure, raise, gets, lift, ◌>>=◌, ◌>>◌, edit, note, call, update_dynamo_with_change, check,
}
use consoleme.Requests.Complete.{
  with_detail, Done, edit_change, set_status, set_reviewer, maybe_approve_reject_request,
}
use consoleme.Requests.Branches.{populate_all, refresh_principal, dispatch}
use consoleme.Requests.Refusal.{
  status_value, refusal, is_closed, is_for_closed, is_open, wrong_status, authorized,
}

abbrev pub no_match : Error
no_match =
    no_matching_request
      "Unable to find a compatible non-applied change with that ID in this policy request"

-- A change that may still be worked on.
unfoldable pub if_fresh : Option Change → M Change
if_fresh none = raise no_match
if_fresh (some c) = if is_not_applied c.status then pure c else raise no_match

unfoldable pub fresh_change : String → M Change
fresh_change id = do found ← gets (λ s. get_specific_change id s.request.changes); if_fresh found

module _ (e : Env) (user : String) where
  unfoldable pub comment_of : String → Comment
  comment_of text = record {
    id = e.new_id;
    timestamp = e.now;
    user_email = user;
    last_modified = e.now;
    text = text;
  }

  unfoldable pub add : String → Request → Request
  unfolding comment_of
  add text r = record r { comments = r.comments ++ comment_of text ∷ [] }

  unfoldable pub comment : String → M Done
  comment text = do
    edit (add text)
    update_dynamo_with_change e "Successfully added comment" "Error occurred adding comment" true
    call e (λ r. send_new_comment r user (
        if str_eq user r.requester_email
        then e.config.fallback_reviewers
        else r.requester_email ∷ []))

  -- `updated_by`, and for a resource policy no longer generated.
  unfoldable pub edited : Detail → Change → Change
  edited d c = record c {
    detail = d;
    autogenerated = if is_resource_policy d then false else c.autogenerated;
    updated_by = some user;
  }

  -- `change.updated_by = user`
  unfoldable pub touched : Change → Change
  touched c = record c { updated_by = some user }

  unfoldable pub called_off : Change → Change
  called_off c = record c { status = Status.cancelled; updated_by = some user }

  unfoldable pub update : String → Json → M Done
  update id doc = do
    c ← fresh_change id
    check (has_document c.detail) no_match
    d ← lift (set_document doc c.detail)
    edit_change id (edited d)
    update_dynamo_with_change e "Successfully updated policy document"
        "Error occurred updating policy document" true

  unfoldable pub persist_applied : String → Option Change → M Done
  persist_applied id none = pure tt
  persist_applied id (some c) =
      if is_applied c.status
      then (do
        edit_change id touched
        update_dynamo_with_change e "Successfully updated change in dynamo"
            "Error updating change in dynamo" false)
      else pure tt

  unfoldable pub given_document : Option Json → Detail → Result Detail
  given_document none d = ok d
  given_document (some doc) d = if truthy doc then set_document doc d else ok d

  unfoldable pub apply : String → Option Json → M Done
  apply id doc = do
    c ← fresh_change id
    d ← lift (given_document doc c.detail)
    edit_change id (with_detail d)
    dispatch e id c.principal d
    found ← gets (λ s. get_specific_change id s.request.changes)
    persist_applied id found

  unfoldable pub cancel : String → M Done
  cancel id = do
    fresh_change id
    edit_change id called_off
    update_dynamo_with_change e "Successfully updated change in dynamo"
        "Error updating change in dynamo" false

  unfoldable pub close_as : RequestStatus → (success_message error_message : String) → M Done
  close_as status success_message error_message = do
    edit (set_status status)
    edit (set_reviewer user)
    update_dynamo_with_change e success_message error_message true
    call e send_status_update

  -- `cancel_request` and `reject_request`: a request of which something is applied is only settled.
  unfoldable pub close :
      (verb : String) → RequestStatus → (success_message error_message : String) → M Done
  close verb status success_message error_message = do
    r ← gets (λ s. s.request)
    check (is_open r.request_status) (
        invalid_request_parameter (
          fstring (
            "Request cannot be "
            ∷ verb
            ∷ " as it's status is "
            ∷ status_value r.request_status
            ∷ [])))
    if any_applied r.changes
        then note (
            fail (
              fstring (
                "Request cannot be " ∷ verb
                ∷ " because at least one change has been applied already. Please apply or cancel the other changes."
                ∷ [])))
        else close_as status success_message error_message

  unfoldable pub approve : M Done
  approve = do
    r ← gets (λ s. s.request)
    check (is_open r.request_status) (
        invalid_request_parameter (
          fstring
            ("Request cannot be approved as it's status is " ∷ status_value r.request_status ∷ [])))
    populate_all e
    edit (set_status RequestStatus.approved)
    edit (set_reviewer user)
    update_dynamo_with_change e "Successfully updated request status"
        "Error updating request in dynamo" false
    call e send_status_update
    refresh_principal e

  unfoldable pub reopen : M Done
  reopen = do
    edit (set_status RequestStatus.pending)
    update_dynamo_with_change e "Successfully moved request back to pending"
        "Error moving request back to pending" true

  unfoldable pub execute : Modification → M Done
  execute (Modification.add_comment text) = comment text
  execute (Modification.update_change id doc) = update id doc
  execute (Modification.apply_change id doc) = apply id doc
  execute (Modification.cancel_change id) = cancel id
  execute Modification.cancel_request =
      close "cancelled" RequestStatus.cancelled "Successfully cancelled request"
        "Error cancelling request"
  execute Modification.reject_request =
      close "rejected" RequestStatus.rejected "Successfully rejected request"
        "Error rejected request"
  execute Modification.move_back_to_pending = reopen
  execute Modification.approve_request = approve

unfoldable pub parse_and_apply_policy_request_modification :
    Env
    → Modification
    → (user : String) → (user_groups : List String) → (last_updated : ℕ)
    → (approval_probe_approved : Bool) → M Done
parse_and_apply_policy_request_modification e cmd user groups last_updated probe = do
  r ← gets (λ s. s.request)
  authorized (refusal e user groups last_updated probe r cmd)
  check (not (is_closed r.request_status) || is_for_closed cmd) (wrong_status r cmd)
  execute e user cmd
  maybe_approve_reject_request e user
