-- ===== src/Requests/Tests/Runs.antt =====
-- Whole runs of `parse_and_apply_policy_request_modification`.
use consoleme.Base.{◌≡◌, refl, false, none, List, [], ◌∷◌, map}
use consoleme.Models.{RequestStatus, Status, Request, Modification}
use consoleme.Requests.World.{external, ok, raised}
use consoleme.Auth.{
  is_in_group, is_application_admin, can_admin_all, admin_or_in, can_create_roles,
  can_admin_policies, can_delete_iam_principals, can_edit_dynamic_config, restricted_or_in,
  can_edit_attributes, can_modify_members, can_edit_sensitive_attributes,
  can_delete_iam_principals_app, find_sensitive, is_sensitive_attr,
}
use consoleme.Aws.{account_of_bucket, get_resource_account, get_bucket_location_with_fallback}
use consoleme.Policies.{
  invalid_characters_in_text, invalid_characters_in_document, can_update_cancel_requests_v2,
  can_update_requests, can_move_back_to_pending_v2,
}
use consoleme.Base.{split, last, fstring, shown, contains, drop_prefix, remove_from, lower, str_lt}
use consoleme.Requests.World.{succeed, fail, perform, ◌>>◌, pass, report, break_off, when, caught}
use consoleme.Requests.Steps.{
  by_kind, with_document, or_original, with_defaults, same_text, is_rename, apply_inline,
  apply_boundary, apply_managed, apply_assume_role, put_tag, delete_tag, apply_tag,
}
use consoleme.Requests.Role.{
  apply_unsupported, is_skipped, and_then, apply_detail, apply_one, apply_each, is_role_or_user,
  apply_connected, apply_changes_to_arn, apply_to_principal, apply_changes_to_role,
}
use consoleme.Requests.Old.{
  step_each, each, policy_model, find_inline, keep_inline, populate_detail, populate_one,
  populate_found, populate_from, populate_arn, populate_old_policies, is_current, keep_managed,
  populate_managed_one, populate_managed_each, populate_managed_from, populate_old_managed_policies,
}
use consoleme.Requests.Flow.{
  pure, raise, gets, lift, on_changes, ◌>>=◌, edit, note, called, call, arn_of, recorded,
  update_dynamo_with_change, check,
}
use consoleme.Requests.Select.{
  get_specific_change, update_specific, replace_document, set_document, has_document,
  is_resource_policy, is_unsupported_resource, is_pending, any_applied, any_pending, any_cancelled,
  settled_status,
}
use consoleme.Requests.Complete.{
  set_status, set_reviewer, with_detail, edit_change, refresh_role, announce, announce_status,
  announce_settled, maybe_approve_reject_request,
}
use consoleme.Requests.Branches.{
  populate_all, refresh_principal, through_role, mark, through_resource, retagged, through_tag,
  through_managed, dispatch,
}
use consoleme.Requests.Refusal.{
  command_value, status_value, unless, owner_refusal, manager_refusal, refusal, wrong_status,
  authorized,
}
use consoleme.Requests.Modify.{
  if_fresh, fresh_change, comment_of, add, comment, edited, touched, called_off, update,
  persist_applied, given_document, apply, cancel, close_as, close, approve, reopen, execute,
  parse_and_apply_policy_request_modification,
}
use consoleme.Requests.Tests.{
  calm, closed, denied, request, attach_change, inline_change, of_request,
}

abbrev statuses : Request → List Status
statuses r = map (λ c. c.status) r.changes

abbrev two : Request
two =
    request RequestStatus.pending
      (attach_change "a" Status.not_applied ∷ inline_change "b" Status.not_applied ∷ [])

abbrev one_left : Request
one_left =
    request RequestStatus.pending
      (attach_change "a" Status.cancelled ∷ inline_change "b" Status.not_applied ∷ [])

-- An administrator applies the first of two changes: the request stays open.
abbrev FirstApplied : Type 0
FirstApplied =
    let (r, t) =
      parse_and_apply_policy_request_modification calm (Modification.apply_change "a" none)
        "bob@example.com" ("policy-admins" ∷ []) 0 false (of_request two) in
    (r ≡ ok tt)
    × (statuses t.request ≡ Status.applied ∷ Status.not_applied ∷ [])
    × (t.request.request_status ≡ RequestStatus.pending)
    × (t.work.response.errors ≡ 0)

-- A user who has no rights cancels the last change of a request, which is cancelled with it.
abbrev StrangerCancels : Type 0
StrangerCancels =
    let (r, t) =
      parse_and_apply_policy_request_modification calm (Modification.cancel_change "b")
        "eve@example.com" [] 0 false (of_request one_left) in
    (r ≡ ok tt)
    × (statuses t.request ≡ Status.cancelled ∷ Status.cancelled ∷ [])
    × (t.request.request_status ≡ RequestStatus.cancelled)

-- With every call denied nothing is applied, and the exception of the first call that is in no `try` gets out.
abbrev AllDenied : Type 0
AllDenied =
    let (r, t) =
      parse_and_apply_policy_request_modification closed (Modification.apply_change "a" none)
        "bob@example.com" ("policy-admins" ∷ []) 0 false (of_request two) in
    (r ≡ raised (external denied))
    × (statuses t.request ≡ Status.not_applied ∷ Status.not_applied ∷ [])

runs : FirstApplied × StrangerCancels × AllDenied
unfolding is_in_group is_application_admin can_admin_all admin_or_in can_create_roles
    can_admin_policies can_delete_iam_principals can_edit_dynamic_config restricted_or_in
    can_edit_attributes can_modify_members can_edit_sensitive_attributes
    can_delete_iam_principals_app find_sensitive is_sensitive_attr account_of_bucket
    get_resource_account get_bucket_location_with_fallback invalid_characters_in_text
    invalid_characters_in_document can_update_cancel_requests_v2 can_update_requests
    can_move_back_to_pending_v2 fstring shown contains split last drop_prefix remove_from lower
    str_lt succeed fail perform ◌>>◌ pass report break_off when caught by_kind with_document
    or_original with_defaults same_text is_rename apply_inline apply_boundary apply_managed
    apply_assume_role put_tag delete_tag apply_tag apply_unsupported is_skipped and_then
    apply_detail apply_one apply_each is_role_or_user apply_connected apply_changes_to_arn
    apply_to_principal apply_changes_to_role step_each each policy_model find_inline keep_inline
    populate_detail populate_one populate_found populate_from populate_arn populate_old_policies
    is_current keep_managed populate_managed_one populate_managed_each populate_managed_from
    populate_old_managed_policies pure raise gets lift on_changes ◌>>=◌ edit note called call arn_of
    recorded update_dynamo_with_change check get_specific_change update_specific replace_document
    set_document has_document is_resource_policy is_unsupported_resource is_pending any_applied
    any_pending any_cancelled settled_status set_status set_reviewer with_detail edit_change
    refresh_role announce announce_status announce_settled maybe_approve_reject_request populate_all
    refresh_principal through_role mark through_resource retagged through_tag through_managed
    dispatch command_value status_value unless owner_refusal manager_refusal refusal wrong_status
    authorized if_fresh fresh_change comment_of add comment edited touched called_off update
    persist_applied given_document apply cancel close_as close approve reopen execute
    parse_and_apply_policy_request_modification
runs = ((refl, refl, refl, refl), (refl, refl, refl), (refl, refl))
