-- ===== src/Requests/Refusal.antt =====
-- What `parse_and_apply_policy_request_modification` checks before it runs a command: the rights of the
-- user, and the status of the request.
use consoleme.Base.{ℕ, String, Bool, true, false, ◌||◌, Option, none, some, List, [], ◌∷◌, fstring}
use consoleme.Auth.{can_admin_policies}
use consoleme.Policies.{can_update_cancel_requests_v2, can_move_back_to_pending_v2}
use consoleme.Models.{RequestStatus, Request, Modification}
use consoleme.Requests.World.{Env, Error, unauthorized, invalid_request_parameter}
use consoleme.Requests.Flow.{M, pure, raise}

-- `command.value`, `request_status.value`
unfoldable pub command_value : Modification → String
command_value (Modification.add_comment _) = "add_comment"
command_value (Modification.update_change _ _) = "update_change"
command_value (Modification.apply_change _ _) = "apply_change"
command_value (Modification.cancel_change _) = "cancel_change"
command_value Modification.cancel_request = "cancel_request"
command_value Modification.reject_request = "reject_request"
command_value Modification.move_back_to_pending = "move_back_to_pending"
command_value Modification.approve_request = "approve_request"

unfoldable pub status_value : RequestStatus → String
status_value RequestStatus.pending = "pending"
status_value RequestStatus.cancelled = "cancelled"
status_value RequestStatus.approved = "approved"
status_value RequestStatus.rejected = "rejected"

-- `Unauthorized` with this message, unless the test holds.
unfoldable pub unless : Bool → String → Option Error
unless true message = none
unless false message = some (unauthorized message)

module _ (e : Env) (user : String) (groups : List String) where
  unfoldable pub owner_refusal : Request → Option Error
  unfolding unless
  owner_refusal r =
      unless (can_update_cancel_requests_v2 e.config r.requester_email user groups)
        "You are not authorized to update or cancel changes in this request"

  unfoldable pub manager_refusal : Bool → Option Error
  unfolding unless
  manager_refusal auto_approved =
      unless (can_admin_policies e.config user groups || auto_approved)
        "You are not authorized to manage this request"

  -- May this user give this command? `cancel_change` and `add_comment` are not asked about.
  unfoldable pub refusal :
      (last_updated : ℕ) → (approval_probe_approved : Bool) → Request → Modification → Option Error
  unfolding owner_refusal manager_refusal
  refusal last_updated probe r (Modification.update_change _ _) = owner_refusal r
  refusal last_updated probe r Modification.cancel_request = owner_refusal r
  refusal last_updated probe r (Modification.apply_change _ _) = manager_refusal probe
  refusal last_updated probe r Modification.approve_request = manager_refusal false
  refusal last_updated probe r Modification.reject_request = manager_refusal false
  refusal last_updated probe r Modification.move_back_to_pending =
      unless (can_move_back_to_pending_v2 e.config e.now r.request_status last_updated user groups)
        "Cannot move this request back to pending"
  refusal last_updated probe r _ = none

-- Only these two commands are taken on a request that is cancelled or rejected.
abbrev pub is_for_closed : Modification → Bool
is_for_closed (Modification.add_comment _) = true
is_for_closed Modification.move_back_to_pending = true
is_for_closed _ = false

abbrev pub is_closed : RequestStatus → Bool
is_closed RequestStatus.cancelled = true
is_closed RequestStatus.rejected = true
is_closed _ = false

abbrev pub is_open : RequestStatus → Bool
is_open RequestStatus.pending = true
is_open _ = false

unfoldable pub wrong_status : Request → Modification → Error
wrong_status r cmd = invalid_request_parameter (
    fstring (
      "Cannot perform "
      ∷ command_value cmd
      ∷ " on "
      ∷ status_value r.request_status
      ∷ " requests"
      ∷ []))

-- The guard in front of the commands.
unfoldable pub authorized : Option Error → M (Unit {0})
authorized none = pure tt
authorized (some err) = raise err
