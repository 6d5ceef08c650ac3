-- ===== src/Policies.antt =====
-- consoleme/lib/policies.py: which texts are refused, and who may change a request.
pub mod Access
mod Tests
use consoleme.Base.{
  ℕ, ◌-◌, String, Bool, true, false, ◌||◌, Option, none, some, List, contains, ltb, str_eq,
  truthy_text, if◌then◌else◌,
}
use consoleme.Json.{Json, object, has_key, truthy}
use consoleme.Config.{Config}
use consoleme.Auth.{can_admin_policies}
use consoleme.Models.{RequestStatus}

-- `invalid_characters_in_policy` of a text that may be `None`.
unfoldable pub invalid_characters_in_text : Option String → Bool
invalid_characters_in_text none = false
invalid_characters_in_text (some s) =
    if truthy_text (some s) then contains "<" s || contains ">" s else false

-- `invalid_characters_in_policy` of a document: Python's `in` looks among the keys of a dictionary.
unfoldable pub invalid_characters_in_document : Json → Bool
invalid_characters_in_document (object fs) = has_key "<" fs || has_key ">" fs
invalid_characters_in_document _ = false

unfoldable pub can_update_cancel_requests_v2 :
    Config → (requester user : String) → List String → Bool
can_update_cancel_requests_v2 c requester user groups =
    if str_eq user requester then true else can_admin_policies c user groups

-- `can_update_requests`, of the older requests: `user in request["username"]`.
unfoldable pub can_update_requests : Config → (username user : String) → List String → Bool
can_update_requests c username user groups =
    if contains user username then true else can_admin_policies c user groups

-- A day, in seconds.
abbrev pub day : ℕ
day = 86400

is_closed : RequestStatus → Bool
is_closed RequestStatus.cancelled = true
is_closed RequestStatus.rejected = true
is_closed _ = false

unfoldable pub can_move_back_to_pending_v2 :
    Config → (now : ℕ) → RequestStatus → (last_updated : ℕ) → String → List String → Bool
unfolding is_closed
can_move_back_to_pending_v2 c now status last_updated user groups =
    if is_closed status
    then (if ltb last_updated (now - day) then false else can_admin_policies c user groups)
    else false
