-- ===== src/Requests/Select.antt =====
-- One change of a request, found by its id and changed in place, and the state of all of them.
use consoleme.Base.{
  String, Bool, true, false, not, ◌&&◌, Option, none, some, List, [], ◌∷◌, any, str_eq,
  if◌then◌else◌,
}
use consoleme.Json.{Json}
use consoleme.Models.{
  Status, RequestStatus, PolicyModel, InlineChange, ResourceChange, AssumeRoleChange,
  ManagedResourceChange, Detail, inline_policy, resource_policy, sts_resource_policy,
  assume_role_policy, managed_policy_resource, Change, is_applied, is_not_applied,
}
use consoleme.Requests.World.{attribute_error, Result, ok, raised}

-- `_get_specific_change`
unfoldable pub get_specific_change : String → List Change → Option Change
get_specific_change id [] = none
get_specific_change id (c ∷ cs) = if str_eq c.id id then some c else get_specific_change id cs

-- A write to the change that `get_specific_change` returns.
unfoldable pub update_specific : String → (Change → Change) → List Change → List Change
update_specific id f [] = []
update_specific id f (c ∷ cs) =
    let rest = update_specific id f cs in if str_eq c.id id then f c ∷ cs else c ∷ rest

unfoldable pub replace_document : Json → Option PolicyModel → Result PolicyModel
replace_document doc none = raised attribute_error
replace_document doc (some p) = ok (record p { policy_document = doc })

put_inline : InlineChange → Result PolicyModel → Result Detail
put_inline ch (ok p) = ok (inline_policy (record ch { policy = some p }))
put_inline ch (raised err) = raised err

put_assume : AssumeRoleChange → Result PolicyModel → Result Detail
put_assume ch (ok p) = ok (assume_role_policy (record ch { policy = some p }))
put_assume ch (raised err) = raised err

put_managed : ManagedResourceChange → Result PolicyModel → Result Detail
put_managed m (ok p) = ok (managed_policy_resource (record m { policy = some p }))
put_managed m (raised err) = raised err

put_resource : Json → ResourceChange → ResourceChange
put_resource doc r = record r { policy = record r.policy { policy_document = doc } }

-- `specific_change.policy.policy_document = …`, for the five types that have a document.
unfoldable pub set_document : Json → Detail → Result Detail
unfolding replace_document put_inline put_assume put_managed put_resource
set_document doc (inline_policy ch) = put_inline ch (replace_document doc ch.policy)
set_document doc (resource_policy r) = ok (resource_policy (put_resource doc r))
set_document doc (sts_resource_policy r) = ok (sts_resource_policy (put_resource doc r))
set_document doc (assume_role_policy ch) = put_assume ch (replace_document doc ch.policy)
set_document doc (managed_policy_resource m) = put_managed m (replace_document doc m.policy)
set_document doc d = ok d

unfoldable pub has_document : Detail → Bool
has_document (inline_policy _) = true
has_document (resource_policy _) = true
has_document (sts_resource_policy _) = true
has_document (assume_role_policy _) = true
has_document (managed_policy_resource _) = true
has_document _ = false

unfoldable pub is_resource_policy : Detail → Bool
is_resource_policy (resource_policy _) = true
is_resource_policy (sts_resource_policy _) = true
is_resource_policy _ = false

-- `change.supported is False`
is_false : Option Bool → Bool
is_false (some false) = true
is_false _ = false

unfoldable pub is_unsupported_resource : Detail → Bool
unfolding is_false
is_unsupported_resource (resource_policy r) = is_false r.supported
is_unsupported_resource (sts_resource_policy r) = is_false r.supported
is_unsupported_resource _ = false

-- A change that keeps its request from being complete.
unfoldable pub is_pending : Change → Bool
unfolding is_unsupported_resource
is_pending c =
    is_not_applied c.status && (not (is_unsupported_resource c.detail) && not c.autogenerated)

abbrev pub is_cancelled : Status → Bool
is_cancelled Status.cancelled = true
is_cancelled _ = false

unfoldable pub any_applied : List Change → Bool
any_applied = any (λ c. is_applied c.status)

unfoldable pub any_pending : List Change → Bool
unfolding is_pending
any_pending = any is_pending

unfoldable pub any_cancelled : List Change → Bool
any_cancelled = any (λ c. is_cancelled c.status)

-- The status that the changes give the request, where they settle it.
unfoldable pub settled_status : List Change → Option RequestStatus
unfolding any_applied any_pending any_cancelled
settled_status cs =
    if any_pending cs
    then none
    else if any_applied cs
    then some RequestStatus.approved
    else if any_cancelled cs
    then some RequestStatus.cancelled
    else none
