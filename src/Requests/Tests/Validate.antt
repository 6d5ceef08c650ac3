-- ===== src/Requests/Tests/Validate.antt =====
-- The validation of changes, on concrete ones.
use consoleme.Base.{
  String, ◌≡◌, refl, true, false, not, ◌&&◌, ◌||◌, none, some, [], ◌∷◌, any, contains,
  if◌then◌else◌,
}
use consoleme.Json.{object, end, field, text, json_eq, has_key, size, get, fields_in}
use consoleme.Policies.{invalid_characters_in_text, invalid_characters_in_document}
use consoleme.Models.{Action, InlineChange, ManagedResourceChange, Status, AwsPrincipal}
use consoleme.Requests.Steps.{same_text}
use consoleme.Requests.Validate.{
  is_attach, is_detach, is_unclean, scan_inline, check_seen, check_inline,
  validate_inline_policy_change, is_request_eligible_for_auto_approval, is_eligible_change,
}
use consoleme.Requests.Validate.Accepted.{
  passes, is_named, is_same, passes-validate_inline_policy_change,
}
use consoleme.Requests.Tests.{policy, attach_change, inline_change}

abbrev role : AwsPrincipal
role = record {
  inline_policies = ("reads", object (field "Sid" (text "1") end)) ∷ [];
  assume_role_policy_document = object end;
  managed_policies = "arn:aws:iam::aws:policy/ReadOnlyAccess" ∷ [];
  permissions_boundary = none;
}

-- A new version of a policy that is there.
abbrev new_version : InlineChange
new_version = record {
  policy_name = some "reads";
  new = false;
  action = some Action.attach;
  policy = some policy;
  old_policy = none;
}

version_accepted : passes (validate_inline_policy_change new_version role) ≡ true
unfolding validate_inline_policy_change check_inline check_seen scan_inline is_unclean
    invalid_characters_in_text invalid_characters_in_document contains json_eq same_text has_key
    size get fields_in
version_accepted = refl

-- The same, said to be new.
taken_name : passes (validate_inline_policy_change (record new_version { new = true }) role) ≡ false
unfolding validate_inline_policy_change check_inline check_seen scan_inline is_unclean
    invalid_characters_in_text invalid_characters_in_document contains json_eq same_text has_key
    size get fields_in
taken_name = refl

inline_is_eligible :
    is_request_eligible_for_auto_approval (inline_change "b" Status.not_applied ∷ []) ≡ true
unfolding is_request_eligible_for_auto_approval is_eligible_change
inline_is_eligible = refl

attach_is_not_eligible :
    is_request_eligible_for_auto_approval
      (inline_change "b" Status.not_applied ∷ attach_change "a" Status.not_applied ∷ [])
    ≡ false
unfolding is_request_eligible_for_auto_approval is_eligible_change
attach_is_not_eligible = refl

passes-validate_inline_policy_change_example :
    passes (validate_inline_policy_change new_version role) ≡ (
      not (is_unclean policy || invalid_characters_in_text new_version.policy_name)
      && (if new_version.new
          then not (is_detach new_version.action)
            && not (any (is_named new_version) role.inline_policies)
          else not (
              is_attach new_version.action
              && any (is_same new_version policy.policy_document) role.inline_policies)
            && (any (is_named new_version) role.inline_policies
                || (not (is_attach new_version.action) && not (is_detach new_version.action)))))
passes-validate_inline_policy_change_example =
    passes-validate_inline_policy_change new_version policy role refl

abbrev boundary : String
boundary = "arn:aws:iam::123456789012:policy/Boundary"

abbrev new_policy : ManagedResourceChange
new_policy = record { new = true; policy = some policy; old_policy = none }
