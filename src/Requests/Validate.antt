-- ===== src/Requests/Validate.antt =====
-- The `validate_*` functions of lib/v2/requests.py: which changes of a new request are refused.
pub mod Accepted
use consoleme.Base.{
  String, Bool, true, false, not, ◌&&◌, ◌||◌, Option, none, some, List, [], ◌∷◌, str_eq,
  truthy_text, fstring, shown, split, last, elem, if◌then◌else◌,
}
use consoleme.Json.{Json, truthy, json_eq}
use consoleme.Policies.{invalid_characters_in_text, invalid_characters_in_document}
use consoleme.Models.{
  Action, attach, detach, PolicyModel, InlineChange, AssumeRoleChange, ManagedResourceChange,
  Detail, inline_policy, resource_policy, sts_resource_policy, Change, AwsPrincipal,
}
use consoleme.Requests.World.{Error, invalid_request_parameter, attribute_error, Result, ok, raised}
use consoleme.Requests.Steps.{same_text}

abbrev pub Checked : Type 0
Checked = Result (Unit {0})

abbrev pub refuse_if : Bool → String → Checked → Checked
refuse_if b message rest = if b then raised (invalid_request_parameter message) else rest

abbrev pub is_attach : Option Action → Bool
is_attach (some attach) = true
is_attach _ = false

abbrev pub is_detach : Option Action → Bool
is_detach (some detach) = true
is_detach _ = false

-- The loop over the inline policies of the role: whether one has the name of the change.
unfoldable pub scan_inline :
    InlineChange → Json → List (String × Json) → (seen : Bool) → Result Bool
scan_inline ch doc [] seen = ok seen
scan_inline ch doc ((name, existing) ∷ rest) seen =
    let same = same_text ch.policy_name (some name) in
    let later = scan_inline ch doc rest (seen || same) in
    if ch.new && same
    then raised (
        invalid_request_parameter (
          fstring
            ("Inline Policy with the name " ∷ shown ch.policy_name ∷ " already exists." ∷ [])))
    else if not ch.new && (json_eq doc existing && (same && is_attach ch.action))
    then raised (
        invalid_request_parameter (
          fstring (
            "No changes were found between the updated and existing policy for policy "
            ∷ shown ch.policy_name
            ∷ "."
            ∷ [])))
    else later

-- Behind the loop. The first message prints the flag, which is false there.
unfoldable pub check_seen : InlineChange → Result Bool → Checked
check_seen ch (raised err) = raised err
check_seen ch (ok seen) =
    refuse_if (is_detach ch.action && not seen)
      "An inline policy named 'False' is not attached, so we cannot remove it"
      (refuse_if (is_attach ch.action && (not seen && not ch.new))
        (fstring (
          "Inline policy "
          ∷ shown ch.policy_name
          ∷ " not seen but request claims change is not new"
          ∷ []))
        (ok tt))

-- The document or the version of a policy has characters that are refused.
unfoldable pub is_unclean : PolicyModel → Bool
is_unclean p =
    invalid_characters_in_document p.policy_document || invalid_characters_in_text p.version

abbrev pub invalid_policy : String
invalid_policy = "Invalid characters were detected in the policy."

unfoldable pub check_inline : InlineChange → Option PolicyModel → AwsPrincipal → Checked
check_inline ch none role = raised attribute_error
check_inline ch (some p) role =
    refuse_if (is_unclean p || invalid_characters_in_text ch.policy_name) invalid_policy (
      refuse_if (ch.new && is_detach ch.action) "Can't detach an inline policy that is new."
        (check_seen ch (scan_inline ch p.policy_document role.inline_policies false)))

unfoldable pub validate_inline_policy_change : InlineChange → AwsPrincipal → Checked
validate_inline_policy_change ch role = check_inline ch ch.policy role

abbrev pub invalid_name : String
invalid_name = "Invalid characters were detected in the policy name."

-- `change.arn.split("/")[-1]`
abbrev pub name_in : String → String
name_in arn = last (split b'/' arn)

-- A role without a boundary has an empty dictionary there.
unfoldable pub check_boundary : (arn : String) → Action → Option String → Checked
check_boundary arn attach none = ok tt
check_boundary arn attach (some boundary) = raised (
    invalid_request_parameter
      "A permissions boundary is already attached to this role. Only one permission boundary can be attached to a role.")
check_boundary arn detach none = raised (
    invalid_request_parameter
      (fstring (arn ∷ " is not attached to this role as a permissions boundary" ∷ [])))
check_boundary arn detach (some boundary) =
    if str_eq arn boundary
    then ok tt
    else raised (
        invalid_request_parameter
          (fstring (arn ∷ " is not attached to this role as a permissions boundary" ∷ [])))

unfoldable pub validate_permissions_boundary_change :
    (arn : String) → Action → AwsPrincipal → Checked
validate_permissions_boundary_change arn action role =
    refuse_if (invalid_characters_in_text (some (name_in arn))) invalid_name
      (check_boundary arn action role.permissions_boundary)

unfoldable pub check_managed : (arn : String) → Action → List String → Checked
check_managed arn attach attached =
    refuse_if (elem arn attached) (fstring (arn ∷ " already attached to this role" ∷ [])) (ok tt)
check_managed arn detach attached =
    refuse_if (not (elem arn attached)) (fstring (arn ∷ " is not attached to this role" ∷ []))
      (ok tt)

unfoldable pub validate_managed_policy_change : (arn : String) → Action → AwsPrincipal → Checked
validate_managed_policy_change arn action role =
    refuse_if (invalid_characters_in_text (some (name_in arn))) invalid_name
      (check_managed arn action role.managed_policies)

-- The document that AWS has for the policy counts as false where there is none.
unfoldable pub check_managed_resource :
    ManagedResourceChange → Option PolicyModel → (policy_name : String) → Json → Checked
check_managed_resource m none name existing =
    if invalid_characters_in_text (some name)
    then raised (
        invalid_request_parameter
          "Invalid characters were detected in the policy name or document.")
    else raised attribute_error
check_managed_resource m (some p) name existing =
    refuse_if
      (invalid_characters_in_text (some name) || invalid_characters_in_document p.policy_document)
      "Invalid characters were detected in the policy name or document."
      (refuse_if (m.new && truthy existing) "Managed policy with that ARN already exists" (
        refuse_if (not m.new && not (truthy existing)) "Managed policy with that ARN doesn't exist"
          (refuse_if (not m.new && json_eq p.policy_document existing)
            "No changes detected between current and proposed policy" (ok tt))))

unfoldable pub validate_managed_policy_resource_change :
    ManagedResourceChange → (policy_name : String) → Json → Checked
validate_managed_policy_resource_change m name existing =
    check_managed_resource m m.policy name existing

unfoldable pub check_assume_role : Option PolicyModel → AwsPrincipal → Checked
check_assume_role none role = raised attribute_error
check_assume_role (some p) role = refuse_if (is_unclean p) invalid_policy (
    refuse_if (json_eq p.policy_document role.assume_role_policy_document)
      "No changes were found between the updated and existing assume role policy." (ok tt))

unfoldable pub validate_assume_role_policy_change : AssumeRoleChange → AwsPrincipal → Checked
validate_assume_role_policy_change ch role = check_assume_role ch.policy role

-- `is_request_eligible_for_auto_approval`: one change of the loop.
unfoldable pub is_eligible_change : Change → Detail → Bool
is_eligible_change c (inline_policy _) = true
is_eligible_change c (resource_policy _) = c.autogenerated
is_eligible_change c (sts_resource_policy _) = c.autogenerated
is_eligible_change c _ = false

unfoldable pub is_request_eligible_for_auto_approval : List Change → Bool
is_request_eligible_for_auto_approval [] = true
is_request_eligible_for_auto_approval (c ∷ cs) =
    let rest = is_request_eligible_for_auto_approval cs in
    if is_eligible_change c c.detail then rest else false
