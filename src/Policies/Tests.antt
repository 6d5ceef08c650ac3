-- ===== src/Policies/Tests.antt =====
-- Runs of consoleme/lib/policies.py, and the cases in which its theorems apply.
use consoleme.Base.{
  String, ◌≡◌, refl, true, false, none, some, [], ◌∷◌, contains, str_eq, if◌then◌else◌,
}
use consoleme.Json.{object, field, text, end, has_key}
use consoleme.Config.{Config}
use consoleme.Auth.{is_in_group, is_application_admin, can_admin_all, can_admin_policies}
use consoleme.Policies.{
  invalid_characters_in_text, invalid_characters_in_document, can_update_requests,
  can_update_cancel_requests_v2,
}

abbrev config : Config
config = record {
  application_admin = none;
  groups = λ key. if str_eq key "groups.can_admin_policies" then "policy-admins" ∷ [] else [];
  attributes = λ key. [];
  supported_resource_types = [];
  sts_resource_policy_supported = true;
  fallback_reviewers = [];
  region = "us-west-2";
}

-- Markup in a policy's name is refused; in its document it is looked for among the keys only.
markup_in_name : invalid_characters_in_text (some "a<script>") ≡ true
unfolding invalid_characters_in_text contains
markup_in_name = refl

markup_in_document :
    invalid_characters_in_document (object (field "Sid" (text "<script>") end)) ≡ false
unfolding invalid_characters_in_document has_key
markup_in_document = refl

abbrev joanna : String
joanna = "joanna@example.com"

abbrev anna : String
anna = "anna@example.com"

-- A user whose name is part of the requester's counts as the requester in the older test only.
part_of_a_name : can_update_requests config joanna anna [] ≡ true
unfolding can_update_requests contains
part_of_a_name = refl

not_the_requester : can_update_cancel_requests_v2 config joanna anna [] ≡ false
unfolding can_update_cancel_requests_v2 can_admin_policies can_admin_all is_application_admin
    is_in_group
not_the_requester = refl
