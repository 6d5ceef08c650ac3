-- ===== src/Auth/Tests.antt =====
-- Runs of the rights of consoleme/lib/auth.py, and the cases in which its theorems apply.
use consoleme.Base.{◌≡◌, refl, ◌↔◌, ◌⊎◌, true, false, some, [], ◌∷◌, str_eq, if◌then◌else◌}
use consoleme.Config.{Config}
use consoleme.Auth.{
  listed, is_in_group, is_application_admin, can_admin_all, can_admin_policies, can_modify_members,
}
use consoleme.Auth.Rights.{Right, has, granted, Names, has_iff}

abbrev config : Config
config = record {
  application_admin = some "admin@example.com";
  groups = λ key. if str_eq key "groups.can_admin_policies" then "policy-admins" ∷ [] else [];
  attributes = λ key. [];
  supported_resource_types = [];
  sts_resource_policy_supported = true;
  fallback_reviewers = [];
  region = "us-west-2";
}

policy_admin : has Right.admin_policies config "ann" ("policy-admins" ∷ []) ≡ true
unfolding can_admin_policies can_admin_all is_application_admin is_in_group
policy_admin = refl

restricted_group : can_modify_members config "admin@example.com" [] (some true) ≡ false
unfolding can_modify_members
restricted_group = refl

has_iff_example : (has Right.admin_policies config "ann" ("policy-admins" ∷ []) ≡ true) ↔ (
    (is_application_admin config.application_admin "ann" ("policy-admins" ∷ []) ≡ true)
    ⊎ (Names "ann"
          ("policy-admins" ∷ [])
          (listed config "groups.can_admin" "dynamic_config.groups.can_admin")
        ⊎ Names "ann" ("policy-admins" ∷ []) (granted Right.admin_policies config)))
has_iff_example = has_iff Right.admin_policies config "ann" ("policy-admins" ∷ [])
