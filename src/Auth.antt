-- ===== src/Auth.antt =====
-- consoleme/lib/auth.py and `is_in_group` of consoleme/lib/generic.py: who may do what. The proofs are in
-- the modules below.
pub mod Rights
mod Tests
use consoleme.Base.{
  String, Bool, true, false, ◌||◌, Option, none, some, List, [], ◌∷◌, ◌++◌, elem, str_eq,
  truthy_text, if◌then◌else◌,
}
use consoleme.Config.{Config, Attribute}

unfoldable pub is_in_group : String → List String → List String → Bool
is_in_group user user_groups [] = false
is_in_group user user_groups (group ∷ required_groups) =
    if elem group user_groups || str_eq user group
    then true
    else is_in_group user user_groups required_groups

-- The users and groups that a key lists, in the file and in the dynamic configuration.
abbrev pub listed : Config → String → String → List String
listed c key dynamic_key = c.groups key ++ c.groups dynamic_key

-- `user == application_admin or application_admin in user_groups`, where it is configured.
unfoldable pub is_application_admin : Option String → String → List String → Bool
is_application_admin none user user_groups = false
is_application_admin (some admin) user user_groups =
    if truthy_text (some admin) then str_eq user admin || elem admin user_groups else false

module _ (c : Config) (user : String) (user_groups : List String) where
  unfoldable pub can_admin_all : Bool
  unfolding is_application_admin is_in_group
  can_admin_all =
      if is_application_admin c.application_admin user user_groups
      then true
      else is_in_group user user_groups
          (listed c "groups.can_admin" "dynamic_config.groups.can_admin")

  -- The shape that most of the tests share: administrators, then the groups of a key.
  unfoldable pub admin_or_in : List String → Bool
  unfolding can_admin_all
  admin_or_in groups = if can_admin_all then true else is_in_group user user_groups groups

  unfoldable pub can_create_roles : Bool
  unfolding admin_or_in
  can_create_roles =
      admin_or_in (listed c "groups.can_create_roles" "dynamic_config.groups.can_create_roles")

  unfoldable pub can_admin_policies : Bool
  unfolding admin_or_in
  can_admin_policies =
      admin_or_in (listed c "groups.can_admin_policies" "dynamic_config.groups.can_admin_policies")

  unfoldable pub can_delete_iam_principals : Bool
  unfolding admin_or_in
  can_delete_iam_principals = admin_or_in (
      listed c "groups.can_delete_roles" "dynamic_config.groups.can_delete_roles"
      ++ listed c "groups.can_delete_iam_principals"
          "dynamic_config.groups.can_delete_iam_principals")

  unfoldable pub can_edit_dynamic_config : Bool
  unfolding admin_or_in
  can_edit_dynamic_config =
      admin_or_in (listed c "groups.can_edit_config" "dynamic_config.groups.can_edit_config")

  -- The groups of `can_admin_restricted`, then those of another key.
  unfoldable pub restricted_or_in : List String → Bool
  unfolding is_in_group
  restricted_or_in groups =
      if is_in_group user user_groups
        (listed c "groups.can_admin_restricted" "dynamic_config.groups.can_admin_restricted")
      then true
      else is_in_group user user_groups groups

  unfoldable pub can_edit_attributes : Bool
  unfolding can_admin_all restricted_or_in
  can_edit_attributes =
      if can_admin_all
      then true
      else restricted_or_in
          (listed c "groups.can_edit_attributes" "dynamic_config.groups.can_edit_attributes")

  -- `restricted` is that of the group, where there is group information.
  unfoldable pub can_modify_members : Option Bool → Bool
  unfolding can_admin_all restricted_or_in
  can_modify_members (some true) = false
  can_modify_members _ =
      if can_admin_all
      then true
      else restricted_or_in
          (listed c "groups.can_modify_members" "dynamic_config.groups.can_modify_members")

  unfoldable pub can_edit_sensitive_attributes : Bool
  unfolding admin_or_in
  can_edit_sensitive_attributes = admin_or_in (
      listed c "groups.can_edit_sensitive_attributes"
        "dynamic_config.groups.can_edit_sensitive_attributes")

unfoldable pub can_delete_iam_principals_app : Config → String → Bool
can_delete_iam_principals_app c app_name =
    elem app_name
      (listed c "groups.can_delete_roles_apps" "dynamic_config.groups.can_delete_roles_apps")

-- The `sensitive` of the first attribute of this name.
unfoldable pub find_sensitive : String → List Attribute → Option Bool
find_sensitive attribute [] = none
find_sensitive attribute (a ∷ rest) =
    if str_eq a.name attribute then some a.sensitive else find_sensitive attribute rest

or_else : Option Bool → Option Bool → Bool
or_else (some b) _ = b
or_else none (some b) = b
or_else none none = false

unfoldable pub is_sensitive_attr : Config → String → Bool
unfolding find_sensitive or_else
is_sensitive_attr c attribute =
    or_else
      (find_sensitive attribute (
        c.attributes "groups.attributes.boolean"
        ++ c.attributes "dynamic_config.groups.attributes.boolean"))
      (find_sensitive attribute (
        c.attributes "groups.attributes.list"
        ++ c.attributes "dynamic_config.groups.attributes.list"))
