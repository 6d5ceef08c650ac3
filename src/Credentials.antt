-- ===== src/Credentials.antt =====
-- consoleme/lib/cloud_credential_authorization_mapping: which users and groups may get the credentials of
-- which roles. A Python set is a list here, of which only membership is read, except where it is sorted.
pub mod Grants
pub mod Offers
pub mod Cache
pub mod Reverse
mod Tests
use consoleme.Base.{
  ℕ, zero, suc, ◌-◌, String, Bool, true, false, not, ◌&&◌, ◌||◌, Option, none, some, List, [], ◌∷◌,
  ◌++◌, ltb, elem, str_eq, contains, split, truthy_text, Dict, lookup, insert, fstring, lower,
  str_lt, if◌then◌else◌,
}
use consoleme.Json.{Json}

-- `RoleAuthorizations`
pub record Roles : Type 0 where
  pub authorized_roles : List String
  pub authorized_roles_cli_only : List String

abbrev pub no_roles : Roles
no_roles = record { authorized_roles = []; authorized_roles_cli_only = [] }

abbrev pub Mapping : Type 0
Mapping = Dict Roles

-- An entry of the cache of roles, decoded.
pub record Role : Type 0 where
  pub arn : String
  pub tags : List (String × String)
  pub trust_policy : Json

-- The configuration under `cloud_credential_authorization_mapping` and `auth`, the mapping of the dynamic
-- configuration, and the two parts that are not in this code: the text that ujson gives for a document and
-- the plugin's own mapping.
pub record Settings : Type 0 where
  pub role_tags_enabled : Bool
  pub dynamic_config_enabled : Bool
  pub internal_plugin_enabled : Bool
  pub required_trust_policy_entity : Option String
  pub authorized_groups_tags : List String
  pub authorized_groups_cli_only_tags : List String
  pub force_groups_lowercase : Bool
  pub group_mapping : Dict Roles
  pub dumps : Json → String
  pub plugin : Mapping → Mapping

-- `s.add(x)`
unfoldable pub add_to : String → List String → List String
add_to x xs = if elem x xs then xs else x ∷ xs

abbrev pub or_empty : Option Roles → Roles
or_empty none = no_roles
or_empty (some r) = r

-- Two kinds of access: everywhere, or by the command line only.
pub data Access : Type 0 where
  full cli_only : Access

unfoldable pub add_role : Access → String → Roles → Roles
unfolding add_to
add_role full arn r = record r { authorized_roles = add_to arn r.authorized_roles }
add_role cli_only arn r = record r {
  authorized_roles_cli_only = add_to arn r.authorized_roles_cli_only;
}

-- `authorization_mapping[group].….add(arn)`, the entry being made if it is missing.
unfoldable pub grant : Access → (arn group : String) → Mapping → Mapping
unfolding add_role
grant a arn group m = insert group (add_role a arn (or_empty (lookup group m))) m

module _ (c : Settings) where
  abbrev pub group_name : String → String
  group_name group = if c.force_groups_lowercase then lower group else group

  unfoldable pub grant_groups : Access → (arn : String) → List String → Mapping → Mapping
  grant_groups a arn [] m = m
  grant_groups a arn (g ∷ gs) m = grant_groups a arn gs (grant a arn (group_name g) m)

  unfoldable pub grant_tag : (arn : String) → String × String → Mapping → Mapping
  grant_tag arn (key, value) m =
      let groups = split b':' value in
      let m' = if elem key c.authorized_groups_tags then grant_groups full arn groups m else m in
      if elem key c.authorized_groups_cli_only_tags then grant_groups cli_only arn groups m' else m'

  unfoldable pub grant_tags : (arn : String) → List (String × String) → Mapping → Mapping
  grant_tags arn [] m = m
  grant_tags arn (t ∷ ts) m = grant_tags arn ts (grant_tag arn t m)

  -- The trust policy names the entity that it has to name.
  unfoldable pub is_trusted : Role → Bool
  is_trusted r = elim c.required_trust_policy_entity [
    | none ↦ true
    | some entity ↦
        not (truthy_text (some entity)) || contains (lower entity) (lower (c.dumps r.trust_policy))
  ]

  -- `RoleTagAuthorizationMappingGenerator`
  unfoldable pub role_tag_mapping : List Role → Mapping → Mapping
  role_tag_mapping [] m = m
  role_tag_mapping (r ∷ rs) m =
      role_tag_mapping rs (if is_trusted r then grant_tags r.arn r.tags m else m)

  unfoldable pub add_all : List String → List String → List String
  add_all [] xs = xs
  add_all (y ∷ ys) xs = add_all ys (add_to y xs)

  unfoldable pub merge_roles : Roles → Roles → Roles
  merge_roles given r = record {
    authorized_roles = add_all given.authorized_roles r.authorized_roles;
    authorized_roles_cli_only = add_all given.authorized_roles_cli_only r.authorized_roles_cli_only;
  }

  -- `DynamicConfigAuthorizationMappingGenerator`
  unfoldable pub dynamic_config_mapping : Dict Roles → Mapping → Mapping
  dynamic_config_mapping [] m = m
  dynamic_config_mapping ((group, given) ∷ rest) m =
      dynamic_config_mapping rest
        (insert (group_name group) (merge_roles given (or_empty (lookup (group_name group) m))) m)

  -- `generate_and_store_credential_authorization_mapping`
  unfoldable pub generate_mapping : List Role → Mapping
  generate_mapping roles =
      let m = if c.role_tags_enabled then role_tag_mapping roles [] else [] in
      let m' = if c.dynamic_config_enabled then dynamic_config_mapping c.group_mapping m else m in
      if c.internal_plugin_enabled then c.plugin m' else m'

-- `reverse_mapping[role.lower()].append(identity)`, for each of these roles.
unfoldable pub append_each :
    (identity : String) → List String → Dict (List String) → Dict (List String)
append_each identity [] d = d
append_each identity (r ∷ rs) d = append_each identity rs (
    insert (lower r) ((elim (lookup (lower r) d) [ none ↦ [] | some ids ↦ ids ]) ++ identity ∷ [])
      d)

-- `generate_and_store_reverse_authorization_mapping`
unfoldable pub reverse_from : Mapping → Dict (List String) → Dict (List String)
reverse_from [] d = d
reverse_from ((identity, r) ∷ m) d =
    reverse_from m
      (append_each identity r.authorized_roles_cli_only (append_each identity r.authorized_roles d))

unfoldable pub reverse_mapping : Mapping → Dict (List String)
reverse_mapping m = reverse_from m []

-- `determine_role_authorized_groups`
unfoldable pub determine_role_authorized_groups :
    Dict (List String) → (account_id role_name : String) → List String
determine_role_authorized_groups reverse account_id role_name =
    elim (lookup (fstring ("arn:aws:iam::" ∷ account_id ∷ ":role/" ∷ lower role_name ∷ []))
      reverse) [ none ↦ [] | some groups ↦ groups ]

-- A text into a sorted list without duplicates: `sorted` of a set, one element at a time.
unfoldable pub insert_sorted : String → List String → List String
insert_sorted x [] = x ∷ []
insert_sorted x (y ∷ ys) =
    let rest = insert_sorted x ys in
    if str_eq x y then y ∷ ys else if str_lt x y then x ∷ y ∷ ys else y ∷ rest

unfoldable pub insert_all : List String → List String → List String
insert_all [] ys = ys
insert_all (x ∷ xs) ys = insert_sorted x (insert_all xs ys)

-- The roles of one user or group.
unfoldable pub roles_of : (include_cli : Bool) → Option Roles → List String
roles_of include_cli none = []
roles_of true (some r) = r.authorized_roles ++ r.authorized_roles_cli_only
roles_of false (some r) = r.authorized_roles

-- `determine_users_authorized_roles`
unfoldable pub determine_users_authorized_roles :
    Mapping → (user : String) → (groups : List String) → (include_cli : Bool) → List String
determine_users_authorized_roles m user [] include_cli =
    insert_all (roles_of include_cli (lookup user m)) []
determine_users_authorized_roles m user (g ∷ gs) include_cli =
    insert_all (roles_of include_cli (lookup g m))
      (determine_users_authorized_roles m user gs include_cli)
