-- ===== src/Credentials/Grants.antt =====
-- Exactly who gets which roles, from the tags of the roles and the dynamic configuration.
use consoleme.Base.{
  String, ◌≡◌, refl, Bool, true, false, ◌&&◌, ◌||◌, List, [], ◌∷◌, arith, any, elem, str_eq, eq_iff,
  split, Dict, lookup, insert, lookup-insert,
}
use consoleme.Credentials.{
  Roles, Mapping, Role, Settings, add_to, or_empty, Access, full, cli_only, add_role, grant,
  group_name, grant_groups, grant_tag, grant_tags, is_trusted, role_tag_mapping, add_all,
  merge_roles, dynamic_config_mapping,
}

abbrev pub side : Access → Roles → List String
side full r = r.authorized_roles
side cli_only r = r.authorized_roles_cli_only

abbrev pub same_access : Access → Access → Bool
same_access full full = true
same_access cli_only cli_only = true
same_access _ _ = false

-- The mapping gives this identity access of this kind to the role.
abbrev pub has_role : Access → (identity arn : String) → Mapping → Bool
has_role a identity arn m = elem arn (side a (or_empty (lookup identity m)))

elem-add_to : (x y : String) (ys : List String) → elem x (add_to y ys) ≡ (str_eq x y || elem x ys)
unfolding add_to
elem-add_to x y ys = ground (arith, eq_iff x y)

side-add_role :
    (a b : Access) (x arn : String) (r : Roles)
    → elem x (side a (add_role b arn r)) ≡ (elem x (side a r) || (same_access a b && str_eq x arn))
unfolding add_role
side-add_role full full x arn r = ground (arith, elem-add_to x arn r.authorized_roles)
side-add_role cli_only cli_only x arn r =
    ground (arith, elem-add_to x arn r.authorized_roles_cli_only)
side-add_role full cli_only x arn r = ground arith
side-add_role cli_only full x arn r = ground arith

module _ (a : Access) (identity arn : String) where
  has_role-grant :
      (b : Access) (x g : String) (m : Mapping)
      → has_role a identity arn (grant b x g m)
        ≡ (has_role a identity arn m || (same_access a b && (str_eq arn x && str_eq identity g)))
  unfolding grant
  has_role-grant b x g m =
      rw lookup-insert
        (ground (arith, eq_iff identity g, side-add_role a b arn x (or_empty (lookup g m))))

  module _ (c : Settings) where
    has_role-grant_groups :
        (b : Access) (x : String) (gs : List String) (m : Mapping)
        → has_role a identity arn (grant_groups c b x gs m) ≡ (
            has_role a identity arn m
            || (same_access a b
                && (str_eq arn x && any (λ g. str_eq identity (group_name c g)) gs)))
    unfolding grant_groups
    has_role-grant_groups b x [] m = ground arith
    has_role-grant_groups b x (g ∷ gs) m = ground (
      arith,
      has_role-grant_groups b x gs (grant b x (group_name c g) m),
      has_role-grant b x (group_name c g) m,
    )

    -- A tag gives the identity access of this kind.
    abbrev pub tag_grants : String × String → Bool
    tag_grants (key, value) =
        elem key (elim a [
          | full ↦ c.authorized_groups_tags
          | cli_only ↦ c.authorized_groups_cli_only_tags
        ])
        && any (λ g. str_eq identity (group_name c g)) (split b':' value)

    -- The tags of a role that meets the trust requirement give the identity access of this kind to this role.
    abbrev pub role_grants : Role → Bool
    role_grants r = str_eq arn r.arn && (is_trusted c r && any tag_grants r.tags)

    has_role-grant_tag :
        (x : String) (t : String × String) (m : Mapping)
        → has_role a identity arn (grant_tag c x t m)
          ≡ (has_role a identity arn m || (str_eq arn x && tag_grants t))
    unfolding grant_tag
    has_role-grant_tag x (key, value) m = ground (
      arith,
      has_role-grant_groups full x (split b':' value) m,
      has_role-grant_groups cli_only x (split b':' value) m,
      has_role-grant_groups cli_only x (split b':' value)
          (grant_groups c full x (split b':' value) m),
    )

    has_role-grant_tags :
        (x : String) (ts : List (String × String)) (m : Mapping)
        → has_role a identity arn (grant_tags c x ts m)
          ≡ (has_role a identity arn m || (str_eq arn x && any tag_grants ts))
    unfolding grant_tags
    has_role-grant_tags x [] m = ground arith
    has_role-grant_tags x (t ∷ ts) m =
        ground (arith, has_role-grant_tags x ts (grant_tag c x t m), has_role-grant_tag x t m)

    -- Exactly who gets which roles from their tags: those who had them before, and those whom a tag of a
    -- role that meets the trust requirement names, in the kind of access that the tag's key stands for.
    pub has_role-role_tag_mapping :
        (roles : List Role) (m : Mapping)
        → has_role a identity arn (role_tag_mapping c roles m)
          ≡ (has_role a identity arn m || any role_grants roles)
    unfolding role_tag_mapping
    has_role-role_tag_mapping [] m = ground arith
    has_role-role_tag_mapping (r ∷ rs) m = ground (
      arith,
      has_role-role_tag_mapping rs m,
      has_role-role_tag_mapping rs (grant_tags c r.arn r.tags m),
      has_role-grant_tags r.arn r.tags m,
    )

    elem-add_all :
        (x : String) (ys xs : List String) → elem x (add_all c ys xs) ≡ (elem x ys || elem x xs)
    unfolding add_all
    elem-add_all x [] xs = refl
    elem-add_all x (y ∷ ys) xs = ground (arith, elem-add_all x ys (add_to y xs), elem-add_to x y xs)

    side-merge_roles :
        (b : Access) (given r : Roles)
        → elem arn (side b (merge_roles c given r))
          ≡ (elem arn (side b given) || elem arn (side b r))
    unfolding merge_roles
    side-merge_roles full given r = elem-add_all arn given.authorized_roles r.authorized_roles
    side-merge_roles cli_only given r =
        elem-add_all arn given.authorized_roles_cli_only r.authorized_roles_cli_only

    -- An entry of the dynamic configuration gives the identity access of this kind to the role.
    abbrev pub entry_grants : String × Roles → Bool
    entry_grants (group, given) = str_eq identity (group_name c group) && elem arn (side a given)

    -- Exactly who gets which roles from the dynamic configuration: those who had them before, and those
    -- whom an entry names together with the role.
    pub has_role-dynamic_config_mapping :
        (entries : Dict Roles) (m : Mapping)
        → has_role a identity arn (dynamic_config_mapping c entries m)
          ≡ (has_role a identity arn m || any entry_grants entries)
    unfolding dynamic_config_mapping
    has_role-dynamic_config_mapping [] m = ground arith
    has_role-dynamic_config_mapping ((group, given) ∷ rest) m =
        let merged = merge_roles c given (or_empty (lookup (group_name c group) m)) in
        ground (
          arith,
          has_role-dynamic_config_mapping rest (insert (group_name c group) merged m),
          lookup-insert identity (group_name c group) merged m,
          eq_iff identity (group_name c group),
          side-merge_roles a given (or_empty (lookup (group_name c group) m)),
        )
