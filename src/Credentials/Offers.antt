-- ===== src/Credentials/Offers.antt =====
-- What a user is offered.
use consoleme.Base.{
  String, ◌≡◌, refl, ◌∙◌, any_cong, Bool, true, false, ◌&&◌, ◌||◌, none, some, List, [], ◌∷◌, arith,
  any, elem, elem-append, str_eq, eq_iff, Option-cases, inl, inr, lookup,
}
use consoleme.Credentials.{
  Roles, Mapping, Role, Settings, Access, full, cli_only, role_tag_mapping, insert_sorted,
  insert_all, roles_of, determine_users_authorized_roles, generate_mapping,
}
use consoleme.Credentials.Grants.{
  has_role, role_grants, entry_grants, has_role-role_tag_mapping, has_role-dynamic_config_mapping,
}

elem-insert_sorted :
    (x y : String) (ys : List String) → elem x (insert_sorted y ys) ≡ (str_eq x y || elem x ys)
unfolding insert_sorted
elem-insert_sorted x y [] = refl
elem-insert_sorted x y (z ∷ ys) =
    ground (arith, elem-insert_sorted x y ys, eq_iff y z, eq_iff x y, eq_iff x z)

elem-insert_all :
    (x : String) (xs ys : List String) → elem x (insert_all xs ys) ≡ (elem x xs || elem x ys)
unfolding insert_all
elem-insert_all x [] ys = refl
elem-insert_all x (y ∷ xs) ys =
    ground (arith, elem-insert_all x xs ys, elem-insert_sorted x y (insert_all xs ys))

-- The mapping gives this identity the role, in the console, or by the command line if that is asked for.
abbrev pub may_use : Mapping → (include_cli : Bool) → (arn identity : String) → Bool
may_use m include_cli arn identity =
    has_role full identity arn m || (include_cli && has_role cli_only identity arn m)

elem-roles_of :
    (m : Mapping) (include_cli : Bool) (arn identity : String)
    → elem arn (roles_of include_cli (lookup identity m)) ≡ may_use m include_cli arn identity
unfolding roles_of
elem-roles_of m include_cli arn identity = elim (Option-cases (lookup identity m)) [
  | inl missing ↦ rw missing (by_kind_none include_cli)
  | inr (r, found) ↦ rw found (by_kind include_cli r)
]
  where
    by_kind_none : (b : Bool) → elem arn (roles_of b none) ≡ (false || (b && false))
    by_kind_none true = refl
    by_kind_none false = refl

    by_kind :
        (b : Bool) (r : Roles)
        → elem arn (roles_of b (some r))
          ≡ (elem arn r.authorized_roles || (b && elem arn r.authorized_roles_cli_only))
    by_kind true r = elem-append arn r.authorized_roles r.authorized_roles_cli_only
    by_kind false r = ground arith

elem-determine :
    (m : Mapping) (user : String) (groups : List String) (include_cli : Bool) (arn : String)
    → elem arn (determine_users_authorized_roles m user groups include_cli)
      ≡ (may_use m include_cli arn user || any (may_use m include_cli arn) groups)
unfolding determine_users_authorized_roles
elem-determine m user [] include_cli arn = ground (
  arith,
  elem-insert_all arn (roles_of include_cli (lookup user m)) [],
  elem-roles_of m include_cli arn user,
)
elem-determine m user (g ∷ gs) include_cli arn = ground (
  arith,
  elem-determine m user gs include_cli arn,
  elem-roles_of m include_cli arn g,
  elem-insert_all arn (roles_of include_cli (lookup g m))
      (determine_users_authorized_roles m user gs include_cli),
)

-- The configuration gives this identity access of this kind to the role.
abbrev pub configured : Settings → List Role → (arn : String) → Access → (identity : String) → Bool
configured c roles arn a identity =
    (c.role_tags_enabled && any (role_grants a identity arn c) roles)
    || (c.dynamic_config_enabled && any (entry_grants a identity arn c) c.group_mapping)

has_role-generate_mapping :
    (c : Settings) (roles : List Role) (a : Access) (identity arn : String)
    → c.internal_plugin_enabled ≡ false
    → has_role a identity arn (generate_mapping c roles) ≡ configured c roles arn a identity
unfolding generate_mapping
has_role-generate_mapping c roles a identity arn h = rw h (
    ground (
      arith,
      has_role-role_tag_mapping a identity arn c roles [],
      has_role-dynamic_config_mapping a identity arn c c.group_mapping [],
      has_role-dynamic_config_mapping a identity arn c c.group_mapping
          (role_tag_mapping c roles []),
    ))

-- Without the plugin's own mapping, exactly the roles that the configuration gives are offered to a user: those that
-- the user, or one of the groups, has by a tag of the role or by the dynamic configuration, and by the
-- command line only if that is asked for.
pub determine_users_authorized_roles_lem :
    (c : Settings) (roles : List Role) (user : String) (groups : List String) (include_cli : Bool)
    (arn : String)
    → c.internal_plugin_enabled ≡ false
    → elem arn (determine_users_authorized_roles (generate_mapping c roles) user groups include_cli)
      ≡ any
          (λ identity.
            configured c roles arn full identity
            || (include_cli && configured c roles arn cli_only identity))
          (user ∷ groups)
determine_users_authorized_roles_lem c roles user groups include_cli arn h =
    elem-determine (generate_mapping c roles) user groups include_cli arn
    ∙ any_cong _ _ granted (user ∷ groups)
  where
    granted :
        (identity : String)
        → may_use (generate_mapping c roles) include_cli arn identity ≡ (
            configured c roles arn full identity
            || (include_cli && configured c roles arn cli_only identity))
    granted identity = ground (
      arith,
      has_role-generate_mapping c roles full identity arn h,
      has_role-generate_mapping c roles cli_only identity arn h,
    )
