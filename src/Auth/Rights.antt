-- ===== src/Auth/Rights.antt =====
-- The rights of lib/auth.py as one table, and what holds of all of them.
use consoleme.Base.{
  String, Bool, true, false, ◌||◌, ◌≡◌, refl, ◌↔◌, ◌⊎◌, inl, inr, none, List, [], ◌∷◌, ◌++◌, arith,
  elem, elem-append, str_eq, eq_iff, eq_refl, Bool-cases, Option-cases,
}
use consoleme.Config.{Config}
use consoleme.Auth.{
  is_in_group, is_application_admin, listed, can_admin_all, can_create_roles, can_admin_policies,
  can_delete_iam_principals, can_edit_dynamic_config, can_edit_attributes, can_modify_members,
  can_edit_sensitive_attributes,
}

-- What a user may ask for; `modify_members` is of a group that is not restricted.
pub data Right : Type 0 where
  admin_all create_roles admin_policies delete_iam_principals edit_dynamic_config : Right
  edit_attributes modify_members edit_sensitive_attributes : Right

abbrev pub has : Right → Config → String → List String → Bool
has admin_all c u gs = can_admin_all c u gs
has create_roles c u gs = can_create_roles c u gs
has admin_policies c u gs = can_admin_policies c u gs
has delete_iam_principals c u gs = can_delete_iam_principals c u gs
has edit_dynamic_config c u gs = can_edit_dynamic_config c u gs
has edit_attributes c u gs = can_edit_attributes c u gs
has modify_members c u gs = can_modify_members c u gs none
has edit_sensitive_attributes c u gs = can_edit_sensitive_attributes c u gs

-- The keys of the configuration that give a right, beside those that make an administrator.
abbrev pub granted : Right → Config → List String
granted admin_all c = []
granted create_roles c = listed c "groups.can_create_roles" "dynamic_config.groups.can_create_roles"
granted admin_policies c =
    listed c "groups.can_admin_policies" "dynamic_config.groups.can_admin_policies"
granted delete_iam_principals c =
    listed c "groups.can_delete_roles" "dynamic_config.groups.can_delete_roles"
    ++ listed c "groups.can_delete_iam_principals" "dynamic_config.groups.can_delete_iam_principals"
granted edit_dynamic_config c =
    listed c "groups.can_edit_config" "dynamic_config.groups.can_edit_config"
granted edit_attributes c =
    listed c "groups.can_admin_restricted" "dynamic_config.groups.can_admin_restricted"
    ++ listed c "groups.can_edit_attributes" "dynamic_config.groups.can_edit_attributes"
granted modify_members c =
    listed c "groups.can_admin_restricted" "dynamic_config.groups.can_admin_restricted"
    ++ listed c "groups.can_modify_members" "dynamic_config.groups.can_modify_members"
granted edit_sensitive_attributes c =
    listed c "groups.can_edit_sensitive_attributes"
      "dynamic_config.groups.can_edit_sensitive_attributes"

-- The user, or one of the user's groups, is on the list.
pub Names : String → List String → List String → Type 0
Names user user_groups list =
    (g : String) × (elem g list ≡ true) × ((elem g user_groups ≡ true) ⊎ (user ≡ g))

module _ (u : String) (gs : List String) where
  is_in_group-append :
      (xs ys : List String)
      → is_in_group u gs (xs ++ ys) ≡ (is_in_group u gs xs || is_in_group u gs ys)
  unfolding is_in_group
  is_in_group-append [] ys = refl
  is_in_group-append (x ∷ xs) ys = ground (arith, is_in_group-append xs ys)

  Names-cons : (g : String) (list : List String) → Names u gs list → Names u gs (g ∷ list)
  unfolding Names
  Names-cons g list (x, listed_x, held) = (x, ground arith, held)

  is_in_group→Names :
      (required : List String) → is_in_group u gs required ≡ true → Names u gs required
  unfolding is_in_group Names
  is_in_group→Names [] h = cc
  is_in_group→Names (g ∷ required) h = elim (Bool-cases (elem g gs)) [
    | inl held ↦ (g, rw eq_refl, inl held)
    | inr not_held ↦ elim (Bool-cases (str_eq u g)) [
      | inl same ↦ (g, rw eq_refl, inr ((eq_iff u g).0 same))
      | inr other ↦ Names-cons g required (is_in_group→Names required (ground arith))
    ]
  ]

  Names→is_in_group :
      (required : List String) → Names u gs required → is_in_group u gs required ≡ true
  unfolding is_in_group Names
  Names→is_in_group [] (x, listed_x, held) = cc
  Names→is_in_group (g ∷ required) (x, listed_x, held) = ground (
    arith,
    eq_iff x g,
    eq_iff u g,
    λ (p : elem x required ≡ true). Names→is_in_group required (x, p, held),
  )

  has-eq :
      (r : Right) (c : Config)
      → has r c u gs ≡ (
          is_application_admin c.application_admin u gs
          || (is_in_group u gs (listed c "groups.can_admin" "dynamic_config.groups.can_admin")
              || is_in_group u gs (granted r c)))
  unfolding can_admin_all can_create_roles can_admin_policies can_delete_iam_principals
      can_edit_dynamic_config can_edit_attributes can_modify_members can_edit_sensitive_attributes
  has-eq admin_all c = ground arith
  has-eq edit_attributes c = ground (
    arith,
    is_in_group-append
        (listed c "groups.can_admin_restricted" "dynamic_config.groups.can_admin_restricted")
        (listed c "groups.can_edit_attributes" "dynamic_config.groups.can_edit_attributes"),
  )
  has-eq modify_members c = ground (
    arith,
    is_in_group-append
        (listed c "groups.can_admin_restricted" "dynamic_config.groups.can_admin_restricted")
        (listed c "groups.can_modify_members" "dynamic_config.groups.can_modify_members"),
  )
  has-eq _ c = ground arith

  in_group_iff : (required : List String) → (is_in_group u gs required ≡ true) ↔ Names u gs required
  in_group_iff required = (is_in_group→Names required, Names→is_in_group required)

or_iff :
    (a b d : Bool) {P Q : Type 0}
    → (b ≡ true) ↔ P
    → (d ≡ true) ↔ Q
    → ((a || (b || d)) ≡ true) ↔ ((a ≡ true) ⊎ (P ⊎ Q))
or_iff true b d p q = (λ h. inl refl, λ h. refl)
or_iff false true d p q = (λ h. inr (inl (p.0 refl)), λ h. refl)
or_iff false false d p q = (
  λ h. inr (inr (q.0 h)),
  λ h. elim h [ inl e ↦ cc | inr rest ↦ elim rest [ inl x ↦ cc (p.1 x) | inr y ↦ q.1 y ] ],
)

-- Exactly who has a right: the application administrator or a member of that group; a user who is, or
-- has a group, on the administrators' lists; and one who is, or has a group, on the lists of the right.
pub has_iff :
    (r : Right) (c : Config) (u : String) (gs : List String)
    → (has r c u gs ≡ true) ↔ (
        (is_application_admin c.application_admin u gs ≡ true)
        ⊎ (Names u gs (listed c "groups.can_admin" "dynamic_config.groups.can_admin")
            ⊎ Names u gs (granted r c)))
has_iff r c u gs = rw has-eq (
    or_iff (is_application_admin c.application_admin u gs) _ _
      (in_group_iff u gs (listed c "groups.can_admin" "dynamic_config.groups.can_admin"))
      (in_group_iff u gs (granted r c)))

Names-append :
    (u : String) (gs more list : List String) → Names u gs list → Names u (gs ++ more) list
unfolding Names
Names-append u gs more list (g, on_list, inl held) =
    (g, on_list, inl (rw elem-append (rw held refl)))
Names-append u gs more list (g, on_list, inr same) = (g, on_list, inr same)

is_application_admin-append :
    (c : Config) (u : String) (gs more : List String)
    → is_application_admin c.application_admin u gs ≡ true
    → is_application_admin c.application_admin u (gs ++ more) ≡ true
unfolding is_application_admin
is_application_admin-append c u gs more h = elim (Option-cases c.application_admin) [
  | inl unset ↦ ground arith
  | inr (admin, e) ↦ rw e (ground (arith, elem-append admin gs more))
]

-- Membership in more groups never takes a right away.
has_mono :
    (r : Right) (c : Config) (u : String) (gs more : List String)
    → has r c u gs ≡ true
    → has r c u (gs ++ more) ≡ true
has_mono r c u gs more h = (has_iff r c u (gs ++ more)).1 (elim ((has_iff r c u gs).0 h) [
  | inl admin ↦ inl (is_application_admin-append c u gs more admin)
  | inr (inl on) ↦ inr (inl (Names-append u gs more _ on))
  | inr (inr on) ↦ inr (inr (Names-append u gs more _ on))
])
