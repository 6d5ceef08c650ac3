-- ===== src/Credentials/Reverse.antt =====
-- The reverse mapping, from roles to the users and groups that have them.
use consoleme.Base.{
  String, ◌≡◌, Bool, ◌&&◌, ◌||◌, none, some, List, [], ◌∷◌, ◌++◌, arith, any, elem, elem-append,
  str_eq, eq_iff, Dict, lookup, insert, lookup-insert, lower, fstring,
}
use consoleme.Credentials.{
  Roles, Mapping, append_each, reverse_from, reverse_mapping, determine_role_authorized_groups,
}

-- The entry of a dictionary of lists, which is empty where there is none.
abbrev pub entry : String → Dict (List String) → List String
entry key d = elim (lookup key d) [ none ↦ [] | some ids ↦ ids ]

-- One of these roles has this name, but for the case of its letters.
abbrev pub named : String → List String → Bool
named key = any (λ r. str_eq key (lower r))

elem-append_each :
    (key x identity : String) (rs : List String) (d : Dict (List String))
    → elem x (entry key (append_each identity rs d))
      ≡ (elem x (entry key d) || (str_eq x identity && named key rs))
unfolding append_each
elem-append_each key x identity [] d = ground arith
elem-append_each key x identity (r ∷ rs) d =
    let ids = entry (lower r) d ++ identity ∷ [] in
    ground (
      arith,
      elem-append_each key x identity rs (insert (lower r) ids d),
      lookup-insert key (lower r) ids d,
      eq_iff key (lower r),
      elem-append x (entry (lower r) d) (identity ∷ []),
    )

-- An entry of the mapping has a role of this name, of either kind.
abbrev pub holds : (key x : String) → String × Roles → Bool
holds key x (identity, r) =
    str_eq x identity && (named key r.authorized_roles || named key r.authorized_roles_cli_only)

elem-reverse_from :
    (key x : String) (m : Mapping) (d : Dict (List String))
    → elem x (entry key (reverse_from m d)) ≡ (elem x (entry key d) || any (holds key x) m)
unfolding reverse_from
elem-reverse_from key x [] d = ground arith
elem-reverse_from key x ((identity, r) ∷ m) d =
    let d' = append_each identity r.authorized_roles d in
    ground (
      arith,
      elem-reverse_from key x m (append_each identity r.authorized_roles_cli_only d'),
      elem-append_each key x identity r.authorized_roles_cli_only d',
      elem-append_each key x identity r.authorized_roles d,
    )

-- The groups that the audit names for a role are exactly those whose entry in the mapping has a role of this
-- arn, of either kind, but for the case of its letters.
pub determine_role_authorized_groups_lem :
    (m : Mapping) (account_id role_name x : String)
    → elem x (determine_role_authorized_groups (reverse_mapping m) account_id role_name)
      ≡ any (holds (fstring ("arn:aws:iam::" ∷ account_id ∷ ":role/" ∷ lower role_name ∷ [])) x) m
unfolding determine_role_authorized_groups reverse_mapping
determine_role_authorized_groups_lem m account_id role_name x = elem-reverse_from _ x m []
