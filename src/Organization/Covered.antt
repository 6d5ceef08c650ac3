-- ===== src/Organization/Covered.antt =====
-- Which units an account has, and which service control policies are for it.
use consoleme.Base.{
  String, ◌≡◌, ◌↔◌, Bool, true, false, ◌||◌, List, [], ◌∷◌, ◌++◌, str_eq, elem, inl, inr, iff_trans,
  iff_refl, or_map, or_true_iff, eq_iff, sym, Bool-cases, Some, any_iff, ◌⊎◌, if◌then◌else◌,
}
use consoleme.Organization.{
  Ou, is_member_of_ou, search_organizations, get_organizational_units_for_account, Scp,
  scp_targets_account_or_ou, scps_of, scps_of_all, get_scps_for_account_or_ou,
}
use consoleme.Organization.Chains.{Chain, Lies, Placed, found, absent, is_member_of_ou-Placed}

-- The units of an account: those on a way down to it in the first organization that has one, or none.
pub data Located (x : String) : List Ou → List String → Type 0 where
  nowhere : Located x [] []
  first : {o : Ou} {os : List Ou} {p : List String} → Chain x o p → Located x (o ∷ os) p
  next :
      {o : Ou} {os : List Ou} {p : List String} → ¬ Lies x o → Located x os p → Located x (o ∷ os) p

located :
    (x : String) (o : Ou) (os : List Ou) (r : Bool × List String)
    → Placed x o r
    → Located x os (search_organizations x [] os)
    → Located x (o ∷ os) (if r.0 then r.1 else search_organizations x r.1 os)
located x o os (true, _) (found c) rest = first c
located x o os (false, _) (absent not_below) rest = next not_below rest

searched : (x : String) (orgs : List Ou) → Located x orgs (search_organizations x [] orgs)
unfolding search_organizations
searched x [] = nowhere
searched x (o ∷ os) =
    located x o os (is_member_of_ou x o) (is_member_of_ou-Placed x o) (searched x os)

-- The units of an account or unit are those on a way down to it in the first organization in which there is
-- one. If there is none in any, it has no units.
get_organizational_units_for_account-Located :
    (orgs : List Ou) (x : String) → Located x orgs (get_organizational_units_for_account orgs x)
unfolding get_organizational_units_for_account
get_organizational_units_for_account-Located orgs x = searched x orgs

-- A policy names the account, or one of these units, among its targets.
abbrev pub Covers : String → List String → Scp → Type 0
Covers x units s = Some (λ t. (t ≡ x) ⊎ Some (λ u. u ≡ t) units) s.targets

elem_iff : (t : String) (us : List String) → (elem t us ≡ true) ↔ Some (λ u. u ≡ t) us
elem_iff t [] = (λ h. cc, λ h. elim h [ ])
elem_iff t (u ∷ us) =
    iff_trans (or_true_iff (str_eq t u) (elem t us))
      (or_map (iff_trans (eq_iff t u) (sym, sym)) (elem_iff t us))

covers_iff :
    (x : String) (units ts : List String)
    → Some (λ t. (str_eq t x || elem t units) ≡ true) ts
      ↔ Some (λ t. (t ≡ x) ⊎ Some (λ u. u ≡ t) units) ts
covers_iff x units [] = iff_refl
covers_iff x units (t ∷ ts) =
    or_map
      (iff_trans (or_true_iff (str_eq t x) (elem t units)) (or_map (eq_iff t x) (elem_iff t units)))
      (covers_iff x units ts)

module _ (x : String) (units : List String) (s : Scp) where
  scp_targets_account_or_ou_iff : (scp_targets_account_or_ou s x units ≡ true) ↔ Covers x units s
  unfolding scp_targets_account_or_ou
  scp_targets_account_or_ou_iff =
      iff_trans (any_iff (λ t. str_eq t x || elem t units) s.targets) (covers_iff x units s.targets)

  abbrev pub Among : List Scp → Type 0
  Among ss = Some (λ t. t ≡ s) ss

  append_iff : (xs ys : List Scp) → Among (xs ++ ys) ↔ (Among xs ⊎ Among ys)
  append_iff [] ys = (λ h. inr h, λ h. elim h [ inl e ↦ elim e [ ] | inr h ↦ h ])
  append_iff (y ∷ xs) ys = (
    λ h. elim h [
      | inl e ↦ inl (inl e)
      | inr h ↦ elim ((append_iff xs ys).0 h) [ inl k ↦ inl (inr k) | inr k ↦ inr k ]
    ],
    λ h. elim h [
      | inl k ↦ elim k [ inl e ↦ inl e | inr k ↦ inr ((append_iff xs ys).1 (inl k)) ]
      | inr k ↦ inr ((append_iff xs ys).1 (inr k))
    ],
  )

  scps_of_iff : (ss : List Scp) → Among (scps_of x units ss) ↔ (Among ss × Covers x units s)
  unfolding scps_of
  scps_of_iff [] = (λ h. elim h [ ], λ h. elim h.0 [ ])
  scps_of_iff (t ∷ ss) = elim (Bool-cases (scp_targets_account_or_ou t x units)) [
    | inl e ↦ rw e (
      λ h. elim h [
        | inl p ↦ (inl p, scp_targets_account_or_ou_iff.0 (rw p at e))
        | inr k ↦ (inr ((scps_of_iff ss).0 k).0, ((scps_of_iff ss).0 k).1)
      ],
      λ h. elim h.0 [ inl p ↦ inl p | inr k ↦ inr ((scps_of_iff ss).1 (k, h.1)) ],
    )
    | inr e ↦ rw e (
      λ h. (inr ((scps_of_iff ss).0 h).0, ((scps_of_iff ss).0 h).1),
      λ h. elim h.0 [
        | inl p ↦ cc (rw p at e, scp_targets_account_or_ou_iff.1 h.1)
        | inr k ↦ (scps_of_iff ss).1 (k, h.1)
      ],
    )
  ]

  scps_of_all_iff :
      (sss : List (List Scp))
      → Among (scps_of_all x units sss) ↔ (Some (λ ss. Among ss) sss × Covers x units s)
  unfolding scps_of_all
  scps_of_all_iff [] = (λ h. elim h [ ], λ h. elim h.0 [ ])
  scps_of_all_iff (ss ∷ sss) = (
    λ h. elim ((append_iff _ _).0 h) [
      | inl k ↦ (inl ((scps_of_iff ss).0 k).0, ((scps_of_iff ss).0 k).1)
      | inr k ↦ (inr ((scps_of_all_iff sss).0 k).0, ((scps_of_all_iff sss).0 k).1)
    ],
    λ h. (append_iff _ _).1 (elim h.0 [
      | inl k ↦ inl ((scps_of_iff ss).1 (k, h.1))
      | inr k ↦ inr ((scps_of_all_iff sss).1 (k, h.1))
    ]),
  )

-- The answer about an account or unit: the policies of any organization that name it, or one of its units,
-- and only these. Its units are those on a way down to it in the first organization in which there is one.
pub record IsGathered (orgs : List Ou) (scps : List (List Scp)) (x : String) (answer : List Scp)
    : Type 0 where
  pub units : List String
  pub are_located : Located x orgs units
  pub has :
      (s : Scp)
      → Some (λ t. t ≡ s) answer ↔ (Some (λ ss. Some (λ t. t ≡ s) ss) scps × Covers x units s)

-- The service control policies for an account or unit are exactly those of any organization that have it, or
-- one of its units, among their targets; its units are those on a way down to it in the first organization
-- in which there is one, and none, if there is none in any.
pub get_scps_for_account_or_ou-IsGathered :
    (orgs : List Ou) (scps : List (List Scp)) (x : String)
    → IsGathered orgs scps x (get_scps_for_account_or_ou orgs scps x)
unfolding get_scps_for_account_or_ou
get_scps_for_account_or_ou-IsGathered orgs scps x = record {
  units = get_organizational_units_for_account orgs x;
  are_located = get_organizational_units_for_account-Located orgs x;
  has = λ s. scps_of_all_iff x (get_organizational_units_for_account orgs x) s scps;
}
