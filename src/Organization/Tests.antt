-- ===== src/Organization/Tests.antt =====
-- The lookups of lib/aws.py on a small organization.
use consoleme.Base.{◌≡◌, refl, String, true, List, [], ◌∷◌}
use consoleme.Organization.{
  Ou, node, nil, cons, id_of, type_of, is_member_of_ou, search_children, search_organizations,
  get_organizational_units_for_account, Scp, scp_targets_account_or_ou, scps_of, scps_of_all,
  get_scps_for_account_or_ou,
}
use consoleme.Organization.Chains.{Placed, is_member_of_ou-Placed}
use consoleme.Organization.Covered.{IsGathered, get_scps_for_account_or_ou-IsGathered}

abbrev account : String → Ou
account id = node id "ACCOUNT" nil

abbrev unit : String → Ou
unit id =
    node id "ORGANIZATIONAL_UNIT"
      (cons (account "111111111111") (cons (account "222222222222") nil))

abbrev root : Ou
root = node "r-1" "ROOT" (
    cons (account "333333333333")
      (cons (node "ou-1" "ORGANIZATIONAL_UNIT" nil) (cons (unit "ou-2") nil)))

abbrev scps : List (List Scp)
scps =
    (record { id = "p-1"; targets = "ou-1" ∷ [] }
      ∷ record { id = "p-2"; targets = "ou-1" ∷ "ou-2" ∷ [] }
      ∷ [])
    ∷ (record { id = "p-3"; targets = "222222222222" ∷ [] } ∷ [])
    ∷ []

found_below : is_member_of_ou "222222222222" root ≡ (true, "r-1" ∷ "ou-2" ∷ [])
unfolding is_member_of_ou search_children id_of type_of
found_below = refl

two_policies :
    get_scps_for_account_or_ou (root ∷ []) scps "222222222222"
    ≡ record { id = "p-2"; targets = "ou-1" ∷ "ou-2" ∷ [] }
      ∷ record { id = "p-3"; targets = "222222222222" ∷ [] }
      ∷ []
unfolding get_scps_for_account_or_ou get_organizational_units_for_account scps_of_all scps_of
    scp_targets_account_or_ou search_organizations is_member_of_ou search_children id_of type_of
two_policies = refl

is_member_of_ou-Placed_example : Placed "222222222222" root (is_member_of_ou "222222222222" root)
is_member_of_ou-Placed_example = is_member_of_ou-Placed "222222222222" root

get_scps_for_account_or_ou-IsGathered_example :
    IsGathered
      (root ∷ [])
      scps
      "222222222222"
      (get_scps_for_account_or_ou (root ∷ []) scps "222222222222")
get_scps_for_account_or_ou-IsGathered_example =
    get_scps_for_account_or_ou-IsGathered (root ∷ []) scps "222222222222"
