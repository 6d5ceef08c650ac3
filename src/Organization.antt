-- ===== src/Organization.antt =====
-- consoleme/lib/aws.py: the place of an account in its AWS organization (_is_member_of_ou,
-- get_organizational_units_for_account) and the service control policies for it
-- (_scp_targets_account_or_ou, get_scps_for_account_or_ou).
pub mod Chains
pub mod Covered
mod Tests
use consoleme.Base.{
  String, Bool, true, false, ◌||◌, List, [], ◌∷◌, ◌++◌, str_eq, elem, any, if◌then◌else◌,
}

-- An entry of `get_org_structure()`: its `Id`, `Type` and `Children`.
mutual
  pub data Ou : Type 0 where
    node : (id type : String) → Children → Ou

  pub data Children : Type 0 where
    nil : Children
    cons : Ou → Children → Children

unfoldable pub id_of : Ou → String
id_of (node id type cs) = id

unfoldable pub type_of : Ou → String
type_of (node id type cs) = type

-- `_is_member_of_ou`: whether the account or unit is below this one, and the ids of the units down to it. The
-- loop over the children has the `ou_path` so far.
unfoldable mutual
  unfolding id_of type_of

  pub is_member_of_ou : String → Ou → Bool × List String
  is_member_of_ou x (node id type cs) = search_children x id [] cs

  pub search_children :
      String → (id : String) → (ou_path : List String) → Children → Bool × List String
  search_children x id path nil = (false, path)
  search_children x id path (cons c cs) =
      let below = is_member_of_ou x c in
      let rest = search_children x id path cs in
      let rest_below = search_children x id below.1 cs in
      if str_eq (id_of c) x
      then (true, id ∷ path)
      else if str_eq (type_of c) "ORGANIZATIONAL_UNIT"
      then if below.0 then (true, id ∷ below.1) else rest_below
      else rest

-- `get_organizational_units_for_account`: the loop over the organizations that `get_org_structure()` gives.
unfoldable pub search_organizations :
    String → (organizational_units : List String) → List Ou → List String
unfolding is_member_of_ou
search_organizations x units [] = units
search_organizations x units (o ∷ os) =
    let found = is_member_of_ou x o in
    let rest = search_organizations x found.1 os in if found.0 then found.1 else rest

unfoldable pub get_organizational_units_for_account : List Ou → String → List String
unfolding search_organizations
get_organizational_units_for_account orgs x = search_organizations x [] orgs

-- `ServiceControlPolicyModel`: its id and the ids of its targets.
pub record Scp : Type 0 where
  pub id : String
  pub targets : List String

unfoldable pub scp_targets_account_or_ou : Scp → String → List String → Bool
scp_targets_account_or_ou scp x units = any (λ t. str_eq t x || elem t units) scp.targets

-- The loop over the policies of an organization.
unfoldable pub scps_of : String → List String → List Scp → List Scp
scps_of x units [] = []
scps_of x units (s ∷ ss) =
    let rest = scps_of x units ss in if scp_targets_account_or_ou s x units then s ∷ rest else rest

unfoldable pub scps_of_all : String → List String → List (List Scp) → List Scp
scps_of_all x units [] = []
scps_of_all x units (ss ∷ sss) = scps_of x units ss ++ scps_of_all x units sss

-- `get_scps_for_account_or_ou`, with what `get_org_structure()` and `get_all_scps()` give.
unfoldable pub get_scps_for_account_or_ou : List Ou → List (List Scp) → String → List Scp
get_scps_for_account_or_ou orgs scps x =
    scps_of_all x (get_organizational_units_for_account orgs x) scps
