-- ===== src/Requests/Grants/Added.antt =====
-- That the new statement of a policy comes behind the present ones.
use consoleme.Base.{String, ◌≡◌, refl, inl, inr, Option, none, some, Bool-cases, str_eq}
use consoleme.Json.{Json, Items, Fields, end, field, get}
use consoleme.Requests.World.{ok}
use consoleme.Statements.{statements, iterated}
use consoleme.Requests.Stubs.Foreign.{Returns}
use consoleme.Requests.Grants.{append, replace, with_statement, generate_updated_resource_policy}

get-replace :
    (k : String) (v w : Json) (fs : Fields) → get k fs ≡ some w → get k (replace k v fs) ≡ some v
unfolding get replace
get-replace k v w end h = cc
get-replace k v w (field j x fs) h = elim (Bool-cases (str_eq k j)) [
  | inl same ↦ rw (same, same) refl
  | inr other ↦ rw (other, other) (get-replace k v w fs (rw other at h))
]

-- The new document has the statements of the old one, and this one behind them.
pub record HasAdded (st old new : Json) : Type 0 where
  pub present : Items
  pub of_old : statements old ≡ ok present
  pub of_new : statements new ≡ ok (append present st)

with_statement-HasAdded :
    (st : Json) (fs : Fields) (o : Option Json)
    → get "Statement" fs ≡ o
    → Returns (HasAdded st (Json.object fs)) (with_statement fs st o)
unfolding statements iterated
with_statement-HasAdded st fs (some (Json.array xs)) h = record {
  present = xs;
  of_old = rw (h, statements) refl;
  of_new =
      rw (get-replace "Statement" (Json.array (append xs st)) (Json.array xs) fs h, statements)
        refl;
}
with_statement-HasAdded st fs none h = tt
with_statement-HasAdded st fs (some Json.null) h = tt
with_statement-HasAdded st fs (some (Json.boolean b)) h = tt
with_statement-HasAdded st fs (some (Json.number n)) h = tt
with_statement-HasAdded st fs (some (Json.text t)) h = tt
with_statement-HasAdded st fs (some (Json.object gs)) h = tt

pub generate_updated_resource_policy-HasAdded :
    (old st : Json) → Returns (HasAdded st old) (generate_updated_resource_policy old st)
unfolding generate_updated_resource_policy
generate_updated_resource_policy-HasAdded (Json.object fs) st =
    with_statement-HasAdded st fs (get "Statement" fs) refl
generate_updated_resource_policy-HasAdded Json.null st = tt
generate_updated_resource_policy-HasAdded (Json.boolean b) st = tt
generate_updated_resource_policy-HasAdded (Json.number n) st = tt
generate_updated_resource_policy-HasAdded (Json.text t) st = tt
generate_updated_resource_policy-HasAdded (Json.array xs) st = tt
