-- ===== src/Requests/Role/Untouched.antt =====
-- What `apply_changes_to_role` leaves alone.
use consoleme.Base.{
  String, ◌≡◌, ◌⊎◌, refl, inl, inr, Bool, true, false, ◌||◌, Option, List, [], ◌∷◌, arith,
  Bool-cases,
}
use consoleme.Models.{Detail, assume_role_policy, Change, Arn, change_type, is_applied}
use consoleme.Requests.World.{Env, Work, Result, ok, raised}
use consoleme.Requests.Pairs.{Pairs, Pairs-refl}
use consoleme.Requests.Role.{is_skipped, settle, apply_detail, apply_one, apply_each, and_then}

-- A change keeps its id and its type, and one that is applied already, or that another id was asked for,
-- is not touched at all.
abbrev pub Leaves : Option String → Change → Change → Type 0
Leaves specific c d =
    (d.id ≡ c.id)
    × (change_type d.detail ≡ change_type c.detail)
    × (((is_applied c.status || is_skipped specific c.id) ≡ false) ⊎ (d ≡ c))

abbrev SameType : Detail → Result (Detail × Bool) × Work → Type 0
SameType d (ok (d', done), w) = change_type d' ≡ change_type d
SameType d (raised err, w) = Unit

abbrev Left : Option String → Change → Result Change × Work → Type 0
Left specific c (ok d, w) = Leaves specific c d
Left specific c (raised err, w) = Unit

settle-Left :
    (specific : Option String) (c : Change) (r : Result (Detail × Bool) × Work)
    → SameType c.detail r
    → (is_applied c.status || is_skipped specific c.id) ≡ false
    → Left specific c (settle c r)
settle-Left specific c (ok (d, true), w) h open_change = (refl, h, inl open_change)
settle-Left specific c (ok (d, false), w) h open_change = (refl, h, inl open_change)
settle-Left specific c (raised err, w) h open_change = tt

module _ (e : Env) (auto : Bool) (a : Arn) (name : String) (specific : Option String) where
  apply_detail-SameType :
      (c : Change) (d : Detail) (w : Work) → SameType d (apply_detail e auto a name c d w)
  unfolding apply_detail
  apply_detail-SameType c (assume_role_policy ch) w = ground arith
  apply_detail-SameType c _ w = refl

  apply_one-Left : (c : Change) (w : Work) → Left specific c (apply_one e auto a name specific c w)
  unfolding apply_one
  apply_one-Left c w = elim (Bool-cases (is_applied c.status || is_skipped specific c.id)) [
    | inl closed ↦ rw closed (refl, refl, inr refl)
    | inr open_change ↦
        rw open_change (settle-Left specific c _ (apply_detail-SameType c c.detail w) open_change)
  ]

  and_then-Leaves :
      (c : Change) (cs : List Change) (p : Result Change × Work)
      (k : Work → Result (Unit {0}) × List Change × Work)
      → Left specific c p
      → ((w : Work) → Pairs (Leaves specific) cs (k w).1)
      → Pairs (Leaves specific) (c ∷ cs) (and_then c cs p k).1
  unfolding and_then
  and_then-Leaves c cs (ok d, w) k h ih = (h, ih w)
  and_then-Leaves c cs (raised err, w) k h ih =
      Pairs-refl (Leaves specific) (λ x. (refl, refl, inr refl)) (c ∷ cs)

  -- Whether or not an exception ends it, the loop keeps the number and order of the changes, their ids
  -- and types, and leaves alone what is applied already and what was not asked for.
  pub apply_each-Leaves :
      (cs : List Change) (w : Work)
      → Pairs (Leaves specific) cs (apply_each e auto a name specific cs w).1
  unfolding apply_each
  apply_each-Leaves [] w = tt
  apply_each-Leaves (c ∷ cs) w =
      and_then-Leaves c cs (apply_one e auto a name specific c w)
        (apply_each e auto a name specific cs) (apply_one-Left c w) (apply_each-Leaves cs)
