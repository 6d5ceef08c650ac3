-- ===== src/Base/Lists.antt =====
-- Lists measured by native numbers, predicates on their items, and lists of texts read as sets.
use Prim.Native.Nat.{ℕ, suc}
use Prim.Native.String.{String}
use mathlib.Core.Path.{◌≡◌, refl}
use mathlib.Core.Logic.{◌↔◌, ◌⊎◌, inl, inr}
use consoleme.Base.Tests.{Bool-cases}
use mathlib.Core.Bool.{Bool, true, false, ◌||◌}
use mathlib.Core.List.{List, [], ◌∷◌, ◌++◌}
use native.Mathlib.Omega.{arith}
use text.Mathlib.Text.{◌==◌}

module _ {ℓ} {A : Type ℓ} where
  abbrev pub length : List A → ℕ
  length [] = 0
  length (x ∷ xs) = suc (length xs)

  abbrev pub any : (A → Bool) → List A → Bool
  any p [] = false
  any p (x ∷ xs) = p x || any p xs

module _ {ℓ κ} {A : Type ℓ} where
  abbrev pub All : (A → Type κ) → List A → Type κ
  All P [] = Unit
  All P (x ∷ xs) = P x × All P xs

module _ {ℓ} {A : Type ℓ} where
  abbrev pub Some : (A → Type 0) → List A → Type 0
  Some P [] = ⊥
  Some P (x ∷ xs) = P x ⊎ Some P xs

module _ {ℓ} {A : Type ℓ} (p : A → Bool) where
  pub any_iff : (xs : List A) → (any p xs ≡ true) ↔ Some (λ x. p x ≡ true) xs
  any_iff [] = (λ h. cc, λ h. elim h [ ])
  any_iff (x ∷ xs) = (
    λ h. elim (Bool-cases (p x)) [ inl e ↦ inl e | inr e ↦ inr ((any_iff xs).0 (rw e at h)) ],
    λ h. elim h [ inl e ↦ rw e refl | inr rest ↦ ground (arith, (any_iff xs).1 rest) ],
  )

  pub not_any_iff : (xs : List A) → (any p xs ≡ false) ↔ All (λ x. p x ≡ false) xs
  not_any_iff [] = (λ h. tt, λ h. refl)
  not_any_iff (x ∷ xs) =
      (λ h. (ground arith, (not_any_iff xs).0 (ground arith)), λ h. rw h.0 ((not_any_iff xs).1 h.1))

pub any_cong {ℓ} :
    {A : Type ℓ} (p q : A → Bool) → ((x : A) → p x ≡ q x) → (xs : List A) → any p xs ≡ any q xs
any_cong p q h [] = refl
any_cong p q h (x ∷ xs) = ground (arith, h x, any_cong p q h xs)

-- `x in xs`, for a list of texts.
abbrev pub elem : String → List String → Bool
elem x [] = false
elem x (y ∷ ys) = (x == y) || elem x ys

pub elem-append : (x : String) (xs ys : List String) → elem x (xs ++ ys) ≡ (elem x xs || elem x ys)
elem-append x [] ys = refl
elem-append x (y ∷ xs) ys = ground (arith, elem-append x xs ys)

module _ {A : Type 0} where
  pub All-map : (P Q : A → Type 0) → ((a : A) → P a → Q a) → (xs : List A) → All P xs → All Q xs
  All-map P Q f [] h = tt
  All-map P Q f (x ∷ xs) h = (f x h.0, All-map P Q f xs h.1)
