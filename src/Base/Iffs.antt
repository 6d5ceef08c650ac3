-- ===== src/Base/Iffs.antt =====
-- Equivalences of conditions, put together.
use mathlib.Core.Path.{◌≡◌, refl}
use mathlib.Core.Logic.{◌↔◌, ◌⊎◌, inl, inr}
use mathlib.Core.Bool.{Bool, true, false, ◌||◌}

pub iff_trans : {P Q R : Type 0} → P ↔ Q → Q ↔ R → P ↔ R
iff_trans h k = (λ x. k.0 (h.0 x), λ x. h.1 (k.1 x))

pub and_map : {P Q P' Q' : Type 0} → P ↔ P' → Q ↔ Q' → (P × Q) ↔ (P' × Q')
and_map p q = (λ (h, k). (p.0 h, q.0 k), λ (h, k). (p.1 h, q.1 k))

pub or_map : {P Q P' Q' : Type 0} → P ↔ P' → Q ↔ Q' → (P ⊎ Q) ↔ (P' ⊎ Q')
or_map p q = (
  λ h. elim h [ inl x ↦ inl (p.0 x) | inr y ↦ inr (q.0 y) ],
  λ h. elim h [ inl x ↦ inl (p.1 x) | inr y ↦ inr (q.1 y) ],
)

pub iff_refl : {P : Type 0} → P ↔ P
iff_refl = (λ x. x, λ x. x)

pub or_true_iff : (a b : Bool) → ((a || b) ≡ true) ↔ ((a ≡ true) ⊎ (b ≡ true))
or_true_iff true b = (λ h. inl refl, λ h. refl)
or_true_iff false b = (λ h. inr h, λ h. elim h [ inl e ↦ cc | inr e ↦ e ])
