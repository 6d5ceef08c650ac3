-- ===== src/Requests/Pairs.antt =====
-- The changes of a request before and after an operation, one beside the other.
use consoleme.Base.{◌≡◌, refl, ◌∙◌, ◌⊎◌, inl, inr, true, false, Bool-cases, List, [], ◌∷◌}
use consoleme.Models.{Change, is_applied}

abbrev pub Pairs : (Change → Change → Type 0) → List Change → List Change → Type 0
Pairs R [] [] = Unit
Pairs R (c ∷ cs) (d ∷ ds) = R c d × Pairs R cs ds
Pairs R _ _ = ⊥

-- Ids stay, and a change that is applied is a historical record: nothing of it changes any more.
abbrev pub Frozen : Change → Change → Type 0
Frozen c d = (d.id ≡ c.id) × (is_applied c.status ≡ true → d ≡ c)

-- The same, without a premise: the change was not applied, or it is as it was.
abbrev pub Preserved : Change → Change → Type 0
Preserved c d = (d.id ≡ c.id) × ((is_applied c.status ≡ false) ⊎ (d ≡ c))

module _ (R : Change → Change → Type 0) where
  pub Pairs-refl : ((c : Change) → R c c) → (cs : List Change) → Pairs R cs cs
  Pairs-refl h [] = tt
  Pairs-refl h (c ∷ cs) = (h c, Pairs-refl h cs)

  pub Pairs-trans :
      ((a b c : Change) → R a b → R b c → R a c)
      → (xs ys zs : List Change) → Pairs R xs ys
      → Pairs R ys zs
      → Pairs R xs zs
  Pairs-trans t [] [] zs h k = k
  Pairs-trans t (x ∷ xs) (y ∷ ys) (z ∷ zs) h k = (t x y z h.0 k.0, Pairs-trans t xs ys zs h.1 k.1)
  Pairs-trans t [] (y ∷ ys) zs h k = elim h [ ]
  Pairs-trans t (x ∷ xs) [] zs h k = elim h [ ]
  Pairs-trans t (x ∷ xs) (y ∷ ys) [] h k = elim k [ ]

pub Frozen-refl : (c : Change) → Frozen c c
Frozen-refl c = (refl, λ _. refl)

pub Frozen-trans : (a b c : Change) → Frozen a b → Frozen b c → Frozen a c
Frozen-trans a b c h k = (k.0 ∙ h.0, λ p. k.1 (rw (h.1 p) p) ∙ h.1 p)

pub Pairs-map :
    (R S : Change → Change → Type 0)
    → ((c d : Change) → R c d → S c d)
    → (xs ys : List Change) → Pairs R xs ys
    → Pairs S xs ys
Pairs-map R S f [] [] h = tt
Pairs-map R S f (x ∷ xs) (y ∷ ys) h = (f x y h.0, Pairs-map R S f xs ys h.1)
Pairs-map R S f [] (y ∷ ys) h = h
Pairs-map R S f (x ∷ xs) [] h = h

Frozen→Preserved : (c d : Change) → Frozen c d → Preserved c d
Frozen→Preserved c d (i, h) =
    (i, elim (Bool-cases (is_applied c.status)) [ inl p ↦ inr (h p) | inr p ↦ inl p ])

pub all-Preserved : (xs ys : List Change) → Pairs Frozen xs ys → Pairs Preserved xs ys
all-Preserved xs ys h = Pairs-map Frozen Preserved Frozen→Preserved xs ys h
