-- ===== src/Requests/Frozen.antt =====
-- A change that is applied is a historical record. What the helpers of a command may do to the changes of
-- a request, the one that the command names set apart.
pub mod Helpers
pub mod Rules
pub mod Branches
pub mod Commands
use consoleme.Base.{
  String, ◌≡◌, refl, ◌∙◌, inl, inr, Bool, true, false, Option, none, some, List, [], ◌∷◌, arith,
  str_eq, Bool-cases, if◌then◌else◌,
}
use consoleme.Models.{Status, Change, is_applied, is_not_applied}
use consoleme.Requests.Pairs.{Pairs, Frozen, Pairs-refl, Pairs-trans, Frozen-refl, Frozen-trans}
use consoleme.Requests.Select.{get_specific_change, update_specific}

-- Applied changes stay as they are, but for the first one with this id.
abbrev pub Spares : String → List Change → List Change → Type 0
Spares id [] [] = Unit
Spares id (c ∷ cs) (d ∷ ds) = (d.id ≡ c.id) × elim (str_eq c.id id) [
  | true ↦ Pairs Frozen cs ds
  | false ↦ (is_applied c.status ≡ true → d ≡ c) × Spares id cs ds
]
Spares id _ _ = ⊥

module _ (id : String) where
  pub Spares-refl : (cs : List Change) → Spares id cs cs
  Spares-refl [] = tt
  Spares-refl (c ∷ cs) = elim (Bool-cases (str_eq c.id id)) [
    | inl h ↦ (refl, rw h (Pairs-refl Frozen Frozen-refl cs))
    | inr h ↦ (refl, rw h (λ _. refl, Spares-refl cs))
  ]

  pub Frozen→Spares : (cs ds : List Change) → Pairs Frozen cs ds → Spares id cs ds
  Frozen→Spares [] [] h = tt
  Frozen→Spares (c ∷ cs) (d ∷ ds) (h, hs) = elim (Bool-cases (str_eq c.id id)) [
    | inl e ↦ (h.0, rw e hs)
    | inr e ↦ (h.0, rw e (h.1, Frozen→Spares cs ds hs))
  ]
  Frozen→Spares [] (d ∷ ds) h = h
  Frozen→Spares (c ∷ cs) [] h = h

  pub Spares-trans : (xs ys zs : List Change) → Spares id xs ys → Spares id ys zs → Spares id xs zs
  Spares-trans [] [] zs h k = k
  Spares-trans (x ∷ xs) (y ∷ ys) (z ∷ zs) (i, h) (j, k) = elim (Bool-cases (str_eq x.id id)) [
    | inl e ↦ (j ∙ i, rw e (Pairs-trans Frozen Frozen-trans xs ys zs (rw e at h) (rw (i, e) at k)))
    | inr e ↦
        let (p, hs) = rw e at h in
        let (q, ks) = rw (i, e) at k in
        (j ∙ i, rw e (λ a. q (rw (p a) a) ∙ p a, Spares-trans xs ys zs hs ks))
  ]
  Spares-trans [] (y ∷ ys) zs h k = elim h [ ]
  Spares-trans (x ∷ xs) [] zs h k = elim h [ ]
  Spares-trans (x ∷ xs) (y ∷ ys) [] h k = elim k [ ]

  pub update_specific-Spares :
      (f : Change → Change)
      → ((c : Change) → (f c).id ≡ c.id)
      → (cs : List Change) → Spares id cs (update_specific id f cs)
  unfolding update_specific
  update_specific-Spares f h [] = tt
  update_specific-Spares f h (c ∷ cs) = elim (Bool-cases (str_eq c.id id)) [
    | inl e ↦ rw e (h c, rw e (Pairs-refl Frozen Frozen-refl cs))
    | inr e ↦ rw e (refl, rw e (λ _. refl, update_specific-Spares f h cs))
  ]

  -- Where the change that is set apart was not applied, nothing that was applied has changed.
  pub Spares→Frozen :
      (cs ds : List Change) (c : Change)
      → get_specific_change id cs ≡ some c
      → is_applied c.status ≡ false
      → Spares id cs ds
      → Pairs Frozen cs ds
  unfolding get_specific_change
  Spares→Frozen [] [] c found fresh h = tt
  Spares→Frozen (b ∷ cs) (d ∷ ds) c found fresh (i, h) = elim (Bool-cases (str_eq b.id id)) [
    | inl e ↦ ((i, λ p. cc (rw e at found)), rw e at h)
    | inr e ↦ let (p, hs) = rw e at h in ((i, p), Spares→Frozen cs ds c (rw e at found) fresh hs)
  ]
  Spares→Frozen [] (d ∷ ds) c found fresh h = elim h [ ]
  Spares→Frozen (b ∷ cs) [] c found fresh h = elim h [ ]
