-- ===== src/Credentials/Cache/Age.antt =====
-- How old an answer may be.
use consoleme.Base.{
  ℕ, ◌+◌, ◌≤◌, ◌≡◌, refl, ◌⊎◌, inl, inr, false, Option, none, some, List, [], ◌∷◌, arith,
  Bool-cases,
}
use consoleme.Credentials.Cache.{Copy, nothing_kept, is_due, load, retrieve}

-- What the store gave, and when, newest first.
abbrev pub History : Type 0 → Type 0
History A = List (ℕ × List A)

abbrev pub noted : {A : Type 0} → ℕ → Option (List A) → History A → History A
noted now none h = h
noted now (some loaded) h = (now, loaded) ∷ h

-- The copies that a sequence of retrievals leaves, and what the store gave in it.
pub data Reached (A : Type 0) (limit : ℕ) : History A → Copy A → Type 0 where
  fresh : Reached A limit [] nothing_kept
  again :
      {h : History A} {c : Copy A}
      → Reached A limit h c
      → (now : ℕ) (loaded : Option (List A))
      → Reached A limit (noted now loaded h) (retrieve limit now loaded c).1

-- The store gave this at this time.
pub data Given {A : Type 0} (t : ℕ) (l : List A) : History A → Type 0 where
  latest : {h : History A} → Given t l ((t, l) ∷ h)
  earlier : {e : ℕ × List A} {h : History A} → Given t l h → Given t l (e ∷ h)

-- A copy is empty, or is what the store gave at its time.
IsGiven : {A : Type 0} → History A → Copy A → Type 0
IsGiven h c = (c.kept ≡ []) ⊎ Given c.last_update c.kept h

Given-noted :
    {A : Type 0} (t : ℕ) (l : List A) (now : ℕ) (loaded : Option (List A)) (h : History A)
    → Given t l h
    → Given t l (noted now loaded h)
Given-noted t l now none h g = g
Given-noted t l now (some x) h g = earlier g

module _ {A : Type 0} (limit now : ℕ) (h : History A) (c : Copy A) where
  load-IsGiven :
      (loaded : Option (List A)) → IsGiven h c → IsGiven (noted now loaded h) (load now loaded c).1
  unfolding IsGiven load
  load-IsGiven none g = g
  load-IsGiven (some x) g = inr latest

  kept-IsGiven : (loaded : Option (List A)) → IsGiven h c → IsGiven (noted now loaded h) c
  unfolding IsGiven
  kept-IsGiven loaded (inl e) = inl e
  kept-IsGiven loaded (inr g) = inr (Given-noted _ _ now loaded h g)

  retrieve-IsGiven :
      (loaded : Option (List A))
      → IsGiven h c
      → IsGiven (noted now loaded h) (retrieve limit now loaded c).1
  unfolding retrieve
  retrieve-IsGiven loaded g = elim (Bool-cases (is_due limit now c)) [
    | inr kept ↦ rw kept (kept-IsGiven loaded g)
    | inl due ↦ rw due (load-IsGiven loaded g)
  ]

  -- An answer is empty, or is what the store gave not longer ago than the limit.
  pub IsRecent : Option (List A) → List A → Type 0
  IsRecent loaded answer =
      (answer ≡ []) ⊎ ((t : ℕ) × (Given t answer (noted now loaded h) × (now ≤ t + limit)))

  not_old : is_due limit now c ≡ false → now ≤ c.last_update + limit
  unfolding is_due
  not_old k = ground arith

  kept-IsRecent :
      (loaded : Option (List A)) → IsGiven h c → is_due limit now c ≡ false → IsRecent loaded c.kept
  unfolding IsRecent IsGiven
  kept-IsRecent loaded (inl e) k = inl e
  kept-IsRecent loaded (inr g) k = inr (c.last_update, (Given-noted _ _ now loaded h g, not_old k))

  load-IsRecent : (loaded : Option (List A)) → IsRecent loaded (load now loaded c).0
  unfolding IsRecent load
  load-IsRecent none = inl refl
  load-IsRecent (some x) = inr (now, (latest, omega arith))

  answer-IsRecent :
      (loaded : Option (List A)) → IsGiven h c → IsRecent loaded (retrieve limit now loaded c).0
  unfolding retrieve
  answer-IsRecent loaded g = elim (Bool-cases (is_due limit now c)) [
    | inr kept ↦ rw kept (kept-IsRecent loaded g kept)
    | inl due ↦ rw due (load-IsRecent loaded)
  ]

Reached-IsGiven :
    {A : Type 0} (limit : ℕ) (h : History A) (c : Copy A) → Reached A limit h c → IsGiven h c
unfolding IsGiven
Reached-IsGiven limit h c fresh = inl refl
Reached-IsGiven limit _ _ (again {h = h} {c = c} k now loaded) =
    retrieve-IsGiven limit now h c loaded (Reached-IsGiven limit h c k)

-- After any sequence of retrievals, whichever of them failed, an answer is empty or is what the store gave not longer
-- ago than the limit: where an old copy cannot be loaded again, nobody has any role, and no old right is used.
pub retrieve-IsRecent :
    {A : Type 0} (limit : ℕ) (h : History A) (c : Copy A) (now : ℕ) (loaded : Option (List A))
    → Reached A limit h c
    → IsRecent limit now h c loaded (retrieve limit now loaded c).0
retrieve-IsRecent limit h c now loaded k =
    answer-IsRecent limit now h c loaded (Reached-IsGiven limit h c k)
