-- ===== src/Requests/Create/Sound.antt =====
-- The changes of a new request through the steps of its making: own changes with numbered ids, and behind
-- them those that are generated.
use consoleme.Base.{
  ℕ, suc, ◌<◌, String, ◌≡◌, ◌≢◌, sym, ◌∙◌, List, [], ◌∷◌, ◌++◌, map, All, fstring, decimal, arith,
}
use consoleme.Models.{Principal, Status, Change}
use consoleme.Requests.World.{Env}
use consoleme.Requests.Pairs.{Pairs}
use consoleme.Requests.Old.Kept.{Kept}
use consoleme.Requests.Drafts.{Draft}
use consoleme.Requests.Drafts.Numbered.{IsNumbered, Differ, Good}
use consoleme.Requests.Stubs.{Sources}
use consoleme.Requests.Stubs.Foreign.{Stubs}

-- No two changes have the same id.
abbrev pub AllDiffer : List Change → Type 0
AllDiffer [] = Unit
AllDiffer (c ∷ cs) = All (λ (d : Change). d.id ≢ c.id) cs × AllDiffer cs

-- Not applied, and of this principal.
abbrev pub IsOpen : Principal → Change → Type 0
IsOpen p c = (c.status ≡ Status.not_applied) × (c.principal ≡ p)

-- Asked for by the user: the id is that of the request with a number.
pub record IsOwn (uuid : String) (p : Principal) (c : Change) : Type 0 where
  pub number : ℕ
  pub is_id : c.id ≡ fstring (uuid ∷ decimal number ∷ [])
  pub is_open : IsOpen p c

abbrev pub change_of : Draft → Change
change_of d = d.change

module _ (R : Change → Type 0) where
  -- What `Kept` carries over.
  pub All-Kept :
      ((c d : Change) → Kept c d → R c → R d)
      → (cs ds : List Change) → Pairs Kept cs ds
      → All R cs
      → All R ds
  All-Kept f [] [] k h = tt
  All-Kept f (c ∷ cs) (d ∷ ds) k h = (f c d k.0 h.0, All-Kept f cs ds k.1 h.1)
  All-Kept f [] (d ∷ ds) k h = elim k [ ]
  All-Kept f (c ∷ cs) [] k h = elim k [ ]

  pub All-both : (cs ds : List Change) → All R cs → All R ds → All R (cs ++ ds)
  All-both [] ds h k = k
  All-both (c ∷ cs) ds h k = (h.0, All-both cs ds h.1 k)

pub AllDiffer-Kept : (cs ds : List Change) → Pairs Kept cs ds → AllDiffer cs → AllDiffer ds
AllDiffer-Kept [] [] k h = tt
AllDiffer-Kept (c ∷ cs) (d ∷ ds) k h = (other_ids cs ds k.1 h.0, AllDiffer-Kept cs ds k.1 h.1)
  where
    other_ids :
        (xs ys : List Change)
        → Pairs Kept xs ys
        → All (λ (x : Change). x.id ≢ c.id) xs
        → All (λ (x : Change). x.id ≢ d.id) ys
    other_ids [] [] q n = tt
    other_ids (x ∷ xs) (y ∷ ys) q n = (λ e. n.0 (sym q.0.id ∙ e ∙ k.0.id), other_ids xs ys q.1 n.1)
    other_ids [] (y ∷ ys) q n = elim q [ ]
    other_ids (x ∷ xs) [] q n = elim q [ ]
AllDiffer-Kept [] (d ∷ ds) k h = elim k [ ]
AllDiffer-Kept (c ∷ cs) [] k h = elim k [ ]

pub IsOpen-Kept : (p : Principal) (c d : Change) → Kept c d → IsOpen p c → IsOpen p d
IsOpen-Kept p c d k h = (k.status ∙ h.0, k.principal ∙ h.1)

pub IsOwn-Kept :
    (uuid : String) (p : Principal) (c d : Change) → Kept c d → IsOwn uuid p c → IsOwn uuid p d
IsOwn-Kept uuid p c d k h = record {
  number = h.number;
  is_id = k.id ∙ h.is_id;
  is_open = IsOpen-Kept p c d k h.is_open;
}

module _ (uuid : String) (p : Principal) where
  IsOwn-All :
      (n : ℕ) (ds : List Draft)
      → All (IsNumbered uuid p n) ds
      → All (IsOwn uuid p) (map change_of ds)
  IsOwn-All n [] h = tt
  IsOwn-All n (d ∷ ds) h = (
    record {
      number = h.0.number;
      is_id = h.0.is_id;
      is_open = (h.0.not_applied, h.0.of_principal);
    },
    IsOwn-All n ds h.1,
  )

  other_ids :
      (s : String) (ds : List Draft)
      → All (λ (c : Draft). c.change.id ≢ s) ds
      → All (λ (c : Change). c.id ≢ s) (map change_of ds)
  other_ids s [] h = tt
  other_ids s (d ∷ ds) h = (h.0, other_ids s ds h.1)

  Differ-AllDiffer : (ds : List Draft) → Differ ds → AllDiffer (map change_of ds)
  Differ-AllDiffer [] h = tt
  Differ-AllDiffer (d ∷ ds) h = (other_ids d.change.id ds h.0, Differ-AllDiffer ds h.1)

  pub Good→Own :
      (n : ℕ) (ds : List Draft)
      → Good uuid p n ds
      → All (IsOwn uuid p) (map change_of ds) × AllDiffer (map change_of ds)
  Good→Own n ds h = (IsOwn-All n ds h.0, Differ-AllDiffer ds h.1)

pub AllDiffer-append :
    (cs ds : List Change)
    → AllDiffer cs
    → AllDiffer ds
    → All (λ (c : Change). All (λ (d : Change). d.id ≢ c.id) ds) cs
    → AllDiffer (cs ++ ds)
AllDiffer-append [] ds h k n = k
AllDiffer-append (c ∷ cs) ds h k n = (All-both _ cs ds h.0 n.0, AllDiffer-append cs ds h.1 k n.1)

module _ (e : Env) (s : Sources) (p : Principal) (account : String) (inlines : List Change) where
  pub Stubs-IsOpen :
      (k : ℕ) (cs : List Change) → Stubs e s p account inlines k cs → All (IsOpen p) cs
  Stubs-IsOpen k [] h = tt
  Stubs-IsOpen k (c ∷ cs) h = ((h.0.not_applied, h.0.of_principal), Stubs-IsOpen (suc k) cs h.1)

  module _ (fresh_inj : (i j : ℕ) → s.fresh i ≡ s.fresh j → i ≡ j) where
    above :
        (i k : ℕ) (c : Change) (cs : List Change)
        → i < k
        → c.id ≡ s.fresh i
        → Stubs e s p account inlines k cs
        → All (λ (d : Change). d.id ≢ c.id) cs
    above i k c [] lt q h = tt
    above i k c (d ∷ cs) lt q h = (
      λ same. absurd (omega (arith, lt, fresh_inj k i (sym h.0.id ∙ same ∙ q))),
      above i (suc k) c cs (omega (arith, lt)) q h.1,
    )

    pub Stubs-AllDiffer :
        (k : ℕ) (cs : List Change) → Stubs e s p account inlines k cs → AllDiffer cs
    Stubs-AllDiffer k [] h = tt
    Stubs-AllDiffer k (c ∷ cs) h =
        (above k (suc k) c cs (omega arith) h.0.id h.1, Stubs-AllDiffer (suc k) cs h.1)

  module _ (uuid : String)
      (fresh_new : (i n : ℕ) → s.fresh i ≢ fstring (uuid ∷ decimal n ∷ [])) where
    not_own :
        (k n : ℕ) (c : Change) (cs : List Change)
        → c.id ≡ fstring (uuid ∷ decimal n ∷ [])
        → Stubs e s p account inlines k cs
        → All (λ (d : Change). d.id ≢ c.id) cs
    not_own k n c [] q h = tt
    not_own k n c (d ∷ cs) q h =
        (λ same. fresh_new k n (sym h.0.id ∙ same ∙ q), not_own (suc k) n c cs q h.1)

    pub IsOwn-Stubs :
        (own stubs : List Change)
        → All (IsOwn uuid p) own
        → Stubs e s p account inlines 0 stubs
        → All (λ (c : Change). All (λ (d : Change). d.id ≢ c.id) stubs) own
    IsOwn-Stubs [] stubs h k = tt
    IsOwn-Stubs (c ∷ own) stubs h k =
        (not_own 0 h.0.number c stubs h.0.is_id k, IsOwn-Stubs own stubs h.1 k)
