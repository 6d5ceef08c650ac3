-- ===== src/Requests/Drafts/Numbered.antt =====
-- The changes of a new request: not applied, all of one principal, and with different ids.
use text.Mathlib.TextLemmas.{append_cancel_left, append-nil}
use consoleme.Base.{
  ℕ, suc, ◌<◌, String, ◌≡◌, ◌≢◌, refl, ap, ◌∙◌, sym, true, List, [], ◌∷◌, ◌++◌, arith, inl, inr,
  Bool-cases, All, eq_iff, fstring, decimal, decimal_inj,
}
use consoleme.Aws.{Lookups}
use consoleme.Models.{
  Principal, aws_resource, honeybee, Status, Detail, inline_policy, managed_policy,
  permissions_boundary, resource_policy, sts_resource_policy, assume_role_policy, resource_tag,
  generic_file, managed_policy_resource,
}
use consoleme.Requests.World.{Result, ok, raised, chain}
use consoleme.Requests.Drafts.{
  Draft, same_principal, Groups, no_groups, ungroup, as_asked, put_draft, numbered, group_drafts,
}

-- The second list is the first with `d` put in somewhere.
data Inserted (d : Draft) : List Draft → List Draft → Type 0 where
  here : {xs : List Draft} → Inserted d xs (d ∷ xs)
  there : {x : Draft} {xs ys : List Draft} → Inserted d xs ys → Inserted d (x ∷ xs) (x ∷ ys)

behind :
    (d : Draft) (zs : List Draft) {xs ys : List Draft}
    → Inserted d xs ys
    → Inserted d (zs ++ xs) (zs ++ ys)
behind d [] i = i
behind d (z ∷ zs) i = there (behind d zs i)

at_end : (d : Draft) (xs ys : List Draft) → Inserted d (xs ++ ys) ((xs ++ d ∷ []) ++ ys)
at_end d [] ys = here
at_end d (x ∷ xs) ys = there (at_end d xs ys)

at_last : (d : Draft) (xs : List Draft) → Inserted d xs (xs ++ d ∷ [])
at_last d [] = here
at_last d (x ∷ xs) = there (at_last d xs)

All-Inserted :
    (P : Draft → Type 0) {d : Draft} {xs ys : List Draft}
    → Inserted d xs ys
    → P d
    → All P xs
    → All P ys
All-Inserted P here h k = (h, k)
All-Inserted P (there i) h k = (k.0, All-Inserted P i h k.1)

-- No two have the same id.
abbrev pub Differ : List Draft → Type 0
Differ [] = Unit
Differ (d ∷ ds) = All (λ (c : Draft). c.change.id ≢ d.change.id) ds × Differ ds

Differ-Inserted :
    {d : Draft} {xs ys : List Draft}
    → Inserted d xs ys
    → All (λ (c : Draft). c.change.id ≢ d.change.id) xs
    → Differ xs
    → Differ ys
Differ-Inserted here h k = (h, k)
Differ-Inserted {d = d} (there {x = x} i) h k = (
  All-Inserted (λ (c : Draft). c.change.id ≢ x.change.id) i (λ e. h.0 (sym e)) k.0,
  Differ-Inserted i h.1 k.1,
)

-- `ungroup` of the lists with a draft put in.
data Put (d : Draft) (ds : List Draft) : Result Groups → Type 0 where
  put :
      {g : Groups} (d' : Draft)
      → d'.change.id ≡ d.change.id
      → d'.change.status ≡ d.change.status
      → d'.change.principal ≡ d.change.principal
      → Inserted d' ds (ungroup g)
      → Put d ds (ok g)
  left_out : {g : Groups} → ds ≡ ungroup g → Put d ds (ok g)
  refused : {err : consoleme.Requests.World.Error} → Put d ds (raised err)

module _ (l : Lookups) (supported : List String) where
  put_draft-Put :
      (d : Draft) (x : Detail) (g : Groups) → Put d (ungroup g) (put_draft l supported d x g)
  unfolding put_draft ungroup as_asked
  put_draft-Put d (inline_policy _) g = put d refl refl refl (at_end d g.inline _)
  put_draft-Put d (managed_policy _ _) g =
      put d refl refl refl (behind d g.inline (at_end d g.managed _))
  put_draft-Put d (resource_policy rc) g =
      put _ refl refl refl (behind _ g.inline (behind _ g.managed (at_end _ g.resource _)))
  put_draft-Put d (assume_role_policy _) g =
      put d refl refl refl
        (behind d g.inline (behind d g.managed (behind d g.resource (at_end d g.assume _))))
  put_draft-Put d (resource_tag _) g = put d refl refl refl (
      behind d g.inline
        (behind d g.managed (behind d g.resource (behind d g.assume (at_end d g.tags _)))))
  put_draft-Put d (permissions_boundary _ _) g = put d refl refl refl (
      behind d g.inline (
        behind d g.managed
          (behind d g.resource (behind d g.assume (behind d g.tags (at_end d g.boundary _))))))
  put_draft-Put d (managed_policy_resource _) g = put d refl refl refl (
      behind d g.inline (
        behind d g.managed (
          behind d g.resource (
            behind d g.assume
              (behind d g.tags (behind d g.boundary (at_last d g.managed_resource)))))))
  put_draft-Put d generic_file g = left_out refl
  put_draft-Put d (sts_resource_policy rc) g = refused

pub same_principal_iff : (p q : Principal) → same_principal p q ≡ true → p ≡ q
unfolding same_principal
same_principal_iff (aws_resource a) (aws_resource b) h = ap aws_resource ((eq_iff a b).0 h)
same_principal_iff (honeybee r i u) (honeybee s j v) h =
    ground (arith, eq_iff r s, eq_iff i j, eq_iff u v)
same_principal_iff (aws_resource a) (honeybee s j v) h = cc
same_principal_iff (honeybee r i u) (aws_resource b) h = cc

module _ (uuid : String) (p : Principal) where
  -- An id that the loop gave before this number.
  pub record IsNumbered (n : ℕ) (d : Draft) : Type 0 where
    pub number : ℕ
    pub below : number < n
    pub is_id : d.change.id ≡ fstring (uuid ∷ decimal number ∷ [])
    pub not_applied : d.change.status ≡ Status.not_applied
    pub of_principal : d.change.principal ≡ p

  later : (n : ℕ) (d : Draft) → IsNumbered n d → IsNumbered (suc n) d
  later n d h = record {
    number = h.number;
    below = omega (arith, h.below);
    is_id = h.is_id;
    not_applied = h.not_applied;
    of_principal = h.of_principal;
  }

  All-later : (n : ℕ) (ds : List Draft) → All (IsNumbered n) ds → All (IsNumbered (suc n)) ds
  All-later n [] h = tt
  All-later n (d ∷ ds) h = (later n d h.0, All-later n ds h.1)

  ids_differ : (n : ℕ) (d : Draft) → IsNumbered n d → fstring (uuid ∷ decimal n ∷ []) ≢ d.change.id
  unfolding fstring
  ids_differ n d h e =
      let same : decimal n ≡ decimal h.number =
        sym (append-nil _) ∙ append_cancel_left uuid _ _ (e ∙ h.is_id) ∙ append-nil _ in
      absurd (omega (arith, h.below, decimal_inj n h.number same))

  All-differ :
      (n : ℕ) (d : Draft)
      → d.change.id ≡ fstring (uuid ∷ decimal n ∷ [])
      → (ds : List Draft) → All (IsNumbered n) ds
      → All (λ (c : Draft). c.change.id ≢ d.change.id) ds
  All-differ n d e [] h = tt
  All-differ n d e (c ∷ ds) h = (λ q. ids_differ n c h.0 (sym e ∙ sym q), All-differ n d e ds h.1)

  abbrev pub Good : ℕ → List Draft → Type 0
  Good n ds = All (IsNumbered n) ds × Differ ds

  -- What grouping may answer: lists of changes with their numbers, or an exception.
  abbrev pub Ends : Result Groups → Type 0
  Ends (ok g) = (k : ℕ) × Good k (ungroup g)
  Ends (raised err) = Unit

  Good-chain :
      (n : ℕ) (d : Draft) (ds : List Draft) (r : Result Groups) (k : Groups → Result Groups)
      → d.change.id ≡ fstring (uuid ∷ decimal n ∷ [])
      → d.change.status ≡ Status.not_applied
      → d.change.principal ≡ p
      → Good n ds
      → Put d ds r
      → ((g : Groups) → Good (suc n) (ungroup g) → Ends (k g))
      → Ends (chain r k)
  Good-chain n d ds _ k i st pr good (put {g = g} d' ei es ep inserted) rest = rest g (
    All-Inserted (IsNumbered (suc n)) inserted
        (record {
          number = n;
          below = omega arith;
          is_id = ei ∙ i;
          not_applied = es ∙ st;
          of_principal = ep ∙ pr;
        })
        (All-later n ds good.0),
    Differ-Inserted inserted (All-differ n d' (ei ∙ i) ds good.0) good.1,
  )
  Good-chain n d ds _ k i st pr good (left_out {g = g} e) rest =
      rest g (rw (← e) (All-later n ds good.0, good.1))
  Good-chain n d ds _ k i st pr good refused rest = tt

  module _ (l : Lookups) (supported : List String) where
    pub group_drafts-Ends :
        (n : ℕ) (ds : List Draft) (g : Groups)
        → Good n (ungroup g)
        → Ends (group_drafts l supported uuid p n ds g)
    unfolding group_drafts numbered
    group_drafts-Ends n [] g good = (n, good)
    group_drafts-Ends n (d ∷ ds) g good = elim (Bool-cases (same_principal p d.change.principal)) [
      | inl same ↦ rw same (
          Good-chain n (numbered uuid n d) (ungroup g) _ _ refl refl
            (sym (same_principal_iff p d.change.principal same)) good
            (put_draft-Put l supported _ d.change.detail g)
            (λ g' good'. group_drafts-Ends (suc n) ds g' good'))
      | inr other ↦ rw other tt
    ]

pub no_groups-Good : (uuid : String) (p : Principal) → Good uuid p 0 (ungroup no_groups)
unfolding ungroup
no_groups-Good uuid p = (tt, tt)
