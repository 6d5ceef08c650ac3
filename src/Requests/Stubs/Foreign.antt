-- ===== src/Requests/Stubs/Foreign.antt =====
-- The changes that `generate_resource_policies` adds: what they are, and where each comes from.
use consoleme.Base.{
  ℕ, suc, ◌+◌, String, ◌≡◌, refl, ◌⊎◌, inl, inr, Bool, true, false, Option, none, some, List, [],
  ◌∷◌, ◌++◌, length, arith, All, Some, Bool-cases, str_eq, if◌then◌else◌,
}
use consoleme.Json.{Items}
use consoleme.Aws.{get_resource_account}
use consoleme.Models.{
  Principal, PolicyModel, Status, ResourceChange, Detail, inline_policy, resource_policy,
  sts_resource_policy, Change,
}
use consoleme.Requests.World.{Env, Result, ok, raised, chain}
use consoleme.Statements.{Resource, statements, resources_in}
use consoleme.Requests.Stubs.{
  of_trust_if, Sources, Need, nothing, of_policy, of_trust, need_of, stub_of, add_stub, stubs_for,
  stubs_of_policy, stubs_of, stubs_of_all,
}

abbrev pub is_inline : Detail → Bool
is_inline (inline_policy _) = true
is_inline _ = false

-- What holds of a result, if it is one.
abbrev pub Returns : {A : Type 0} → (A → Type 0) → Result A → Type 0
Returns P (ok a) = P a
Returns P (raised err) = Unit

pub Returns-chain :
    {A B : Type 0} (P : A → Type 0) (Q : B → Type 0) (r : Result A) (k : A → Result B)
    → Returns P r
    → ((a : A) → P a → Returns Q (k a))
    → Returns Q (chain r k)
Returns-chain P Q (ok a) k h f = f a h
Returns-chain P Q (raised err) k h f = tt

pub Returns-map :
    {A : Type 0} (P Q : A → Type 0) (r : Result A)
    → ((a : A) → P a → Q a)
    → Returns P r
    → Returns Q r
Returns-map P Q (ok a) f h = f a h
Returns-map P Q (raised err) f h = tt

module _ (e : Env) (s : Sources) (p : Principal) (account : String) where
  -- A change that was generated for a resource in another account, which an inline policy of this request
  -- names. The number says which of the fresh ids it has.
  pub record IsStub (inlines : List Change) (k : ℕ) (c : Change) : Type 0 where
    pub id : c.id ≡ s.fresh k
    pub not_applied : c.status ≡ Status.not_applied
    pub autogenerated : c.autogenerated ≡ true
    pub of_principal : c.principal ≡ p
    pub resource : ResourceChange
    pub is_policy :
        (c.detail ≡ resource_policy resource) ⊎ (c.detail ≡ sts_resource_policy resource)
    pub foreign : str_eq (get_resource_account e.lookups resource.arn) account ≡ false
    pub source : String
    pub names_source : resource.source_change_id ≡ some source
    pub is_source : Some (λ (i : Change). (i.id ≡ source) × (is_inline i.detail ≡ true)) inlines

  -- The changes have the fresh ids from this number on.
  abbrev pub Stubs : List Change → ℕ → List Change → Type 0
  Stubs inlines k [] = Unit
  Stubs inlines k (c ∷ cs) = IsStub inlines k c × Stubs inlines (suc k) cs

  Stubs-append :
      (inlines : List Change) (k j : ℕ) (cs : List Change) (c : Change)
      → Stubs inlines k cs
      → j ≡ k + length cs
      → IsStub inlines j c
      → Stubs inlines k (cs ++ c ∷ [])
  Stubs-append inlines k j [] c h e i = let same : j ≡ k = omega (arith, e) in (rw same at i, tt)
  Stubs-append inlines k j (d ∷ cs) c h e i =
      (h.0, Stubs-append inlines (suc k) j cs c h.1 (omega (arith, e)) i)

  -- A need is only felt for a resource in another account.
  abbrev IsForeign : Resource → Need → Type 0
  IsForeign r n = (n ≡ nothing) ⊎ (str_eq (get_resource_account e.lookups r.arn) account ≡ false)

  of_trust_if-IsForeign :
      (r : Resource) (b : Result Bool)
      → str_eq (get_resource_account e.lookups r.arn) account ≡ false
      → Returns (IsForeign r) (of_trust_if b)
  of_trust_if-IsForeign r (ok true) h = inr h
  of_trust_if-IsForeign r (ok false) h = inr h
  of_trust_if-IsForeign r (raised err) h = tt

  if-IsForeign :
      (r : Resource) (b : Bool) (x y : Result Need)
      → Returns (IsForeign r) x
      → Returns (IsForeign r) y
      → Returns (IsForeign r) (if b then x else y)
  if-IsForeign r true x y h k = h
  if-IsForeign r false x y h k = k

  asked_IsForeign :
      (r : Resource) (n : Need)
      → str_eq (get_resource_account e.lookups r.arn) account ≡ false
      → Returns (IsForeign r) (ok n)
  asked_IsForeign r n h = inr h

  need_of-IsForeign :
      (sts : Items) (r : Resource) → Returns (IsForeign r) (need_of e s account sts r)
  unfolding need_of
  need_of-IsForeign sts r =
      elim (Bool-cases (str_eq (get_resource_account e.lookups r.arn) account)) [
        | inl same ↦ rw same (inl refl)
        | inr other ↦ search (if-IsForeign, of_trust_if-IsForeign, asked_IsForeign)
      ]

  module _ (inlines : List Change) where
    abbrev Fine : List Change → Type 0
    Fine = Stubs inlines 0

    abbrev IsSource : String → Type 0
    IsSource source = Some (λ (i : Change). (i.id ≡ source) × (is_inline i.detail ≡ true)) inlines

    add_stub-Fine :
        (source : String) (r : Resource) (stubs : List Change) (n : Need)
        → IsSource source
        → IsForeign r n
        → Fine stubs
        → Fine (add_stub e s p source r stubs n)
    unfolding add_stub stub_of
    add_stub-Fine source r stubs nothing i f h = h
    add_stub-Fine source r stubs of_policy i (inl x) h = cc
    add_stub-Fine source r stubs of_trust i (inl x) h = cc
    add_stub-Fine source r stubs of_policy i (inr f) h =
        Stubs-append inlines 0 (length stubs) stubs _ h (omega arith) (record {
          id = refl;
          not_applied = refl;
          autogenerated = refl;
          of_principal = refl;
          resource = _;
          is_policy = inl refl;
          foreign = f;
          source = source;
          names_source = refl;
          is_source = i;
        })
    add_stub-Fine source r stubs of_trust i (inr f) h =
        Stubs-append inlines 0 (length stubs) stubs _ h (omega arith) (record {
          id = refl;
          not_applied = refl;
          autogenerated = refl;
          of_principal = refl;
          resource = _;
          is_policy = inr refl;
          foreign = f;
          source = source;
          names_source = refl;
          is_source = i;
        })

    stubs_for-Fine :
        (source : String) (sts : Items) (rs : List Resource) (stubs : List Change)
        → IsSource source
        → Fine stubs
        → Returns Fine (stubs_for e s p account source sts rs stubs)
    unfolding stubs_for
    stubs_for-Fine source sts [] stubs i h = h
    stubs_for-Fine source sts (r ∷ rs) stubs i h =
        Returns-chain (IsForeign r) Fine (need_of e s account sts r) _ (need_of-IsForeign sts r)
          (λ n f. stubs_for-Fine source sts rs _ i (add_stub-Fine source r stubs n i f h))

    abbrev Any : {A : Type 0} → A → Type 0
    Any a = Unit

    Returns-Any : {A : Type 0} (r : Result A) → Returns Any r
    Returns-Any (ok a) = tt
    Returns-Any (raised err) = tt

    stubs_of_policy-Fine :
        (source : String) (m : Option PolicyModel) (stubs : List Change)
        → IsSource source
        → Fine stubs
        → Returns Fine (stubs_of_policy e s p account source m stubs)
    unfolding stubs_of_policy
    stubs_of_policy-Fine source none stubs i h = tt
    stubs_of_policy-Fine source (some m) stubs i h =
        Returns-chain Any Fine (statements m.policy_document) _ (Returns-Any _) (λ sts _.
          Returns-chain Any Fine (resources_in s.service_of e.lookups sts) _ (Returns-Any _)
            (λ rs _. stubs_for-Fine source sts rs stubs i h))

    stubs_of-Fine :
        (c : Change) (d : Detail) (stubs : List Change)
        → (is_inline d ≡ true → IsSource c.id)
        → Fine stubs
        → Returns Fine (stubs_of e s p account c d stubs)
    unfolding stubs_of
    stubs_of-Fine c (inline_policy ch) stubs i h =
        stubs_of_policy-Fine c.id ch.policy stubs (i refl) h
    stubs_of-Fine c _ stubs i h = h

    pub stubs_of_all-Fine :
        (cs : List Change) (stubs : List Change)
        → All (λ (c : Change). is_inline c.detail ≡ true → IsSource c.id) cs
        → Fine stubs
        → Returns Fine (stubs_of_all e s p account cs stubs)
    unfolding stubs_of_all
    stubs_of_all-Fine [] stubs i h = h
    stubs_of_all-Fine (c ∷ cs) stubs i h =
        Returns-chain Fine Fine (stubs_of e s p account c c.detail stubs) _
          (stubs_of-Fine c c.detail stubs i.0 h) (λ stubs' h'. stubs_of_all-Fine cs stubs' i.1 h')
