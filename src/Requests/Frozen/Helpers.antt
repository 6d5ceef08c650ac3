-- ===== src/Requests/Frozen/Helpers.antt =====
-- `populate_old_policies`, `populate_old_managed_policies` and `apply_changes_to_role` leave applied
-- changes alone.
use consoleme.Base.{
  String, ◌≡◌, refl, inl, inr, Bool, true, false, Option, none, some, List, [], ◌∷◌, arith,
  Bool-cases, if◌then◌else◌, if-holds,
}
use consoleme.Json.{Json, truthy}
use consoleme.Models.{
  Principal, aws_resource, honeybee, Detail, inline_policy, assume_role_policy,
  managed_policy_resource, ManagedResourceChange, Change, is_applied, AwsPrincipal, Request, Arn,
  InlineChange,
}
use consoleme.Requests.World.{Kind, Failure, Env, Work, Result, ok, raised}
use consoleme.Requests.Pairs.{Pairs, Frozen, Pairs-refl, Pairs-map, Frozen-refl}
use consoleme.Requests.Old.{
  step_each, each, keep_inline, populate_detail, populate_one, populate_found, populate_from,
  populate_arn, populate_old_policies, keep_managed, populate_managed_one, populate_managed_each,
  populate_managed_from, populate_old_managed_policies,
}
use consoleme.Requests.Managed.{
  put_managed_policy, change_managed_policy, apply_managed_policy_resource_change,
}
use consoleme.Requests.Role.{
  apply_each, apply_connected, apply_to_principal, apply_changes_to_arn, apply_changes_to_role,
}
use consoleme.Requests.Role.Untouched.{Leaves, apply_each-Leaves}

-- What one step of the loop gives.
abbrev Froze : Change → Result Change → Type 0
Froze c (ok d) = Frozen c d
Froze c (raised err) = Unit

all_same : (cs : List Change) → Pairs Frozen cs cs
all_same cs = Pairs-refl Frozen Frozen-refl cs

if-Frozen :
    {A : Type 0} (cs : List Change) (b : Bool) (x y : Result A × List Change × Work)
    → Pairs Frozen cs x.1
    → Pairs Frozen cs y.1
    → Pairs Frozen cs (if b then x else y).1
if-Frozen cs true x y h k = h
if-Frozen cs false x y h k = k

step_each-Frozen :
    (c : Change) (cs : List Change) (r : Result Change) (p : Result (Unit {0}) × List Change)
    → Froze c r
    → Pairs Frozen cs p.1
    → Pairs Frozen (c ∷ cs) (step_each c cs r p).1
unfolding step_each
step_each-Frozen c cs (ok d) (r, ds) h hs = (h, hs)
step_each-Frozen c cs (raised err) p h hs = all_same (c ∷ cs)

each-Frozen :
    (f : Change → Result Change)
    → ((c : Change) → Froze c (f c))
    → (cs : List Change) → Pairs Frozen cs (each f cs).1
unfolding each
each-Frozen f h [] = tt
each-Frozen f h (c ∷ cs) = step_each-Frozen c cs (f c) (each f cs) (h c) (each-Frozen f h cs)

module _ (e : Env) where
  keep_inline-id :
      (c : Change) (ch : InlineChange) (doc : Option Json) → (keep_inline e c ch doc).id ≡ c.id
  unfolding keep_inline
  keep_inline-id c ch none = refl
  keep_inline-id c ch (some doc) = refl

  -- The loop comes to `populate_detail` with what is not applied only.
  populate_detail-Frozen :
      (p : Option AwsPrincipal) (c : Change) (d : Detail)
      → is_applied c.status ≡ false
      → Froze c (populate_detail e p c d)
  unfolding populate_detail
  populate_detail-Frozen none c (assume_role_policy ch) h = tt
  populate_detail-Frozen (some p) c (assume_role_policy ch) h = (refl, λ q. cc)
  populate_detail-Frozen none c (inline_policy ch) h =
      if-holds (Froze c) ch.new _ _ (Frozen-refl c) tt
  populate_detail-Frozen (some p) c (inline_policy ch) h =
      if-holds (Froze c) ch.new _ _ (Frozen-refl c) (keep_inline-id c ch _, λ q. cc)
  populate_detail-Frozen none c _ h = Frozen-refl c
  populate_detail-Frozen (some p) c _ h = Frozen-refl c

  populate_one-Frozen : (p : Option AwsPrincipal) (c : Change) → Froze c (populate_one e p c)
  unfolding populate_one
  populate_one-Frozen p c = elim (Bool-cases (is_applied c.status)) [
    | inl h ↦ rw h (Frozen-refl c)
    | inr h ↦ rw h (populate_detail-Frozen p c c.detail h)
  ]

  populate_found-Frozen :
      (k : Kind) (account name : String) (cs : List Change) (p : Option Failure × Work)
      → Pairs Frozen cs (populate_found e k account name cs p).1
  unfolding populate_found
  populate_found-Frozen k account name cs (some f, w) = all_same cs
  populate_found-Frozen k account name cs (none, w) = each-Frozen _ (populate_one-Frozen _) cs

  populate_from-Frozen :
      (k : Kind) (account name : String) (cs : List Change) (w : Work)
      → Pairs Frozen cs (populate_from e k account name cs w).1
  unfolding populate_from
  populate_from-Frozen k account name cs w = populate_found-Frozen k account name cs _

  pub populate_old_policies-Frozen :
      (p : Principal) (cs : List Change) (w : Work)
      → Pairs Frozen cs (populate_old_policies e p cs w).1
  unfolding populate_old_policies populate_arn
  populate_old_policies-Frozen (aws_resource arn) cs w =
      if-holds (λ (x : Result (Unit {0}) × List Change × Work). Pairs Frozen cs x.1) _ _ _
        (populate_from-Frozen _ _ _ cs w) (all_same cs)
  populate_old_policies-Frozen (honeybee _ _ _) cs w = each-Frozen _ (populate_one-Frozen none) cs

  keep_managed-id : (doc : Json) (c : Change) (d : Detail) → (keep_managed e doc c d).id ≡ c.id
  unfolding keep_managed
  keep_managed-id doc c (managed_policy_resource m) =
      if-holds (λ (x : Change). x.id ≡ c.id) _ _ _ refl refl
  keep_managed-id doc c _ = refl

  populate_managed_one-Frozen : (doc : Json) (c : Change) → Frozen c (populate_managed_one e doc c)
  unfolding populate_managed_one
  populate_managed_one-Frozen doc c = elim (Bool-cases (is_applied c.status)) [
    | inl h ↦ rw h (refl, λ _. refl)
    | inr h ↦ rw h (
      if-holds (λ (x : Change). x.id ≡ c.id) (truthy doc) _ _ (keep_managed-id doc c c.detail) refl,
      λ q. cc,
    )
  ]

  populate_managed_each-Frozen :
      (doc : Json) (cs : List Change) → Pairs Frozen cs (populate_managed_each e doc cs)
  unfolding populate_managed_each
  populate_managed_each-Frozen doc [] = tt
  populate_managed_each-Frozen doc (c ∷ cs) =
      (populate_managed_one-Frozen doc c, populate_managed_each-Frozen doc cs)

  populate_managed_from-Frozen :
      (arn : String) (cs : List Change) (p : Option Failure × Work)
      → Pairs Frozen cs (populate_managed_from e arn cs p).1
  unfolding populate_managed_from
  populate_managed_from-Frozen arn cs (some f, w) =
      if-holds (λ (x : Result (Unit {0}) × List Change × Work). Pairs Frozen cs x.1) _ _ _
        (all_same cs) (all_same cs)
  populate_managed_from-Frozen arn cs (none, w) = populate_managed_each-Frozen _ cs

  pub populate_old_managed_policies-Frozen :
      (p : Principal) (cs : List Change) (w : Work)
      → Pairs Frozen cs (populate_old_managed_policies e p cs w).1
  unfolding populate_old_managed_policies
  populate_old_managed_policies-Frozen (aws_resource arn) cs w =
      if-holds (λ (x : Result (Unit {0}) × List Change × Work). Pairs Frozen cs x.1) _ _ _
        (populate_managed_from-Frozen arn cs _) (all_same cs)
  populate_old_managed_policies-Frozen (honeybee _ _ _) cs w = all_same cs

  Leaves→Frozen : (specific : Option String) (c d : Change) → Leaves specific c d → Frozen c d
  Leaves→Frozen specific c d (i, t, inl h) = (i, λ p. ground arith)
  Leaves→Frozen specific c d (i, t, inr h) = (i, λ p. h)

  apply_each-Frozen :
      (auto : Bool) (a : Arn) (name : String) (specific : Option String) (cs : List Change)
      (w : Work)
      → Pairs Frozen cs (apply_each e auto a name specific cs w).1
  apply_each-Frozen auto a name specific cs w =
      Pairs-map (Leaves specific) Frozen (Leaves→Frozen specific) cs _
        (apply_each-Leaves e auto a name specific cs w)

  apply_connected-Frozen :
      (auto : Bool) (a : Arn) (specific : Option String) (cs : List Change)
      (p : Option Failure × Work)
      → Pairs Frozen cs (apply_connected e auto a specific cs p).1
  unfolding apply_connected
  apply_connected-Frozen auto a specific cs (some f, w) = all_same cs
  apply_connected-Frozen auto a specific cs (none, w) = apply_each-Frozen auto a _ specific cs w

  apply_to_principal-Frozen :
      (p : Principal) (r : Request) (specific : Option String) (w : Work)
      → Pairs Frozen r.changes (apply_to_principal e p r specific w).1
  unfolding apply_to_principal apply_changes_to_arn
  apply_to_principal-Frozen (aws_resource arn) r specific w =
      if-holds (λ (x : Result (Unit {0}) × List Change × Work). Pairs Frozen r.changes x.1) _ _ _
        (apply_connected-Frozen _ _ specific _ _) (all_same r.changes)
  apply_to_principal-Frozen (honeybee _ _ _) r specific w = all_same r.changes

  pub apply_changes_to_role-Frozen :
      (r : Request) (specific : Option String) (w : Work)
      → Pairs Frozen r.changes (apply_changes_to_role e r specific w).1
  unfolding apply_changes_to_role
  apply_changes_to_role-Frozen r = apply_to_principal-Frozen r.principal r

  put_managed_policy-Frozen :
      (arn : String) (a : Arn) (m : ManagedResourceChange) (cs : List Change)
      (p : Result (Unit {0}) × List Change × Work)
      → Pairs Frozen cs p.1
      → Pairs Frozen cs (put_managed_policy e arn a m p).1
  unfolding put_managed_policy
  put_managed_policy-Frozen arn a m cs (raised err, ds, w) h = h
  put_managed_policy-Frozen arn a m cs (ok done, ds, w) h = h

  change_managed_policy-Frozen :
      (arn : String) (m : ManagedResourceChange) (cs : List Change) (w : Work)
      → Pairs Frozen cs (change_managed_policy e arn m cs w).1
  unfolding change_managed_policy
  change_managed_policy-Frozen arn m cs w =
      search (if-Frozen, all_same, put_managed_policy-Frozen, populate_old_managed_policies-Frozen)

  pub apply_managed_policy_resource_change-Frozen :
      (p : Principal) (m : ManagedResourceChange) (cs : List Change) (w : Work)
      → Pairs Frozen cs (apply_managed_policy_resource_change e p m cs w).1
  unfolding apply_managed_policy_resource_change
  apply_managed_policy_resource_change-Frozen (aws_resource arn) m cs w =
      change_managed_policy-Frozen arn m cs w
  apply_managed_policy_resource_change-Frozen (honeybee _ _ _) m cs w = all_same cs
