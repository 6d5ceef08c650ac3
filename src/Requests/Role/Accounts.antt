-- ===== src/Requests/Role/Accounts.antt =====
-- What `apply_changes_to_role` does to the changes of a request and to the count of errors.
use consoleme.Base.{
  ℕ, ◌+◌, String, ◌≡◌, refl, ◌⊎◌, inl, inr, Bool, true, false, ◌&&◌, ◌||◌, Option, none, some, List,
  [], ◌∷◌, arith, Bool-cases, if◌then◌else◌, str_eq,
}
use consoleme.Models.{
  Action, attach, detach, TagAction, is_applied, Detail, inline_policy, managed_policy,
  permissions_boundary, resource_policy, assume_role_policy, resource_tag, Change, Arn,
  InlineChange, AssumeRoleChange, TagChange,
}
use consoleme.Requests.World.{Env, Work, Result, ok, raised, fail}
use consoleme.Requests.Acts.{Succeeded, Judged, caught-Judged, body_rules}
use consoleme.Requests.Steps.{
  apply_inline, apply_boundary, apply_managed, apply_assume_role, put_tag, delete_tag, apply_tag,
  with_defaults,
}
use consoleme.Requests.Role.{
  apply_unsupported, is_skipped, settle, apply_detail, apply_one, apply_each, and_then,
}

module _ (e : Env) (a : Arn) (name : String) where
  apply_inline-Judged :
      (ch : InlineChange) (x : Action) (w : Work) → Judged e w (apply_inline e a name ch (some x) w)
  unfolding apply_inline
  apply_inline-Judged ch attach w = caught-Judged e _ _ w (search body_rules)
  apply_inline-Judged ch detach w = caught-Judged e _ _ w (search body_rules)

  apply_boundary-Judged :
      (arn : String) (x : Action) (w : Work) → Judged e w (apply_boundary e a name arn x w)
  unfolding apply_boundary
  apply_boundary-Judged arn attach w = caught-Judged e _ _ w (search body_rules)
  apply_boundary-Judged arn detach w = caught-Judged e _ _ w (search body_rules)

  apply_managed-Judged :
      (arn : String) (x : Action) (w : Work) → Judged e w (apply_managed e a name arn x w)
  unfolding apply_managed
  apply_managed-Judged arn attach w = caught-Judged e _ _ w (search body_rules)
  apply_managed-Judged arn detach w = caught-Judged e _ _ w (search body_rules)

  apply_assume_role-Judged :
      (ch : AssumeRoleChange) (w : Work) → Judged e w (apply_assume_role e a name ch w)
  unfolding apply_assume_role
  apply_assume_role-Judged ch w = caught-Judged e _ _ w (search body_rules)

  put_tag-Judged : (t : TagChange) (w : Work) → Judged e w (put_tag e a name t w)
  unfolding put_tag
  put_tag-Judged t w = caught-Judged e _ _ w (search body_rules)

  delete_tag-Judged : (t : TagChange) (w : Work) → Judged e w (delete_tag e a name t w)
  unfolding delete_tag
  delete_tag-Judged t w = caught-Judged e _ _ w (search body_rules)

-- A change that the function passes over without a word: an inline policy with no action, or a
-- generated change of an unsupported type in a request that an administrator approved from the start.
abbrev pub is_silent : Bool → Bool → Detail → Bool
is_silent auto generated (inline_policy ch) = elim ch.action [ none ↦ true | some _ ↦ false ]
is_silent auto generated (managed_policy _ _) = false
is_silent auto generated (permissions_boundary _ _) = false
is_silent auto generated (assume_role_policy _) = false
is_silent auto generated (resource_tag _) = false
is_silent auto generated _ = generated && auto

-- What becomes of a change that is tried.
abbrev pub Tried : Env → Bool → Work → Result (Detail × Bool) × Work → Type 0
Tried e silent w (raised _, w') = w' ≡ w
Tried e silent w (ok (d, true), w') =
    Succeeded e w.calls w'.calls × (w'.response.errors ≡ w.response.errors)
Tried e silent w (ok (d, false), w') =
    w'.response.errors ≡ w.response.errors + (if silent then 0 else 1)

Judged→Tried :
    (e : Env) (w : Work) (d : Detail) (r : Bool × Work)
    → Judged e w r
    → Tried e false w (ok (d, r.0), r.1)
Judged→Tried e w d (true, w') h = h
Judged→Tried e w d (false, w') h = h

module _ (e : Env) (auto : Bool) (a : Arn) (name : String) where
  inline-Tried :
      (ch : InlineChange) (x : Option Action) (w : Work)
      → let (done, w') = apply_inline e a name ch x w in
        Tried e (elim x [ none ↦ true | some _ ↦ false ]) w (ok (inline_policy ch, done), w')
  unfolding apply_inline
  inline-Tried ch none w = omega arith
  inline-Tried ch (some x) w =
      Judged→Tried e w (inline_policy ch) (apply_inline e a name ch (some x) w)
        (apply_inline-Judged e a name ch x w)

  tag-Tried :
      (t : TagChange) (x : TagAction) (w : Work)
      → let (t', done, w') = apply_tag e a name t x w in
        Tried e false w (ok (resource_tag t', done), w')
  unfolding apply_tag
  tag-Tried t TagAction.delete w =
      Judged→Tried e w (resource_tag t) (delete_tag e a name t w) (delete_tag-Judged e a name t w)
  tag-Tried t _ w =
      Judged→Tried e w (resource_tag (with_defaults t)) (put_tag e a name (with_defaults t) w)
        (put_tag-Judged e a name (with_defaults t) w)

  errors-apply_unsupported :
      (c : Change) (w : Work)
      → (apply_unsupported auto c w).response.errors
        ≡ w.response.errors + (if c.autogenerated && auto then 0 else 1)
  unfolding apply_unsupported fail
  errors-apply_unsupported c w = ground arith

  apply_detail-Tried :
      (c : Change) (d : Detail) (w : Work)
      → Tried e (is_silent auto c.autogenerated d) w (apply_detail e auto a name c d w)
  unfolding apply_detail
  apply_detail-Tried c (inline_policy ch) w = inline-Tried ch ch.action w
  apply_detail-Tried c (managed_policy arn x) w =
      Judged→Tried e w (managed_policy arn x) (apply_managed e a name arn x w)
        (apply_managed-Judged e a name arn x w)
  apply_detail-Tried c (permissions_boundary arn x) w =
      Judged→Tried e w (permissions_boundary arn x) (apply_boundary e a name arn x w)
        (apply_boundary-Judged e a name arn x w)
  apply_detail-Tried c (assume_role_policy ch) w = elim (Bool-cases (str_eq a.resource "user")) [
    | inl is_user ↦ rw is_user refl
    | inr other ↦ rw other (
        Judged→Tried e w (assume_role_policy ch) (apply_assume_role e a name ch w)
          (apply_assume_role-Judged e a name ch w))
  ]
  apply_detail-Tried c (resource_tag t) w = tag-Tried t t.tag_action w
  apply_detail-Tried c (resource_policy _) w = errors-apply_unsupported c w
  apply_detail-Tried c _ w = errors-apply_unsupported c w

-- What the treatment of one change adds to the count of errors, read off the change before and after.
abbrev pub cost : Bool → Option String → Change → Change → ℕ
cost auto specific c c' =
    if is_applied c.status || is_skipped specific c.id
    then 0
    else if is_applied c'.status || is_silent auto c.autogenerated c.detail
    then 0
    else 1

abbrev pub total_cost : Bool → Option String → List Change → List Change → ℕ
total_cost auto specific (c ∷ cs) (c' ∷ cs') =
    cost auto specific c c' + total_cost auto specific cs cs'
total_cost auto specific _ _ = 0

abbrev Costs : Bool → Option String → Change → Work → Result Change × Work → Type 0
Costs auto specific c w (raised _, w') = w' ≡ w
Costs auto specific c w (ok c', w') =
    w'.response.errors ≡ w.response.errors + cost auto specific c c'

settle-Costs :
    (e : Env) (auto : Bool) (specific : Option String) (c : Change) (w : Work)
    (r : Result (Detail × Bool) × Work)
    → Tried e (is_silent auto c.autogenerated c.detail) w r
    → (is_applied c.status || is_skipped specific c.id) ≡ false
    → Costs auto specific c w (settle c r)
settle-Costs e auto specific c w (ok (d, true), w') h open_change =
    rw open_change (omega (arith, h.1))
settle-Costs e auto specific c w (ok (d, false), w') h open_change = ground arith
settle-Costs e auto specific c w (raised err, w') h open_change = h

module _ (e : Env) (auto : Bool) (a : Arn) (name : String) (specific : Option String) where
  apply_one-Costs :
      (c : Change) (w : Work) → Costs auto specific c w (apply_one e auto a name specific c w)
  unfolding apply_one
  apply_one-Costs c w = elim (Bool-cases (is_applied c.status || is_skipped specific c.id)) [
    | inl closed ↦ rw closed (rw closed (omega arith))
    | inr open_change ↦ rw open_change (
        settle-Costs e auto specific c w _ (apply_detail-Tried e auto a name c c.detail w)
          open_change)
  ]

  errors-and_then :
      (c : Change) (cs : List Change) (w : Work) (p : Result Change × Work)
      → Costs auto specific c w p
      → (k : Work → Result (Unit {0}) × List Change × Work)
      → ((v : Work)
          → (k v).0 ≡ ok tt
          → (k v).2.response.errors ≡ v.response.errors + total_cost auto specific cs (k v).1)
      → let (r, cs', w') = and_then c cs p k in
        r ≡ ok tt → w'.response.errors ≡ w.response.errors + total_cost auto specific (c ∷ cs) cs'
  unfolding and_then
  errors-and_then c cs w (ok c', v) h k ih done = omega (arith, h, ih v done)
  errors-and_then c cs w (raised err, v) h k ih done = cc

  -- A best effort that keeps the books: if no exception ends the loop, each change that was tried and is
  -- not applied in the end has added one error, but for those that are passed over silently, and nothing
  -- else adds an error.
  pub errors-apply_each :
      (cs : List Change) (w : Work)
      → (apply_each e auto a name specific cs w).0 ≡ ok tt
      → let (r, cs', w') = apply_each e auto a name specific cs w in
        w'.response.errors ≡ w.response.errors + total_cost auto specific cs cs'
  unfolding apply_each
  errors-apply_each [] w h = omega arith
  errors-apply_each (c ∷ cs) w h =
      errors-and_then c cs w (apply_one e auto a name specific c w) (apply_one-Costs c w)
        (apply_each e auto a name specific cs) (errors-apply_each cs) h

-- A change that was not applied before.
abbrev pub Honest : Env → Change → Work → Result Change × Work → Type 0
Honest e c w (raised _, w') = w' ≡ w
Honest e c w (ok c', w') =
    (is_applied c'.status ≡ false)
    ⊎ (Succeeded e w.calls w'.calls × (w'.response.errors ≡ w.response.errors))

settle-Honest :
    (e : Env) (silent : Bool) (c : Change) (w : Work) (r : Result (Detail × Bool) × Work)
    → Tried e silent w r
    → is_applied c.status ≡ false
    → Honest e c w (settle c r)
settle-Honest e silent c w (ok (d, true), w') h fresh = inr h
settle-Honest e silent c w (ok (d, false), w') h fresh = inl fresh
settle-Honest e silent c w (raised err, w') h fresh = h

-- A change that was not applied becomes so only if every call that was made for it returned, and then
-- no error is counted; and an exception leaves the response and the calls as they were.
pub apply_one-Honest :
    (e : Env) (auto : Bool) (a : Arn) (name : String) (specific : Option String) (c : Change)
    (w : Work)
    → is_applied c.status ≡ false
    → Honest e c w (apply_one e auto a name specific c w)
unfolding apply_one
apply_one-Honest e auto a name specific c w fresh = elim (Bool-cases (is_skipped specific c.id)) [
  | inl skipped ↦ rw (fresh, skipped) (inl fresh)
  | inr open_change ↦
      rw (fresh, open_change)
        (settle-Honest e _ c w _ (apply_detail-Tried e auto a name c c.detail w) fresh)
]
