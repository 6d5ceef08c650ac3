-- ===== src/Sync/Allowed.antt =====
-- Which roles may be synced.
use mathlib.Core.Option.{some_inj}
use consoleme.Base.{
  String, ◌≡◌, ◌≢◌, refl, sym, ap, ◌∙◌, ◌↔◌, ◌⊎◌, inl, inr, Bool, true, false, not, ◌&&◌, Option,
  none, some, List, [], ◌∷◌, All, Some, arith, any, any_iff, elem, str_eq, eq_iff, Dict, lookup,
  insert, lookup-insert, if◌then◌else◌,
}
use consoleme.Sync.{
  Tags, Restrictions, is_empty, actual_tags, is_at, has_items, key_allowed, allowed_to_sync_role,
}

-- The value of a key, if the last tag with it counts.
abbrev pub value_of : String → Option String → Tags → Option String
value_of key found [] = found
value_of key found ((k, v) ∷ tags) = value_of key (if str_eq key k then some v else found) tags

lookup-actual_tags :
    (key : String) (d : Dict String) (tags : Tags)
    → lookup key (actual_tags d tags) ≡ value_of key (lookup key d) tags
unfolding actual_tags
lookup-actual_tags key d [] = refl
lookup-actual_tags key d ((k, v) ∷ tags) =
    lookup-actual_tags key (insert k v d) tags
    ∙ ap (λ o. value_of key o tags) (lookup-insert key k v d)

-- The last tag with this key has this value.
abbrev pub HasTag : Tags → String × String → Type 0
HasTag tags t = value_of t.0 none tags ≡ some t.1

is_at_iff : (o : Option String) (v : String) → (is_at o v ≡ true) ↔ (o ≡ some v)
is_at_iff none v = (λ h. cc, λ h. cc)
is_at_iff (some w) v = (λ h. ap some ((eq_iff w v).0 h), λ h. (eq_iff w v).1 (some_inj.0 h))

has_items_iff :
    (allowed : Dict String) (tags : Tags)
    → (has_items allowed (actual_tags [] tags) ≡ true) ↔ All (HasTag tags) allowed
unfolding has_items
has_items_iff [] tags = (λ h. tt, λ h. refl)
has_items_iff ((k, v) ∷ allowed) tags =
    let here = is_at_iff (lookup k (actual_tags [] tags)) v in
    let same = lookup-actual_tags k [] tags in
    let rest = has_items_iff allowed tags in
    (
      λ h. (sym same ∙ here.0 (ground (arith, h)), rest.0 (ground (arith, h))),
      λ h. rw (here.1 (same ∙ h.0)) (rest.1 h.1),
    )

is_empty_iff : {A : Type 0} → (xs : List A) → (is_empty xs ≡ true) ↔ (xs ≡ [])
is_empty_iff [] = (λ h. refl, λ h. refl)
is_empty_iff (x ∷ xs) = (λ h. cc, λ h. cc)

not_empty_iff : {A : Type 0} → (xs : List A) → (not (is_empty xs) ≡ true) ↔ (xs ≢ [])
not_empty_iff [] = (λ h. cc, λ h. absurd (h refl))
not_empty_iff (x ∷ xs) = (λ h e. ground (arith, ap is_empty e), λ h. refl)

no_key :
    (keys : List String) (tags : Tags) → is_empty keys ≡ true → any (key_allowed keys) tags ≡ false
no_key [] [] h = refl
no_key [] (t ∷ tags) h = no_key [] tags h
no_key (k ∷ keys) tags h = cc

decided :
    (a b c d e f : Bool)
    → (c ≡ true → e ≡ false)
    → ((if a && (b && c) then true else if d then true else if not c && e then true else not a && f)
        ≡ true)
      ↔ (((a ≡ true) × (b ≡ true) × (c ≡ true))
          ⊎ ((d ≡ true) ⊎ ((e ≡ true) ⊎ ((not a ≡ true) × (f ≡ true)))))
decided a b c d e f h = (λ k. ground (arith, k, h), λ k. ground (arith, k, h))

-- A role may be synced exactly if nothing is configured, or its arn is listed, or it has a tag with a listed
-- key, or there are listed tags and it has all of them, where of tags with one key the last one counts.
pub allowed_to_sync_role_iff :
    (r : Restrictions) (arn : String) (tags : Tags)
    → (allowed_to_sync_role r arn tags ≡ true) ↔ (
        ((r.allowed_tags ≡ []) × (r.allowed_arns ≡ []) × (r.allowed_tag_keys ≡ []))
        ⊎ ((elem arn r.allowed_arns ≡ true)
            ⊎ (Some (λ (t : String × String). elem t.0 r.allowed_tag_keys ≡ true) tags
                ⊎ ((r.allowed_tags ≢ []) × All (HasTag tags) r.allowed_tags))))
unfolding allowed_to_sync_role
allowed_to_sync_role_iff r arn tags =
    let keys = r.allowed_tag_keys in
    let cases =
      decided (is_empty r.allowed_tags) (is_empty r.allowed_arns) (is_empty keys)
        (elem arn r.allowed_arns) (any (key_allowed keys) tags)
        (has_items r.allowed_tags (actual_tags [] tags)) (no_key keys tags) in
    (
      λ h. elim (cases.0 h) [
        | inl (a, b, c) ↦ inl ((is_empty_iff _).0 a, (is_empty_iff _).0 b, (is_empty_iff _).0 c)
        | inr (inl d) ↦ inr (inl d)
        | inr (inr (inl e)) ↦ inr (inr (inl ((any_iff (key_allowed keys) tags).0 e)))
        | inr (inr (inr (n, f))) ↦
            inr (inr (inr ((not_empty_iff _).0 n, (has_items_iff r.allowed_tags tags).0 f)))
      ],
      λ h. cases.1 (elim h [
        | inl (a, b, c) ↦ inl ((is_empty_iff _).1 a, (is_empty_iff _).1 b, (is_empty_iff _).1 c)
        | inr (inl d) ↦ inr (inl d)
        | inr (inr (inl e)) ↦ inr (inr (inl ((any_iff (key_allowed keys) tags).1 e)))
        | inr (inr (inr (n, f))) ↦
            inr (inr (inr ((not_empty_iff _).1 n, (has_items_iff r.allowed_tags tags).1 f)))
      ]),
    )
