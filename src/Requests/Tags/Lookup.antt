-- ===== src/Requests/Tags/Lookup.antt =====
-- The tag set that is written to a bucket, read as a map from keys to values.
use consoleme.Base.{
  String, ◌≡◌, refl, ◌↔◌, Bool, true, false, ◌&&◌, Option, none, some, List, [], ◌∷◌, ◌++◌, arith,
  eq_iff, ap, if◌then◌else◌,
}
use consoleme.Models.{TagChange}
use consoleme.Requests.Steps.{same_text, is_rename}
use consoleme.Requests.Tags.{Tag, retag, preexists, updated_tags, deleted_tags}

pub same_text_iff : (a b : Option String) → (same_text a b ≡ true) ↔ (a ≡ b)
unfolding same_text
same_text_iff none none = (λ h. refl, λ h. refl)
same_text_iff none (some b) = (λ h. cc, λ h. cc)
same_text_iff (some a) none = (λ h. cc, λ h. cc)
same_text_iff (some a) (some b) = (λ h. ap some ((eq_iff a b).0 h), λ h. (eq_iff a b).1 (cc h))

-- The value of the first tag with this key.
abbrev pub value_of : Option String → List Tag → Option (Option String)
value_of key [] = none
value_of key ((k, v) ∷ tags) = if same_text key k then some v else value_of key tags

abbrev or_else : Option (Option String) → Option (Option String) → Option (Option String)
or_else none y = y
or_else (some v) y = some v

value_of-append :
    (k : Option String) (xs ys : List Tag)
    → value_of k (xs ++ ys) ≡ or_else (value_of k xs) (value_of k ys)
value_of-append k [] ys = refl
value_of-append k ((j, v) ∷ xs) ys = ground (arith, value_of-append k xs ys)

-- The old name of a tag that gets a new one.
abbrev pub is_old_name : TagChange → Option String → Bool
is_old_name t k = is_rename t && same_text k t.original_key

module _ (t : TagChange) where
  value_of-retag :
      (k : Option String) (tags : List Tag)
      → value_of k (retag t tags) ≡ (
          if is_old_name t k
          then none
          else if same_text t.key k
          then (if preexists t tags then some t.value else none)
          else value_of k tags)
  unfolding retag preexists
  value_of-retag k [] = ground arith
  value_of-retag k ((j, v) ∷ tags) = ground (
    arith,
    value_of-retag k tags,
    same_text_iff k j,
    same_text_iff t.key j,
    same_text_iff t.key k,
    same_text_iff j t.original_key,
    same_text_iff k t.original_key,
  )

  new_name : is_old_name t t.key ≡ false
  unfolding is_rename
  new_name = ground (arith, same_text_iff t.original_key t.key, same_text_iff t.key t.original_key)

  -- What the tags of a bucket are after a tag is created or updated: the key has the new value, the old
  -- name of a renamed tag is gone, and every other key has the value that it had.
  pub value_of-updated_tags :
      (k : Option String) (tags : List Tag)
      → value_of k (updated_tags t tags) ≡ (
          if same_text t.key k
          then some t.value
          else if is_old_name t k
          then none
          else value_of k tags)
  unfolding updated_tags
  value_of-updated_tags k tags = ground (
    arith,
    value_of-retag k tags,
    new_name,
    same_text_iff t.key k,
    same_text_iff k t.key,
    value_of-append k (retag t tags) ((t.key, t.value) ∷ []),
  )

  -- What they are after a tag is deleted: its key is gone, and the others are as they were.
  value_of-deleted_tags :
      (k : Option String) (tags : List Tag)
      → value_of k (deleted_tags t tags) ≡ (if same_text k t.key then none else value_of k tags)
  unfolding deleted_tags
  value_of-deleted_tags k [] = ground arith
  value_of-deleted_tags k ((j, v) ∷ tags) = ground (
    arith,
    value_of-deleted_tags k tags,
    same_text_iff k j,
    same_text_iff j t.key,
    same_text_iff k t.key,
  )
