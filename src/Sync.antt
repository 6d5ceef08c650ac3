-- ===== src/Sync.antt =====
-- lib/aws.py: the tests of cached roles (role_has_tag, role_has_managed_policy, allowed_to_sync_role).
pub mod Allowed
mod Tests
use consoleme.Base.{
  String, Bool, true, false, not, ◌&&◌, ◌||◌, Option, none, some, List, [], ◌∷◌, str_eq, elem, any,
  truthy_text, Dict, lookup, insert, if◌then◌else◌,
}

-- Tags with their keys and values.
abbrev pub Tags : Type 0
Tags = List (String × String)

-- `not value or tag.get("Value") == value`
abbrev pub is_value : Option String → String → Bool
is_value none v = true
is_value (some value) v = if truthy_text (some value) then str_eq v value else true

unfoldable pub role_has_tag : Tags → (key : String) → (value : Option String) → Bool
role_has_tag [] key value = false
role_has_tag ((k, v) ∷ tags) key value =
    let rest = role_has_tag tags key value in
    if str_eq k key && is_value value v then true else rest

-- The names of the attached policies.
unfoldable pub role_has_managed_policy : List String → (managed_policy_name : String) → Bool
role_has_managed_policy [] name = false
role_has_managed_policy (p ∷ ps) name =
    let rest = role_has_managed_policy ps name in if str_eq p name then true else rest

-- The `roles` of the configuration.
pub record Restrictions : Type 0 where
  pub allowed_tags : Dict String
  pub allowed_arns : List String
  pub allowed_tag_keys : List String

abbrev pub is_empty : {A : Type 0} → List A → Bool
is_empty [] = true
is_empty (x ∷ xs) = false

-- `{d["Key"]: d["Value"] for d in role_tags}`: of tags with one key, the last one counts.
unfoldable pub actual_tags : Dict String → Tags → Dict String
actual_tags d [] = d
actual_tags d ((k, v) ∷ tags) = actual_tags (insert k v d) tags

abbrev pub is_at : Option String → String → Bool
is_at none v = false
is_at (some w) v = str_eq w v

-- `allowed_tags.items() <= actual_tags.items()`
unfoldable pub has_items : Dict String → Dict String → Bool
has_items [] actual = true
has_items ((k, v) ∷ allowed) actual = is_at (lookup k actual) v && has_items allowed actual

abbrev pub key_allowed : List String → String × String → Bool
key_allowed keys tag = elem tag.0 keys

unfoldable pub allowed_to_sync_role : Restrictions → (role_arn : String) → (role_tags : Tags) → Bool
unfolding actual_tags has_items
allowed_to_sync_role r role_arn role_tags =
    if is_empty r.allowed_tags && (is_empty r.allowed_arns && is_empty r.allowed_tag_keys)
    then true
    else if elem role_arn r.allowed_arns
    then true
    else if not (is_empty r.allowed_tag_keys) && any (key_allowed r.allowed_tag_keys) role_tags
    then true
    else not (is_empty r.allowed_tags) && has_items r.allowed_tags (actual_tags [] role_tags)
