-- ===== src/Sync/Tests.antt =====
-- The tests of cached roles, on concrete ones.
use consoleme.Base.{String, ◌≡◌, ◌≢◌, ◌↔◌, ◌⊎◌, refl, true, false, some, [], ◌∷◌, All, Some, elem}
use consoleme.Sync.{
  Tags, Restrictions, role_has_tag, role_has_managed_policy, actual_tags, has_items,
  allowed_to_sync_role,
}
use consoleme.Sync.Allowed.{HasTag, allowed_to_sync_role_iff}

abbrev restrictions : Restrictions
restrictions = record {
  allowed_tags = ("env", "test") ∷ ("team", "data") ∷ [];
  allowed_arns = "arn:aws:iam::123456789012:role/app" ∷ [];
  allowed_tag_keys = "consoleme-authorized" ∷ [];
}

abbrev tags : Tags
tags = ("env", "prod") ∷ ("team", "data") ∷ ("env", "test") ∷ []

-- The last of the two tags counts.
has_all_tags : allowed_to_sync_role restrictions "arn:aws:iam::123456789012:role/b" tags ≡ true
unfolding allowed_to_sync_role actual_tags has_items
has_all_tags = refl

first_tag_found : role_has_tag tags "env" (some "prod") ≡ true
unfolding role_has_tag
first_tag_found = refl

no_such_policy : role_has_managed_policy ("ReadOnlyAccess" ∷ []) "AdministratorAccess" ≡ false
unfolding role_has_managed_policy
no_such_policy = refl

allowed_to_sync_role_iff_example :
    (allowed_to_sync_role restrictions "arn:aws:iam::123456789012:role/b" tags ≡ true) ↔ (
      ((restrictions.allowed_tags ≡ [])
        × (restrictions.allowed_arns ≡ [])
        × (restrictions.allowed_tag_keys ≡ []))
      ⊎ ((elem "arn:aws:iam::123456789012:role/b" restrictions.allowed_arns ≡ true)
          ⊎ (Some (λ (t : String × String). elem t.0 restrictions.allowed_tag_keys ≡ true) tags
              ⊎ ((restrictions.allowed_tags ≢ []) × All (HasTag tags) restrictions.allowed_tags))))
allowed_to_sync_role_iff_example =
    allowed_to_sync_role_iff restrictions "arn:aws:iam::123456789012:role/b" tags
