-- ===== src/Generators/Asked.antt =====
-- What a statement made by lib/change_request.py should allow, and why none should be made.
use consoleme.Base.{
  String, ◌≡◌, Bool, true, false, ◌||◌, ◌&&◌, Option, none, some, List, [], ◌∷◌, elem, any, is_none,
  str_eq, fstring, if◌then◌else◌,
}
use consoleme.Generators.{
  GeneratorType, s3, crud_lookup, Generator, PermissionGroup, Failure, missing_configuration_value,
  invalid_request_parameter, type_error, Result, ok, raised, Statement, Env, or_none, as_list,
  with_scheme, with_slash,
}

-- A group that is asked for has an entry in the map whose permissions pass a test.
abbrev pub is_granted :
    (Option (List String) → Bool) → (action_groups : List String) → List PermissionGroup → Bool
is_granted test action_groups permissions_map =
    any
      (λ ag.
        any (λ (pm : PermissionGroup). str_eq pm.name ag && test pm.permissions) permissions_map)
      action_groups

abbrev pub entries : Option (List PermissionGroup) → List PermissionGroup
entries none = []
entries (some permissions_map) = permissions_map

abbrev pub is_lookup : GeneratorType → Bool
is_lookup crud_lookup = true
is_lookup _ = false

abbrev pub is_bucket : GeneratorType → Bool
is_bucket s3 = true
is_bucket _ = false

module _ (e : Env) (g : Generator) (t : GeneratorType) where
  -- Whether permissions give an action: they name it, or, for a lookup, they name an access level that has it.
  abbrev pub gives : (action : String) → Option (List String) → Bool
  gives action permissions =
      if is_lookup t
      then any (λ level. elem action (e.get_actions_with_access_level g.service_name level))
          (or_none permissions)
      else elem action (or_none permissions)

  -- Whether a resource is meant: a bucket, or what is under the prefix in it, or one of the arns.
  abbrev pub is_meant : (resource : String) → Bool
  is_meant resource =
      if is_bucket t
      then any
          (λ arn.
            str_eq resource (with_scheme arn)
            || str_eq resource (fstring (with_scheme arn ∷ with_slash g.bucket_prefix ∷ [])))
          (as_list g.resource_arn)
      else elem resource (as_list g.resource_arn)

  module _ (pms : List PermissionGroup) where
    -- Why no statement is made: there is no map, or no group that is asked for gives an action, or a lookup
    -- meets an entry without permissions.
    abbrev pub Failed : Failure → Type 0
    Failed missing_configuration_value = pms ≡ []
    Failed (invalid_request_parameter groups) =
        (groups ≡ g.action_groups)
        × ((x : String) → is_granted (gives x) g.action_groups pms ≡ false)
    Failed type_error = (is_lookup t ≡ true) × (is_granted is_none g.action_groups pms ≡ true)

    abbrev pub Answer : Result Statement → Type 0
    Answer (raised f) = Failed f
    Answer (ok st) =
        ((x : String)
          → elem x st.action
            ≡ (is_granted (gives x) g.action_groups pms || elem x (or_none g.extra_actions)))
        × ((x : String) → elem x st.resource ≡ is_meant x)
        × (st.effect ≡ g.effect)

    abbrev pub Actions : Result (List String) → Type 0
    Actions (raised f) = Failed f
    Actions (ok actions) = (x : String) → elem x actions ≡ is_granted (gives x) g.action_groups pms
