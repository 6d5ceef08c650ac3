-- ===== src/Generators/Loops.antt =====
-- What the loops of lib/change_request.py over groups, levels and buckets collect.
use consoleme.Base.{
  String, ◌≡◌, refl, Bool, true, false, ◌||◌, ◌&&◌, ◌⊎◌, Option, none, some, List, [], ◌∷◌, ◌++◌,
  elem, elem-append, any, is_none, str_eq, eq_iff, starts_with, fstring, arith, Bool-cases, inl,
  inr, if◌then◌else◌,
}
use text.Mathlib.TextPositions.{starts_with-append}
use consoleme.Generators.{
  PermissionGroup, type_error, Result, ok, raised, Env, list_set, or_none, permissions_for,
  permissions_for_all, with_scheme, with_slash, bucket_arns, and_levels, access_levels,
  access_level_actions, get_policy_sentry_access_level_actions,
}
use consoleme.Generators.Asked.{is_granted}

pub elem-list_set : (x : String) (xs : List String) → elem x (list_set xs) ≡ elem x xs
elem-list_set x [] = refl
elem-list_set x (y ∷ ys) = ground (arith, eq_iff x y, elem-list_set x ys, elem-list_set y ys)

elem-permissions_for :
    (x ag : String) (pms : List PermissionGroup)
    → elem x (permissions_for ag pms)
      ≡ any (λ (pm : PermissionGroup). str_eq pm.name ag && elem x (or_none pm.permissions)) pms
elem-permissions_for x ag [] = refl
elem-permissions_for x ag (pm ∷ pms) = ground (
  arith,
  elem-permissions_for x ag pms,
  elem-append x (or_none pm.permissions) (permissions_for ag pms),
)

pub elem-permissions_for_all :
    (x : String) (groups : List String) (pms : List PermissionGroup)
    → elem x (permissions_for_all groups pms) ≡ is_granted (λ ps. elem x (or_none ps)) groups pms
elem-permissions_for_all x [] pms = refl
elem-permissions_for_all x (ag ∷ groups) pms =
    rw
      (
        elem-append x (permissions_for ag pms) (permissions_for_all groups pms),
        elem-permissions_for x ag pms,
        elem-permissions_for_all x groups pms,
      )
      refl

with_slash-with_slash : (prefix : String) → with_slash (with_slash prefix) ≡ with_slash prefix
unfolding fstring
with_slash-with_slash prefix = elim (Bool-cases (starts_with prefix "/")) [
  | inl slash ↦ rw (slash, slash) refl
  | inr other ↦ rw (other, starts_with-append "/" (fstring (prefix ∷ []))) refl
]

pub elem-bucket_arns :
    (x prefix : String) (arns : List String)
    → elem x (bucket_arns prefix arns)
      ≡ any
          (λ arn.
            str_eq x (with_scheme arn)
            || str_eq x (fstring (with_scheme arn ∷ with_slash prefix ∷ [])))
          arns
unfolding bucket_arns
elem-bucket_arns x prefix [] = refl
elem-bucket_arns x prefix (arn ∷ arns) =
    let rest = rw (with_slash-with_slash prefix) at (elem-bucket_arns x (with_slash prefix) arns) in
    ground (arith, rest)

-- Whether one of the levels passes, or why there are none.
abbrev pub Levels : (test : String → Bool) (gains failures : Bool) → Result (List String) → Type 0
Levels test gains failures (ok levels) = any test levels ≡ gains
Levels test gains failures (raised f) = (f ≡ type_error) × (failures ≡ true)

any-append :
    (test : String → Bool) (xs ys : List String)
    → any test (xs ++ ys) ≡ (any test xs || any test ys)
any-append test [] ys = refl
any-append test (x ∷ xs) ys = ground (arith, any-append test xs ys)

module _ (test : String → Bool) where
  -- What a loop makes of the answer for the rest: whether it gives something that passes, and whether it fails.
  abbrev With : (gain fails : Bool) (answer rest : Result (List String)) → Type 0
  With gain fails (ok levels) (ok more) = any test levels ≡ (gain || any test more)
  With gain fails (ok levels) (raised f) = ⊥
  With gain fails (raised f) rest = ((f ≡ type_error) × (fails ≡ true)) ⊎ (rest ≡ raised f)

  and_levels-With :
      (b : Bool) (ps : Option (List String)) (gain fails : Bool)
      (answer rest : Result (List String))
      → With gain fails answer rest
      → With
          ((b && any test (or_none ps)) || gain)
          ((b && is_none ps) || fails)
          (if b then and_levels ps answer else answer)
          rest
  and_levels-With false ps gain fails answer rest h = h
  and_levels-With true none gain fails answer rest h = inl (refl, refl)
  and_levels-With true (some levels) gain fails (raised f) rest h = h
  and_levels-With true (some levels) gain fails (ok now) (ok more) h =
      ground (arith, h, any-append test levels now)
  and_levels-With true (some levels) gain fails (ok now) (raised f) h = h

  access_levels-With :
      (ag : String) (pms : List PermissionGroup) (rest : Result (List String))
      → With
          (any
            (λ (pm : PermissionGroup). str_eq pm.name ag && any test (or_none pm.permissions))
            pms)
          (any (λ (pm : PermissionGroup). str_eq pm.name ag && is_none pm.permissions) pms)
          (access_levels ag pms rest)
          rest
  unfolding access_levels
  access_levels-With ag [] (ok more) = refl
  access_levels-With ag [] (raised f) = inr refl
  access_levels-With ag (pm ∷ pms) rest =
      and_levels-With (str_eq pm.name ag) pm.permissions _ _ (access_levels ag pms rest) rest
        (access_levels-With ag pms rest)

  With-Levels :
      (gain fails gains failures : Bool) (answer rest : Result (List String))
      → With gain fails answer rest
      → Levels test gains failures rest
      → Levels test (gain || gains) (fails || failures) answer
  With-Levels gain fails gains failures (ok levels) (ok more) h k = ground (arith, h, k)
  With-Levels gain fails gains failures (ok levels) (raised f) h k = absurd h
  With-Levels gain fails gains failures (raised f) rest h k = elim h [
    | inl now ↦ (now.0, ground (arith, now.1))
    | inr later ↦ let now = rw later at k in (now.0, ground (arith, now.1))
  ]

  pub access_level_actions-Levels :
      (groups : List String) (pms : List PermissionGroup)
      → Levels test
          (is_granted (λ ps. any test (or_none ps)) groups pms)
          (is_granted is_none groups pms)
          (access_level_actions groups pms)
  unfolding access_level_actions
  access_level_actions-Levels [] pms = refl
  access_level_actions-Levels (ag ∷ groups) pms =
      With-Levels _ _ _ _ (access_levels ag pms (access_level_actions groups pms))
        (access_level_actions groups pms)
        (access_levels-With ag pms (access_level_actions groups pms))
        (access_level_actions-Levels groups pms)

pub elem-get_policy_sentry_access_level_actions :
    (e : Env) (service x : String) (levels : List String)
    → elem x (get_policy_sentry_access_level_actions e service levels)
      ≡ any (λ level. elem x (e.get_actions_with_access_level service level)) levels
unfolding get_policy_sentry_access_level_actions
elem-get_policy_sentry_access_level_actions e service x [] = refl
elem-get_policy_sentry_access_level_actions e service x (level ∷ levels) = ground (
  arith,
  elem-append x (e.get_actions_with_access_level service level)
      (get_policy_sentry_access_level_actions e service levels),
  elem-get_policy_sentry_access_level_actions e service x levels,
)
