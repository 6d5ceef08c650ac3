-- ===== src/Generators/Answered.antt =====
-- The statements of lib/change_request.py allow what they should.
use consoleme.Base.{
  String, ◌≡◌, refl, sym, ap, ◌∙◌, Bool, true, false, ◌||◌, Option, none, some, List, [], ◌∷◌, ◌++◌,
  elem, elem-append, is_none,
}
use consoleme.Json.{Json}
use consoleme.Generators.{
  advanced, ec2, generic, rds, route53, ses, sns, sqs, sts, custom_iam, GeneratorType, s3,
  crud_lookup, value, Generator, PermissionGroup, Result, ok, raised, Statement, Env, or_none,
  generate_policy_statement, as_list, permissions_for_all, unless_empty, get_actions_from_groups,
  stated, bucket_arns, configured, access_level_actions, with_actions,
  generate_s3_inline_policy_statement_from_mapping, generate_inline_policy_statement_from_mapping,
  generate_inline_policy_statement_from_policy_sentry, statement_for, with_accounts,
  generate_inline_iam_policy_statement_from_change_generator,
}
use consoleme.Generators.Asked.{
  is_granted, entries, is_lookup, is_bucket, gives, is_meant, Answer, Actions,
}
use consoleme.Generators.Loops.{
  elem-list_set, elem-permissions_for_all, elem-bucket_arns, Levels, access_level_actions-Levels,
  elem-get_policy_sentry_access_level_actions,
}

module _ (e : Env) (g : Generator) (t : GeneratorType) where
  stated-Answer :
      (pms : List PermissionGroup) (resources : List String) (condition : Option Json)
      (actions : Result (List String))
      → ((x : String) → elem x resources ≡ is_meant e g t x)
      → Actions e g t pms actions
      → Answer e g t pms (stated g resources condition actions)
  unfolding generate_policy_statement
  stated-Answer pms resources condition (raised f) h k = k
  stated-Answer pms resources condition (ok actions) h k = (
    λ x.
        elem-list_set x (actions ++ or_none g.extra_actions)
        ∙ elem-append x actions (or_none g.extra_actions)
        ∙ ap (λ (b : Bool). b || elem x (or_none g.extra_actions)) (k x),
    λ x. elem-list_set x resources ∙ h x,
    refl,
  )

  configured-Answer :
      (o : Option (List PermissionGroup)) (k : List PermissionGroup → Result Statement)
      → ((pms : List PermissionGroup) → Answer e g t pms (k pms))
      → Answer e g t (entries o) (configured o k)
  configured-Answer none k h = refl
  configured-Answer (some []) k h = refl
  configured-Answer (some (pm ∷ pms)) k h = h (pm ∷ pms)

  unless_empty-Actions :
      (pms : List PermissionGroup) (actions : List String)
      → Actions e g t pms (ok actions)
      → Actions e g t pms (unless_empty g.action_groups actions)
  unless_empty-Actions pms [] h = (refl, λ x. sym (h x))
  unless_empty-Actions pms (x ∷ xs) h = h

  get_actions_from_groups-Actions :
      (pms : List PermissionGroup)
      → is_lookup t ≡ false
      → Actions e g t pms (get_actions_from_groups g.action_groups pms)
  unfolding get_actions_from_groups
  get_actions_from_groups-Actions pms named =
      unless_empty-Actions pms (permissions_for_all g.action_groups pms)
        (λ x. rw named (elem-permissions_for_all x g.action_groups pms))

  with_actions-Actions :
      (pms : List PermissionGroup) (levels : Result (List String))
      → is_lookup t ≡ true
      → ((x : String)
          → Levels
              (λ level. elem x (e.get_actions_with_access_level g.service_name level))
              (is_granted (gives e g t x) g.action_groups pms)
              (is_granted is_none g.action_groups pms)
              levels)
      → Actions e g t pms (with_actions e g levels)
  with_actions-Actions pms (raised f) looked h = rw (h "").0 (looked, (h "").1)
  with_actions-Actions pms (ok levels) looked h =
      λ x. elem-get_policy_sentry_access_level_actions e g.service_name x levels ∙ h x

module _ (e : Env) (g : Generator) where
  mapped-Answer :
      (t : GeneratorType)
      → g.generator_type ≡ t
      → is_lookup t ≡ false
      → is_bucket t ≡ false
      → Answer e g t
          (entries (e.action_map (value t)))
          (generate_inline_policy_statement_from_mapping e g)
  unfolding generate_inline_policy_statement_from_mapping
  mapped-Answer t same named plain = rw same (
      configured-Answer e g t (e.action_map (value t)) _ (λ pms.
        stated-Answer e g t pms (as_list g.resource_arn) _
          (get_actions_from_groups g.action_groups pms) (λ x. rw plain refl)
          (get_actions_from_groups-Actions e g t pms named)))

  statement_for-Answer :
      (t : GeneratorType)
      → g.generator_type ≡ t
      → Answer e g t (entries (e.action_map (value t))) (statement_for e g t)
  unfolding generate_s3_inline_policy_statement_from_mapping
      generate_inline_policy_statement_from_policy_sentry
  statement_for-Answer s3 same = configured-Answer e g s3 (e.action_map "s3") _ (λ pms.
      stated-Answer e g s3 pms (bucket_arns g.bucket_prefix (as_list g.resource_arn)) g.condition
        (get_actions_from_groups g.action_groups pms)
        (λ x. elem-bucket_arns x g.bucket_prefix (as_list g.resource_arn))
        (get_actions_from_groups-Actions e g s3 pms refl))
  statement_for-Answer crud_lookup same =
      configured-Answer e g crud_lookup (e.action_map "crud_lookup") _ (λ pms.
        stated-Answer e g crud_lookup pms (as_list g.resource_arn) g.condition
          (with_actions e g (access_level_actions g.action_groups pms)) (λ x. refl)
          (with_actions-Actions e g crud_lookup pms (access_level_actions g.action_groups pms) refl
            (λ x. access_level_actions-Levels _ g.action_groups pms)))
  statement_for-Answer advanced same = mapped-Answer advanced same refl refl
  statement_for-Answer ec2 same = mapped-Answer ec2 same refl refl
  statement_for-Answer generic same = mapped-Answer generic same refl refl
  statement_for-Answer rds same = mapped-Answer rds same refl refl
  statement_for-Answer route53 same = mapped-Answer route53 same refl refl
  statement_for-Answer ses same = mapped-Answer ses same refl refl
  statement_for-Answer sns same = mapped-Answer sns same refl refl
  statement_for-Answer sqs same = mapped-Answer sqs same refl refl
  statement_for-Answer sts same = mapped-Answer sts same refl refl
  statement_for-Answer custom_iam same = mapped-Answer custom_iam same refl refl

  with_accounts-Answer :
      (t : GeneratorType) (pms : List PermissionGroup) (r : Result Statement)
      → Answer e g t pms r
      → Answer e g t pms (with_accounts e g r)
  with_accounts-Answer t pms (ok st) h = h
  with_accounts-Answer t pms (raised f) h = h

  -- A statement that is made allows or denies, as asked, exactly the actions that the configured map gives
  -- for the groups that are asked for (through the access levels, for a lookup) and the extra ones, on
  -- exactly the resources that are meant: of a bucket, the bucket and what is under the prefix, each with
  -- the scheme and the slash put in where they are missing. If none is made, the map is missing or empty, or
  -- the groups give no action, or a lookup meets an entry without permissions, as the exception says.
  pub generate_inline_iam_policy_statement_from_change_generator-Answer :
      Answer e g g.generator_type
        (entries (e.action_map (value g.generator_type)))
        (generate_inline_iam_policy_statement_from_change_generator e g)
  unfolding generate_inline_iam_policy_statement_from_change_generator
  generate_inline_iam_policy_statement_from_change_generator-Answer =
      with_accounts-Answer g.generator_type (entries (e.action_map (value g.generator_type)))
        (statement_for e g g.generator_type) (statement_for-Answer g.generator_type refl)
