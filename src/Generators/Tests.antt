-- ===== src/Generators/Tests.antt =====
-- Statements from concrete forms.
use consoleme.Base.{◌≡◌, refl, none, some, [], ◌∷◌, str_eq, fstring, if◌then◌else◌}
use consoleme.Generators.{
  s3, sqs, crud_lookup, one, many, Generator, missing_configuration_value,
  invalid_request_parameter, type_error, ok, raised, Env, generate_policy_statement, access_levels,
  access_level_actions, get_actions_from_groups, bucket_arns,
  get_policy_sentry_access_level_actions, generate_s3_inline_policy_statement_from_mapping,
  generate_inline_policy_statement_from_mapping,
  generate_inline_policy_statement_from_policy_sentry,
  generate_inline_iam_policy_statement_from_change_generator,
}
use consoleme.Generators.Asked.{Answer, entries}
use consoleme.Generators.Answered.{
  generate_inline_iam_policy_statement_from_change_generator-Answer,
}

abbrev e : Env
e = record {
  action_map = λ generator_type.
      if str_eq generator_type "s3"
      then some (
          record { name = "get"; permissions = some ("s3:GetObject" ∷ "s3:GetObjectTagging" ∷ []) }
          ∷ record { name = "list"; permissions = some ("s3:ListBucket" ∷ []) }
          ∷ [])
      else if str_eq generator_type "crud_lookup"
      then some (
          record { name = "get"; permissions = some ("Read" ∷ []) }
          ∷ record { name = "list"; permissions = none }
          ∷ [])
      else none;
  get_actions_with_access_level = λ service level. fstring (service ∷ ":Get" ∷ level ∷ []) ∷ [];
  iterate_and_format_dict = λ condition g. condition;
}

abbrev form : Generator
form = record {
  generator_type = s3;
  resource_arn = one "bucket";
  action_groups = "get" ∷ [];
  effect = "Allow";
  condition = none;
  service_name = "sqs";
  bucket_prefix = "logs/*";
  include_accounts = none;
  exclude_accounts = some [];
  extra_actions = some ("s3:GetObject" ∷ "s3:PutObject" ∷ []);
}

of_bucket :
    generate_inline_iam_policy_statement_from_change_generator e form
    ≡ ok (record {
      action = "s3:GetObjectTagging" ∷ "s3:GetObject" ∷ "s3:PutObject" ∷ [];
      effect = "Allow";
      resource = "arn:aws:s3:::bucket" ∷ "arn:aws:s3:::bucket/logs/*" ∷ [];
      condition = none;
      include_accounts = none;
      exclude_accounts = none;
    })
unfolding generate_inline_iam_policy_statement_from_change_generator get_actions_from_groups
    generate_s3_inline_policy_statement_from_mapping generate_policy_statement bucket_arns fstring
of_bucket = refl

-- The extra actions do not make up for a group that is not known.
of_unknown_group :
    generate_inline_iam_policy_statement_from_change_generator e
      (record form { action_groups = "delete" ∷ [] })
    ≡ raised (invalid_request_parameter ("delete" ∷ []))
unfolding generate_inline_iam_policy_statement_from_change_generator get_actions_from_groups
    generate_s3_inline_policy_statement_from_mapping
of_unknown_group = refl

of_queue :
    generate_inline_iam_policy_statement_from_change_generator e
      (record form { generator_type = sqs })
    ≡ raised missing_configuration_value
unfolding generate_inline_iam_policy_statement_from_change_generator
    generate_inline_policy_statement_from_mapping
of_queue = refl

abbrev lookup_form : Generator
lookup_form = record form {
  generator_type = crud_lookup;
  resource_arn = many ("*" ∷ "*" ∷ []);
  extra_actions = none;
}

of_lookup :
    generate_inline_iam_policy_statement_from_change_generator e lookup_form
    ≡ ok (record {
      action = "sqs:GetRead" ∷ [];
      effect = "Allow";
      resource = "*" ∷ [];
      condition = none;
      include_accounts = none;
      exclude_accounts = none;
    })
unfolding generate_inline_iam_policy_statement_from_change_generator access_level_actions
    access_levels get_policy_sentry_access_level_actions generate_policy_statement fstring
    generate_inline_policy_statement_from_policy_sentry
of_lookup = refl

of_entry_without_permissions :
    generate_inline_iam_policy_statement_from_change_generator e
      (record lookup_form { action_groups = "get" ∷ "list" ∷ [] })
    ≡ raised type_error
unfolding generate_inline_iam_policy_statement_from_change_generator access_level_actions
    access_levels generate_inline_policy_statement_from_policy_sentry
of_entry_without_permissions = refl

generate_inline_iam_policy_statement_from_change_generator-Answer_example :
    Answer e form s3
      (entries (e.action_map "s3"))
      (generate_inline_iam_policy_statement_from_change_generator e form)
generate_inline_iam_policy_statement_from_change_generator-Answer_example =
    generate_inline_iam_policy_statement_from_change_generator-Answer e form
