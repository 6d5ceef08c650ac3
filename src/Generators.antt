-- ===== src/Generators.antt =====
-- lib/change_request.py: the statements of inline policies that are made from what a user filled in
-- (models.py, ChangeGeneratorModel and its subclasses).
pub mod Answered
pub mod Asked
mod Loops
mod Tests
use consoleme.Base.{
  String, Bool, true, false, not, ◌||◌, Option, none, some, List, [], ◌∷◌, ◌++◌, elem, str_eq,
  starts_with, fstring, if◌then◌else◌,
}
use consoleme.Json.{Json, truthy}

pub data GeneratorType : Type 0 where
  advanced : GeneratorType
  crud_lookup : GeneratorType
  ec2 : GeneratorType
  generic : GeneratorType
  rds : GeneratorType
  route53 : GeneratorType
  s3 : GeneratorType
  ses : GeneratorType
  sns : GeneratorType
  sqs : GeneratorType
  sts : GeneratorType
  custom_iam : GeneratorType

-- `generator_type.value`
abbrev pub value : GeneratorType → String
value advanced = "advanced"
value crud_lookup = "crud_lookup"
value ec2 = "ec2"
value generic = "generic"
value rds = "rds"
value route53 = "route53"
value s3 = "s3"
value ses = "ses"
value sns = "sns"
value sqs = "sqs"
value sts = "sts"
value custom_iam = "custom_iam"

-- `Union[str, List[str]]`
pub data Arns : Type 0 where
  one : String → Arns
  many : List String → Arns

-- The fields that the making of a statement reads, of a form that names resources and groups; for one that
-- does not, the source raises a `TypeError`. `service_name` is of a lookup by access levels, `bucket_prefix`
-- of a bucket.
pub record Generator : Type 0 where
  pub generator_type : GeneratorType
  pub resource_arn : Arns
  pub action_groups : List String
  pub effect : String
  pub condition : Option Json
  pub service_name : String
  pub bucket_prefix : String
  pub include_accounts : Option (List String)
  pub exclude_accounts : Option (List String)
  pub extra_actions : Option (List String)

-- An entry of an `action_map`.
pub record PermissionGroup : Type 0 where
  pub name : String
  pub permissions : Option (List String)

pub data Failure : Type 0 where
  missing_configuration_value : Failure
  invalid_request_parameter : List String → Failure
  -- `actions += None`
  type_error : Failure

pub data Result (A : Type 0) : Type 0 where
  ok : A → Result A
  raised : Failure → Result A

pub record Statement : Type 0 where
  pub action : List String
  pub effect : String
  pub resource : List String
  pub condition : Option Json
  pub include_accounts : Option (List String)
  pub exclude_accounts : Option (List String)

-- `self_service_iam.permissions_map` by the type of generator, with the `action_map` of each; policy_sentry's
-- `get_actions_with_access_level`; and `iterate_and_format_dict` with the fields of the generator.
pub record Env : Type 0 where
  pub action_map : String → Option (List PermissionGroup)
  pub get_actions_with_access_level : (service level : String) → List String
  pub iterate_and_format_dict : Json → Generator → Json

-- `list(set(xs))`. The order is of no account.
abbrev pub list_set : List String → List String
list_set [] = []
list_set (x ∷ xs) = let rest = list_set xs in if elem x rest then rest else x ∷ rest

-- `x or []`
abbrev pub or_none : Option (List String) → List String
or_none none = []
or_none (some xs) = xs

abbrev pub if_any : Option (List String) → Option (List String)
if_any none = none
if_any (some []) = none
if_any (some (x ∷ xs)) = some (x ∷ xs)

abbrev pub if_truthy : Option Json → Option Json
if_truthy none = none
if_truthy (some j) = if truthy j then some j else none

unfoldable pub generate_policy_statement :
    (actions resources : List String) (effect : String) (condition : Option Json) → Statement
generate_policy_statement actions resources effect condition = record {
  action = list_set actions;
  effect = effect;
  resource = list_set resources;
  condition = if_truthy condition;
  include_accounts = none;
  exclude_accounts = none;
}

abbrev pub as_list : Arns → List String
as_list (one arn) = arn ∷ []
as_list (many arns) = arns

-- `for pm in permissions_map` for one group
abbrev pub permissions_for : String → List PermissionGroup → List String
permissions_for ag [] = []
permissions_for ag (pm ∷ rest) =
    let others = permissions_for ag rest in
    if str_eq pm.name ag then or_none pm.permissions ++ others else others

abbrev pub permissions_for_all : List String → List PermissionGroup → List String
permissions_for_all [] permissions_map = []
permissions_for_all (ag ∷ rest) permissions_map =
    permissions_for ag permissions_map ++ permissions_for_all rest permissions_map

abbrev pub unless_empty : List String → List String → Result (List String)
unless_empty action_groups [] = raised (invalid_request_parameter action_groups)
unless_empty action_groups (x ∷ xs) = ok (x ∷ xs)

unfoldable pub get_actions_from_groups :
    (action_groups : List String) → List PermissionGroup → Result (List String)
get_actions_from_groups action_groups permissions_map =
    unless_empty action_groups (permissions_for_all action_groups permissions_map)

-- The statement, from the actions of the groups and the extra ones.
abbrev pub stated :
    Generator → (resources : List String) → Option Json → Result (List String) → Result Statement
stated g resources condition (raised f) = raised f
stated g resources condition (ok actions) =
    ok (generate_policy_statement (actions ++ or_none g.extra_actions) resources g.effect condition)

abbrev pub with_scheme : String → String
with_scheme arn =
    if starts_with arn "arn:aws:s3:::" then arn else fstring ("arn:aws:s3:::" ∷ arn ∷ [])

abbrev pub with_slash : String → String
with_slash prefix = if starts_with prefix "/" then prefix else fstring ("/" ∷ prefix ∷ [])

-- The loop over the buckets, which sets the prefix of the generator.
unfoldable pub bucket_arns : (bucket_prefix : String) → List String → List String
bucket_arns bucket_prefix [] = []
bucket_arns bucket_prefix (arn ∷ rest) =
    let bucket = with_scheme arn in
    let prefix = with_slash bucket_prefix in
    bucket ∷ fstring (bucket ∷ prefix ∷ []) ∷ bucket_arns prefix rest

-- `if not permissions_map`
abbrev pub configured :
    {A : Type 0} → Option (List PermissionGroup) → (List PermissionGroup → Result A) → Result A
configured none k = raised missing_configuration_value
configured (some []) k = raised missing_configuration_value
configured (some (pm ∷ rest)) k = k (pm ∷ rest)

-- `access_level_actions += pm.get("permissions")`
abbrev pub and_levels : Option (List String) → Result (List String) → Result (List String)
and_levels none rest = raised type_error
and_levels (some levels) (raised f) = raised f
and_levels (some levels) (ok more) = ok (levels ++ more)

-- The loop over the map for one access, before what the other accesses give.
unfoldable pub access_levels :
    (access : String) → List PermissionGroup → Result (List String) → Result (List String)
access_levels access [] rest = rest
access_levels access (pm ∷ others) rest =
    let after = access_levels access others rest in
    if str_eq pm.name access then and_levels pm.permissions after else after

unfoldable pub access_level_actions :
    (action_groups : List String) → List PermissionGroup → Result (List String)
access_level_actions [] permissions_map = ok []
access_level_actions (access ∷ rest) permissions_map =
    access_levels access permissions_map (access_level_actions rest permissions_map)

module _ (e : Env) where
  unfoldable pub get_policy_sentry_access_level_actions :
      (service : String) → (access_levels : List String) → List String
  get_policy_sentry_access_level_actions service [] = []
  get_policy_sentry_access_level_actions service (level ∷ rest) =
      e.get_actions_with_access_level service level
      ++ get_policy_sentry_access_level_actions service rest

  unfoldable pub generate_s3_inline_policy_statement_from_mapping : Generator → Result Statement
  generate_s3_inline_policy_statement_from_mapping g =
      configured (e.action_map "s3") (λ permissions_map.
        stated g (bucket_arns g.bucket_prefix (as_list g.resource_arn)) g.condition
          (get_actions_from_groups g.action_groups permissions_map))

  abbrev pub condition_with_substitutions : Generator → Option Json → Option Json
  condition_with_substitutions g none = none
  condition_with_substitutions g (some condition) = some (e.iterate_and_format_dict condition g)

  unfoldable pub generate_inline_policy_statement_from_mapping : Generator → Result Statement
  generate_inline_policy_statement_from_mapping g =
      configured (e.action_map (value g.generator_type)) (λ permissions_map.
        stated g (as_list g.resource_arn) (condition_with_substitutions g g.condition)
          (get_actions_from_groups g.action_groups permissions_map))

  abbrev pub with_actions : Generator → Result (List String) → Result (List String)
  with_actions g (raised f) = raised f
  with_actions g (ok levels) = ok (get_policy_sentry_access_level_actions g.service_name levels)

  unfoldable pub generate_inline_policy_statement_from_policy_sentry : Generator → Result Statement
  generate_inline_policy_statement_from_policy_sentry g =
      configured (e.action_map "crud_lookup") (λ permissions_map.
        stated g (as_list g.resource_arn) g.condition
          (with_actions g (access_level_actions g.action_groups permissions_map)))

  abbrev pub statement_for : Generator → GeneratorType → Result Statement
  statement_for g s3 = generate_s3_inline_policy_statement_from_mapping g
  statement_for g crud_lookup = generate_inline_policy_statement_from_policy_sentry g
  statement_for g _ = generate_inline_policy_statement_from_mapping g

  -- The accounts that honeybee restricts the policy to.
  abbrev pub with_accounts : Generator → Result Statement → Result Statement
  with_accounts g (raised f) = raised f
  with_accounts g (ok policy) = ok (record policy {
    include_accounts = if_any g.include_accounts;
    exclude_accounts = if_any g.exclude_accounts;
  })

  unfoldable pub generate_inline_iam_policy_statement_from_change_generator :
      Generator → Result Statement
  generate_inline_iam_policy_statement_from_change_generator g =
      with_accounts g (statement_for g g.generator_type)
