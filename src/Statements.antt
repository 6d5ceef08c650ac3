-- ===== src/Statements.antt =====
-- The statements of a policy document, as lib/v2/requests.py reads them: which resources they name, and
-- which actions are for a resource (get_resources_from_policy_change, get_actions_for_resource).
use consoleme.Base.{
  String, Bool, false, not, ◌&&◌, ◌||◌, Option, none, some, List, [], ◌∷◌, ◌++◌, contains, lower,
  str_eq, elem, if◌then◌else◌,
}
use consoleme.Json.{Json, Items, Fields, nil, cons, end, get}
use consoleme.Aws.{Lookups, get_resource_account}
use consoleme.Requests.World.{Error, attribute_error, external, Result, ok, raised, chain}

-- `x if isinstance(x, list) else [x]` of `d.get(k, [])`
unfoldable pub listed_under : String → Fields → Items
unfolding get
listed_under k fs = elim (get k fs) [ none ↦ nil | some (Json.array xs) ↦ xs | some j ↦ cons j nil ]

-- What a loop goes over. What is no list of dictionaries raises, unless it is empty.
unfoldable pub iterated : Json → Result Items
iterated (Json.array xs) = ok xs
iterated (Json.object end) = ok nil
iterated (Json.text t) = if str_eq t "" then ok nil else raised attribute_error
iterated _ = raised attribute_error

-- `document.get("Statement", [])`
unfoldable pub statements : Json → Result Items
unfolding get iterated
statements (Json.object fs) = elim (get "Statement" fs) [ none ↦ ok nil | some j ↦ iterated j ]
statements _ = raised attribute_error

-- `resource_arn in statement.get("Resource")`: an item of a list, or a part of a text.
unfoldable pub text_in : String → Items → Bool
text_in s nil = false
text_in s (cons (Json.text t) xs) = str_eq s t || text_in s xs
text_in s (cons _ xs) = text_in s xs

unfoldable pub is_in : String → Option Json → Result Bool
unfolding text_in
is_in s (some (Json.array xs)) = ok (text_in s xs)
is_in s (some (Json.text t)) = ok (contains s t)
is_in s _ = raised attribute_error

-- The loop of `get_actions_for_resource`; `policy_sentry` says whose an action is.
unfoldable pub add_actions :
    (service_of : String → String) → (service : String) → Items → List String → List String
add_actions service_of service nil results = results
add_actions service_of service (cons (Json.text a) xs) results =
    let for_service =
      str_eq (service_of a) service
      || (str_eq (lower a) "sts:assumerole" && str_eq service "iam") in
    add_actions service_of service xs (
      if str_eq a "*"
      then results ++ a ∷ []
      else if for_service && not (elem a results)
      then results ++ a ∷ []
      else results)
add_actions service_of service (cons _ xs) results = add_actions service_of service xs results

unfoldable pub get_actions_for_resource :
    (service_of : String → String) → Lookups → (resource_arn : String) → Fields → List String
unfolding add_actions listed_under
get_actions_for_resource service_of l arn fs =
    add_actions service_of (l.parse_arn arn).service (listed_under "Action" fs) []

-- `ResourceModel`, without the name of the account.
pub record Resource : Type 0 where
  pub arn : String
  pub name : String
  pub account_id : String
  pub region : String
  pub resource_type : String
  pub actions : List String

module _ (service_of : String → String) (l : Lookups) where
  unfoldable pub resource_of : Fields → String → Resource
  unfolding get_actions_for_resource
  resource_of fs arn =
      let a = l.parse_arn arn in
      record {
        arn = arn;
        name = a.resource;
        account_id = get_resource_account l arn;
        region = a.region;
        resource_type = a.service;
        actions = get_actions_for_resource service_of l arn fs;
      }

  abbrev pub no_resource : Error
  no_resource =
      external
        (record { code = ""; message = "One or more resources must be specified in the policy." })

  -- The resources of one statement; those with a wildcard are passed over.
  unfoldable pub resources_of : Fields → Items → Result (List Resource)
  unfolding resource_of
  resources_of fs nil = ok []
  resources_of fs (cons (Json.text arn) xs) =
      let rest = resources_of fs xs in
      if contains "*" arn
      then rest
      else if str_eq arn ""
      then raised no_resource
      else chain rest (λ rs. ok (resource_of fs arn ∷ rs))
  resources_of fs (cons _ xs) = raised attribute_error

  unfoldable pub resources_in : Items → Result (List Resource)
  unfolding resources_of listed_under
  resources_in nil = ok []
  resources_in (cons (Json.object fs) xs) =
      chain (resources_of fs (listed_under "Resource" fs))
        (λ rs. chain (resources_in xs) (λ qs. ok (rs ++ qs)))
  resources_in (cons _ xs) = raised attribute_error
