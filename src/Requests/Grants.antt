-- ===== src/Requests/Grants.antt =====
-- `populate_cross_account_resource_policies`, its last part: the actions and resources of an inline policy
-- that the policy of a resource in another account has to allow. With `generate_updated_resource_policy` of
-- lib/aws.py.
pub mod Added
pub mod Given
pub mod Sound
use Prim.Native.String
use consoleme.Base.{
  String, Bool, true, false, not, ◌&&◌, ◌||◌, Option, none, some, List, [], ◌∷◌, ◌++◌, map,
  starts_with, contains, str_eq, elem, fstring, truthy_text, if◌then◌else◌,
}
use consoleme.Json.{Json, Items, Fields, nil, cons, end, field, get}
use consoleme.Aws.{get_resource_account}
use consoleme.Models.{
  Principal, aws_resource, honeybee, PolicyModel, Status, is_applied, ResourceChange, Detail,
  inline_policy, resource_policy, sts_resource_policy, Change, AwsPrincipal, Arn,
}
use consoleme.Requests.World.{Env, attribute_error, Result, ok, raised, chain}
use consoleme.Requests.Role.{principal_name}
use consoleme.Statements.{statements, listed_under, is_in}
use consoleme.Requests.Stubs.{empty_policy}

unfoldable pub texts : List String → Items
texts [] = nil
texts (s ∷ rest) = cons (Json.text s) (texts rest)

-- `xs.append(x)`
unfoldable pub append : Items → Json → Items
append nil x = cons x nil
append (cons y ys) x = cons y (append ys x)

-- `d[k] = v`, for a key that is there.
unfoldable pub replace : String → Json → Fields → Fields
replace k v end = end
replace k v (field j w fs) =
    let rest = replace k v fs in if str_eq k j then field j v fs else field j w rest

unfoldable pub new_statement :
    (principal_arn : String)
    → (resource_arns actions : List String) → (include_resources : Bool) → Json
unfolding texts
new_statement principal_arn resource_arns actions include_resources = Json.object (
    field "Effect" (Json.text "Allow") (
      field "Principal"
        (Json.object (field "AWS" (Json.array (cons (Json.text principal_arn) nil)) end))
        (field "Action" (Json.array (texts actions)) (
          if include_resources
          then field "Resource" (Json.array (texts resource_arns)) end
          else end))))

abbrev pub with_statement : Fields → Json → Option Json → Result Json
with_statement fs st (some (Json.array xs)) =
    ok (Json.object (replace "Statement" (Json.array (append xs st)) fs))
with_statement fs st _ = raised attribute_error

-- The actions come in the order of their set. A policy without a list of statements raises.
unfoldable pub generate_updated_resource_policy : (existing statement : Json) → Result Json
unfolding append replace get
generate_updated_resource_policy (Json.object fs) st = with_statement fs st (get "Statement" fs)
generate_updated_resource_policy _ st = raised attribute_error

-- The characters of a text that have this text in them.
unfoldable pub characters_with : String → String → List String
characters_with arn String.[] = []
characters_with arn (String.◌∷◌ c s) =
    let rest = characters_with arn s in
    if contains arn (String.◌∷◌ c String.[]) then String.◌∷◌ c String.[] ∷ rest else rest

unfoldable pub resources_with : String → Items → Result (List String)
resources_with arn nil = ok []
resources_with arn (cons (Json.text t) xs) =
    chain (resources_with arn xs) (λ rest. ok (if contains arn t then t ∷ rest else rest))
resources_with arn (cons _ xs) = raised attribute_error

-- `for resource in statement.get("Resource")`: a text is gone through by its characters.
unfoldable pub resource_arns_of : String → Option Json → Result (List String)
unfolding characters_with resources_with
resource_arns_of arn (some (Json.array xs)) = resources_with arn xs
resource_arns_of arn (some (Json.text t)) = ok (characters_with arn t)
resource_arns_of arn _ = raised attribute_error

module _ (trust_permissions : List String) (resource_type : String) (is_trust : Bool) where
  -- Which actions of the inline policy the policy of the resource has to allow.
  unfoldable pub is_wanted : String → Bool
  is_wanted action =
      (starts_with action (fstring (resource_type ∷ ":" ∷ []))
        || (str_eq resource_type "iam" && starts_with action "sts"))
      && (if is_trust then elem action trust_permissions else true)

  unfoldable pub wanted : Items → Result (List String)
  unfolding is_wanted
  wanted nil = ok []
  wanted (cons (Json.text a) xs) =
      chain (wanted xs) (λ rest. ok (if is_wanted a then a ∷ rest else rest))
  wanted (cons _ xs) = raised attribute_error

  abbrev pub Grant : Type 0
  Grant = List String × List String

  abbrev pub joined : Grant → Grant → Grant
  joined g h = (g.0 ++ h.0, g.1 ++ h.1)

  -- The actions and resources of one statement.
  unfoldable pub grant_of : (arn : String) → Fields → Result Grant
  unfolding wanted resource_arns_of listed_under
  grant_of arn fs =
      chain (wanted (listed_under "Action" fs))
        (λ actions. chain (resource_arns_of arn (get "Resource" fs)) (λ arns. ok (actions, arns)))

  abbrev pub if_named : Result Bool → Result Grant → Result Grant
  if_named (ok true) g = g
  if_named (ok false) g = ok ([], [])
  if_named (raised err) g = raised err

  unfoldable pub grants : (arn : String) → Items → Result Grant
  unfolding grant_of is_in
  grants arn nil = ok ([], [])
  grants arn (cons (Json.object fs) xs) =
      chain (if_named (is_in arn (get "Resource" fs)) (grant_of arn fs))
        (λ g. chain (grants arn xs) (λ rest. ok (joined g rest)))
  grants arn (cons _ xs) = raised attribute_error

  unfoldable pub grants_of_policy : (arn : String) → Option PolicyModel → Result Grant
  unfolding grants
  grants_of_policy arn none = raised attribute_error
  grants_of_policy arn (some m) = chain (statements m.policy_document) (grants arn)

  -- Of one change, if it is the source.
  unfoldable pub grants_of :
      (arn : String) → (source : Option String) → Change → Detail → Result Grant
  unfolding grants_of_policy
  grants_of arn (some source) c (inline_policy ch) =
      if str_eq c.id source then grants_of_policy arn ch.policy else ok ([], [])
  grants_of arn _ c _ = ok ([], [])

  unfoldable pub grants_of_all :
      (arn : String) → (source : Option String) → List Change → Result Grant
  unfolding grants_of
  grants_of_all arn source [] = ok ([], [])
  grants_of_all arn source (c ∷ cs) =
      chain (grants_of arn source c c.detail)
        (λ g. chain (grants_of_all arn source cs) (λ rest. ok (joined g rest)))
