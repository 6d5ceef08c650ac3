-- ===== src/Requests/Stubs.antt =====
-- `generate_resource_policies`: for a role, the resources in other accounts that its inline policies name
-- get changes of their own policies, with empty documents that are filled in later.
pub mod Foreign
pub mod Extended
use consoleme.Base.{
  ℕ, suc, String, Bool, true, false, not, ◌&&◌, ◌||◌, Option, none, some, List, [], ◌∷◌, ◌++◌,
  length, ltb, str_eq, elem, truthy_text, if◌then◌else◌,
}
use consoleme.Json.{Json, Items, Fields, nil, cons, end, field, get}
use consoleme.Aws.{get_resource_account}
use consoleme.Models.{
  Principal, aws_resource, honeybee, PolicyModel, Status, ResourceChange, Detail, inline_policy,
  resource_policy, sts_resource_policy, InlineChange, Change, Request,
}
use consoleme.Requests.World.{Env, attribute_error, Result, ok, raised, chain}
use consoleme.Statements.{Resource, statements, listed_under, is_in, resources_in}

-- What the generation takes from outside the request: `policies.supported_trust_policy_permissions`, the
-- service of an action (`policy_sentry`), and fresh ids, by the number of those taken before.
pub record Sources : Type 0 where
  pub trust_permissions : List String
  pub service_of : String → String
  pub fresh : ℕ → String

unfoldable pub any_elem : Items → List String → Bool
any_elem nil xs = false
any_elem (cons (Json.text a) rest) xs = elem a xs || any_elem rest xs
any_elem (cons _ rest) xs = any_elem rest xs

-- `{"Version": "2012-10-17", "Statement": []}`
abbrev pub empty_policy : Json
empty_policy =
    Json.object (field "Version" (Json.text "2012-10-17") (field "Statement" (Json.array nil) end))

-- What is asked of a resource: nothing, or a change of its policy or of its trust policy.
pub data Need : Type 0 where
  nothing of_policy of_trust : Need

abbrev pub of_trust_if : Result Bool → Result Need
of_trust_if (ok true) = ok of_trust
of_trust_if (ok false) = ok nothing
of_trust_if (raised err) = raised err

module _ (e : Env) (s : Sources) where
  -- Does a statement that names this resource let the role be assumed? The first that does ends the loop.
  unfoldable pub is_trust_asked : (arn : String) → Items → Result Bool
  unfolding any_elem listed_under
  is_trust_asked arn nil = ok false
  is_trust_asked arn (cons (Json.object fs) xs) =
      let rest = is_trust_asked arn xs in
      elim (is_in arn (get "Resource" fs)) [
        | ok true ↦
            if any_elem (listed_under "Action" fs) s.trust_permissions then ok true else rest
        | ok false ↦ rest
        | raised err ↦ raised err
      ]
  is_trust_asked arn (cons _ xs) = raised attribute_error

  unfoldable pub need_of : (account : String) → Items → Resource → Result Need
  unfolding is_trust_asked
  need_of account sts r =
      let foreign = not (str_eq (get_resource_account e.lookups r.arn) account) in
      let trust = of_trust_if (is_trust_asked r.arn sts) in
      if foreign
        && (not (str_eq r.resource_type "iam")
            && elem r.resource_type e.config.supported_resource_types)
      then ok of_policy
      else if foreign && str_eq r.resource_type "iam"
      then trust
      else ok nothing

  abbrev stub_change : String → String → ResourceChange
  stub_change arn source = record {
    arn = arn;
    source_change_id = some source;
    supported = none;
    policy = record {
      version = none;
      policy_document = empty_policy;
      policy_sha256 = some (e.digest empty_policy);
    };
    old_policy = none;
  }

  unfoldable pub stub_of : Principal → (id source : String) → Detail → Change
  stub_of p id source d = record {
    id = id;
    principal = p;
    status = Status.not_applied;
    autogenerated = true;
    updated_by = none;
    detail = d;
  }

  unfoldable pub add_stub :
      Principal → (source : String) → Resource → List Change → Need → List Change
  unfolding stub_of
  add_stub p source r stubs nothing = stubs
  add_stub p source r stubs of_policy =
      stubs
      ++ stub_of p (s.fresh (length stubs)) source (resource_policy (stub_change r.arn source)) ∷ []
  add_stub p source r stubs of_trust =
      stubs
      ++ stub_of p (s.fresh (length stubs)) source (sts_resource_policy (stub_change r.arn source))
        ∷ []

  -- The loop over the resources of one inline policy, with the changes made so far.
  unfoldable pub stubs_for :
      Principal
      → (account source : String) → Items
      → List Resource
      → List Change
      → Result (List Change)
  stubs_for p account source sts [] stubs = ok stubs
  stubs_for p account source sts (r ∷ rs) stubs =
      chain (need_of account sts r)
        (λ need. stubs_for p account source sts rs (add_stub p source r stubs need))

  -- One change of the request.
  unfoldable pub stubs_of_policy :
      Principal
      → (account source : String) → Option PolicyModel
      → List Change
      → Result (List Change)
  stubs_of_policy p account source none stubs = raised attribute_error
  stubs_of_policy p account source (some m) stubs = chain (statements m.policy_document) (λ sts.
      chain (resources_in s.service_of e.lookups sts)
        (λ resources. stubs_for p account source sts resources stubs))

  unfoldable pub stubs_of :
      Principal → (account : String) → Change → Detail → List Change → Result (List Change)
  unfolding stubs_of_policy
  stubs_of p account c (inline_policy ch) stubs = stubs_of_policy p account c.id ch.policy stubs
  stubs_of p account c _ stubs = ok stubs

  unfoldable pub stubs_of_all :
      Principal → (account : String) → List Change → List Change → Result (List Change)
  stubs_of_all p account [] stubs = ok stubs
  stubs_of_all p account (c ∷ cs) stubs =
      chain (stubs_of p account c c.detail stubs) (stubs_of_all p account cs)

  abbrev pub with_stubs : Request → List Change → Request
  with_stubs r stubs = record r {
    changes = r.changes ++ stubs;
    cross_account = r.cross_account || ltb 0 (length stubs);
  }

  unfoldable pub generate_for_arn : String → Request → Result Request
  generate_for_arn arn r =
      let a = e.lookups.parse_arn arn in
      let stubs = stubs_of_all r.principal (get_resource_account e.lookups arn) r.changes [] in
      let with_all = chain stubs (λ cs. ok (with_stubs r cs)) in
      if not (str_eq a.service "iam") || not (str_eq a.resource "role")
      then ok r
      else if not (truthy_text (some a.resource_path))
      then ok r
      else with_all

  -- For another principal the source returns `None`; it is not called for one.
  unfoldable pub generate_for_principal : Principal → Request → Result Request
  unfolding generate_for_arn
  generate_for_principal (aws_resource arn) r = generate_for_arn arn r
  generate_for_principal (honeybee _ _ _) r = raised attribute_error

  unfoldable pub generate_resource_policies : Request → Result Request
  unfolding generate_for_principal
  generate_resource_policies r = generate_for_principal r.principal r
