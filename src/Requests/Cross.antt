-- ===== src/Requests/Cross.antt =====
-- `populate_cross_account_resource_policies`: the policies of resources in other accounts are read again, and
-- generated changes get a policy with one statement more.
mod Generated
pub mod Populated
pub mod Renewed
use consoleme.Base.{
  String, Bool, true, false, not, ◌&&◌, ◌||◌, Option, none, some, List, [], ◌∷◌, str_eq, elem,
  truthy_text, if◌then◌else◌,
}
use consoleme.Json.{Json}
use consoleme.Aws.{get_resource_account}
use consoleme.Models.{
  Principal, aws_resource, honeybee, PolicyModel, is_applied, ResourceChange, Detail,
  resource_policy, sts_resource_policy, Change, AwsPrincipal, Arn,
}
use consoleme.Requests.World.{Env, attribute_error, Result, ok, raised, chain}
use consoleme.Requests.Role.{principal_name}
use consoleme.Requests.Stubs.{empty_policy}
use consoleme.Requests.Grants.{
  Grant, new_statement, generate_updated_resource_policy, grants_of_all,
}

-- What is read: `get_account_id_to_name_mapping`, `get_resource_policy`, `get_role_details`, the permissions
-- of `policies.supported_trust_policy_permissions`, and the order that a set of texts has as a list.
pub record Reads : Type 0 where
  pub all_accounts : List String
  pub get_resource_policy : (account resource_type name region : String) → Json
  pub get_role_details : (account role_name : String) → Option AwsPrincipal
  pub trust_permissions : List String
  pub list_of_set : List String → List String

-- A change of a policy, and whether it has changed. What was set before an exception stays.
abbrev pub Populated : Type 0
Populated = Result Bool × ResourceChange

-- `change.old_policy and old_policy_sha256 == change.old_policy.policy_sha256`
unfoldable pub is_unchanged : (sha : String) → Option PolicyModel → Bool
is_unchanged sha none = false
is_unchanged sha (some m) = same m.policy_sha256
  where
    same : Option String → Bool
    same none = false
    same (some old) = str_eq sha old

module _ (e : Env) (reads : Reads) (principal_arn : String) (changes : List Change) where
  abbrev pub model_of : Json → PolicyModel
  model_of doc = record {
    version = none;
    policy_document = doc;
    policy_sha256 = some (e.digest doc);
  }

  abbrev pub with_policy : ResourceChange → Result Json → Populated
  with_policy rc (ok doc) = (ok true, record rc { policy = model_of doc })
  with_policy rc (raised err) = (raised err, rc)

  -- The new policy of a generated change.
  unfoldable pub generated_policy :
      (is_trust : Bool) → ResourceChange → (existing : Json) → Result Json
  generated_policy is_trust rc existing =
      chain
        (grants_of_all reads.trust_permissions (e.lookups.parse_arn rc.arn).service is_trust rc.arn
          rc.source_change_id changes)
        (λ g. generate_updated_resource_policy existing (
          new_statement principal_arn (reads.list_of_set g.1) (reads.list_of_set g.0)
            (not is_trust)))

  -- Behind the read of the present policy.
  unfoldable pub with_old :
      (is_trust autogenerated : Bool) → ResourceChange → (old : Json) → Populated
  unfolding is_unchanged generated_policy
  with_old is_trust autogenerated rc old =
      let rc' = record rc { old_policy = some (model_of old) } in
      if is_unchanged (e.digest old) rc.old_policy
      then (ok false, rc)
      else if not autogenerated
      then (ok true, rc')
      else with_policy rc' (generated_policy is_trust rc' old)

  abbrev pub account_of_arn : String → String
  account_of_arn arn =
      let account = (e.lookups.parse_arn arn).account in
      if truthy_text (some account) then account else get_resource_account e.lookups arn

  abbrev pub with_role : (autogenerated : Bool) → ResourceChange → Option AwsPrincipal → Populated
  with_role autogenerated rc none = (ok false, rc)
  with_role autogenerated rc (some p) = with_old true autogenerated rc p.assume_role_policy_document

  -- The account is not known, or is none of the organization's.
  abbrev pub populate_unknown : (is_trust autogenerated : Bool) → ResourceChange → Populated
  populate_unknown is_trust autogenerated rc =
      with_old is_trust autogenerated (record rc { supported = some false }) empty_policy

  abbrev pub is_supported : (is_trust : Bool) → (resource_type : String) → Bool
  is_supported is_trust resource_type =
      elem resource_type e.config.supported_resource_types
      || (is_trust && e.config.sts_resource_policy_supported)

  abbrev pub populate_known :
      (is_trust autogenerated : Bool) → ResourceChange → Arn → (account : String) → Populated
  populate_known true autogenerated rc a account =
      with_role autogenerated (record rc { supported = some (is_supported true a.service) })
        (reads.get_role_details account (principal_name a))
  populate_known false autogenerated rc a account =
      with_old false autogenerated (record rc { supported = some (is_supported false a.service) })
        (reads.get_resource_policy account a.service a.resource a.region)

  unfoldable pub populate_resource : (is_trust autogenerated : Bool) → ResourceChange → Populated
  unfolding with_old
  populate_resource is_trust autogenerated rc =
      let account = account_of_arn rc.arn in
      if not (truthy_text (some account)) || not (elem account reads.all_accounts)
      then populate_unknown is_trust autogenerated rc
      else populate_known is_trust autogenerated rc (e.lookups.parse_arn rc.arn) account

  abbrev pub with_detail : Change → (ResourceChange → Detail) → Populated → Result Bool × Change
  with_detail c d q = (q.0, record c { detail = d q.1 })

  unfoldable pub populate_cross_account_resource_policy_for_change :
      Change → Detail → Result Bool × Change
  unfolding populate_resource
  populate_cross_account_resource_policy_for_change c (resource_policy rc) =
      if is_applied c.status
      then (ok false, c)
      else with_detail c resource_policy (populate_resource false c.autogenerated rc)
  populate_cross_account_resource_policy_for_change c (sts_resource_policy rc) =
      if is_applied c.status
      then (ok false, c)
      else with_detail c sts_resource_policy (populate_resource true c.autogenerated rc)
  populate_cross_account_resource_policy_for_change c _ = (ok false, c)

  -- Has any policy changed? The first exception of the list is raised.
  abbrev pub either : Result Bool → Result Bool → Result Bool
  either (ok b) (ok c) = ok (b || c)
  either (ok b) (raised err) = raised err
  either (raised err) r = raised err

  -- Each change is handled by a task of its own; none reads what another one writes.
  unfoldable pub populate_each : List Change → Result Bool × List Change
  unfolding populate_cross_account_resource_policy_for_change
  populate_each [] = (ok false, [])
  populate_each (c ∷ cs) =
      let first = populate_cross_account_resource_policy_for_change c c.detail in
      let rest = populate_each cs in (either first.0 rest.0, first.1 ∷ rest.1)

unfoldable pub populate_cross_account_resource_policies :
    Env → Reads → Principal → List Change → Result Bool × List Change
unfolding populate_each
populate_cross_account_resource_policies e reads (aws_resource arn) changes =
    populate_each e reads arn changes changes
populate_cross_account_resource_policies e reads (honeybee _ _ _) changes =
    (raised attribute_error, changes)
