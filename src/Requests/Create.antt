-- ===== src/Requests/Create.antt =====
-- `generate_request_from_change_model_array`: the request that is made of the changes that a user asks for.
pub mod Sound
pub mod Fresh
pub mod Made
pub mod Admitted
pub mod Ways
pub mod Life
use consoleme.Base.{
  ℕ, zero, String, Bool, true, false, not, ◌&&◌, ◌||◌, Option, none, some, List, [], ◌∷◌, ◌++◌, map,
  length, ltb, str_eq, truthy_text, fstring, split, last, decimal, is_none, if◌then◌else◌,
}
use consoleme.Json.{Json, null}
use consoleme.Aws.{get_resource_account}
use consoleme.Models.{
  Principal, aws_resource, honeybee, RequestStatus, InlineChange, Detail, inline_policy,
  managed_policy, permissions_boundary, assume_role_policy, managed_policy_resource, Change,
  Request, AwsPrincipal, Arn,
}
use consoleme.Requests.World.{
  Kind, role, user, get_details, get_managed_policy_document, Failure, Env, Work, Error,
  invalid_request_parameter, unsupported_change_type, external, Result, ok, raised, perform, escape,
  chain,
}
use consoleme.Requests.Role.{is_role_or_user, principal_name}
use consoleme.Requests.Old.{populate_old_policies, populate_old_managed_policies}
use consoleme.Requests.Validate.{
  Checked, validate_inline_policy_change, validate_managed_policy_change,
  validate_permissions_boundary_change, validate_assume_role_policy_change,
  validate_managed_policy_resource_change,
}
use consoleme.Requests.Drafts.{
  Draft, Groups, no_groups, ungroup, shorten_requester, first_of, group_drafts,
}
use consoleme.Requests.Stubs.{Sources, generate_resource_policies}
use consoleme.Requests.Checks.{Naming, invalid, is_empty, check_drafts}

-- `RequestCreationModel`
pub record Creation : Type 0 where
  pub drafts : List Draft
  pub admin_auto_approve : Bool

abbrev pub with_changes : Request → Result (Unit {0}) × List Change × Work → Result Request × Work
with_changes r (ok _, cs, w) = (ok (record r { changes = cs }), w)
with_changes r (raised err, cs, w) = (raised err, w)

abbrev pub then_step :
    Result Request × Work → (Request → Work → Result Request × Work) → Result Request × Work
then_step (ok r, w) k = k r w
then_step (raised err, w) k = (raised err, w)

-- The rest of the function, for an AWS resource.
module _ (e : Env) (n : Naming) (s : Sources) where
  abbrev pub created_of : Bool → Principal → String → Groups → Request
  created_of admin p requester g = record {
    id = e.new_id;
    request_url = none;
    principal = p;
    requester_email = requester;
    request_status = RequestStatus.pending;
    cross_account = false;
    admin_auto_approve = admin;
    changes = map (λ (d : Draft). d.change) (ungroup g);
    reviewer = none;
    comments = [];
  }

  abbrev pub fill_old : Request → Work → Result Request × Work
  fill_old r w = with_changes r (populate_old_policies e r.principal r.changes w)

  abbrev pub add_policies : Request → Work → Result Request × Work
  add_policies r w = (generate_resource_policies e s r, w)

  abbrev pub fill_managed : Bool → Request → Work → Result Request × Work
  fill_managed has_managed_resource r w =
      if has_managed_resource
      then with_changes r (populate_old_managed_policies e r.principal r.changes w)
      else (ok r, w)

  -- What the changes replace, and the policies of resources in other accounts.
  unfoldable pub complete_request :
      (has_managed_resource : Bool) → Request → Work → Result Request × Work
  complete_request has_managed_resource r w =
      then_step (fill_old r w)
        (λ r1 w1. then_step (add_policies r1 w1) (fill_managed has_managed_resource))

  unfoldable pub create_checked :
      (admin : Bool) → Principal → String → Result Groups × Work → Result Request × Work
  unfolding complete_request
  create_checked admin p requester (raised err, w) = (raised err, w)
  create_checked admin p requester (ok g, w) =
      complete_request (not (is_empty g.managed_resource)) (created_of admin p requester g) w

  -- `generate_honeybee_request_from_change_model_array` is an argument.
  unfoldable pub create_grouped :
      (honeybee_request : Creation → String → Work → Result Request × Work)
      → Creation
      → Principal
      → String
      → Result Groups
      → Work
      → Result Request × Work
  unfolding create_checked
  create_grouped hb c p requester (raised err) w = (raised err, w)
  create_grouped hb c (honeybee _ _ _) requester (ok g) w = hb c requester w
  create_grouped hb c (aws_resource arn) requester (ok g) w =
      create_checked c.admin_auto_approve (aws_resource arn) requester
        (check_drafts e n requester arn g w)

  -- With the principal of the first change.
  unfoldable pub create_for :
      (honeybee_request : Creation → String → Work → Result Request × Work)
      → Creation
      → (requester : String) → Principal
      → Work
      → Result Request × Work
  unfolding create_grouped
  create_for hb c requester p w =
      create_grouped hb c p (shorten_requester requester)
        (group_drafts e.lookups e.config.supported_resource_types e.new_id p 0 c.drafts no_groups) w

  unfoldable pub create_for_first :
      (honeybee_request : Creation → String → Work → Result Request × Work)
      → Creation
      → (requester : String) → List Draft
      → Work
      → Result Request × Work
  unfolding create_for
  create_for_first hb c requester [] w =
      (invalid "At least 1 change is required to create a request.", w)
  create_for_first hb c requester (d ∷ ds) w = create_for hb c requester d.change.principal w

  unfoldable pub generate_request_from_change_model_array :
      (honeybee_request : Creation → String → Work → Result Request × Work)
      → Creation
      → (requester : String) → Work
      → Result Request × Work
  unfolding create_for_first
  generate_request_from_change_model_array hb c requester w =
      create_for_first hb c requester c.drafts w
