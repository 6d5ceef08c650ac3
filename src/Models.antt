-- ===== src/Models.antt =====
-- consoleme/models.py: the requests, their changes and the answers.
use consoleme.Base.{ℕ, String, Bool, true, false, Option, List}
use consoleme.Json.{Json}

pub data Action : Type 0 where
  attach detach : Action

pub data TagAction : Type 0 where
  create update delete : TagAction

pub data Status : Type 0 where
  applied not_applied cancelled : Status

pub data RequestStatus : Type 0 where
  pending cancelled approved rejected : RequestStatus

-- `PrincipalModel` and its two subclasses.
pub data Principal : Type 0 where
  aws_resource : String → Principal
  honeybee : (repository_name resource_identifier resource_url : String) → Principal

pub record PolicyModel : Type 0 where
  pub version : Option String
  pub policy_document : Json
  pub policy_sha256 : Option String

pub record InlineChange : Type 0 where
  pub policy_name : Option String
  pub new : Bool
  pub action : Option Action
  pub policy : Option PolicyModel
  pub old_policy : Option PolicyModel

pub record ResourceChange : Type 0 where
  pub arn : String
  pub source_change_id : Option String
  pub supported : Option Bool
  pub policy : PolicyModel
  pub old_policy : Option PolicyModel

pub record AssumeRoleChange : Type 0 where
  pub policy : Option PolicyModel
  pub old_policy : Option PolicyModel

pub record TagChange : Type 0 where
  pub original_key : Option String
  pub key : Option String
  pub original_value : Option String
  pub value : Option String
  pub tag_action : TagAction

pub record ManagedResourceChange : Type 0 where
  pub new : Bool
  pub policy : Option PolicyModel
  pub old_policy : Option PolicyModel

-- The subclasses of `ChangeModel`, one constructor for each `change_type`.
pub data Detail : Type 0 where
  inline_policy : InlineChange → Detail
  managed_policy : (arn : String) → Action → Detail
  permissions_boundary : (arn : String) → Action → Detail
  resource_policy : ResourceChange → Detail
  sts_resource_policy : ResourceChange → Detail
  assume_role_policy : AssumeRoleChange → Detail
  resource_tag : TagChange → Detail
  generic_file : Detail
  managed_policy_resource : ManagedResourceChange → Detail

pub record Change : Type 0 where
  pub id : String
  pub principal : Principal
  pub status : Status
  pub autogenerated : Bool
  pub updated_by : Option String
  pub detail : Detail

pub record Comment : Type 0 where
  pub id : String
  pub timestamp : ℕ
  pub user_email : String
  pub last_modified : ℕ
  pub text : String

pub record Request : Type 0 where
  pub id : String
  pub request_url : Option String
  pub principal : Principal
  pub requester_email : String
  pub request_status : RequestStatus
  pub cross_account : Bool
  pub admin_auto_approve : Bool
  pub changes : List Change
  pub reviewer : Option String
  pub comments : List Comment

-- The commands of `PolicyRequestModificationRequestModel`, with what each carries.
pub data Modification : Type 0 where
  add_comment : (comment_text : String) → Modification
  update_change : (change_id : String) → Json → Modification
  apply_change : (change_id : String) → Option Json → Modification
  cancel_change : (change_id : String) → Modification
  cancel_request : Modification
  reject_request : Modification
  move_back_to_pending : Modification
  approve_request : Modification

-- The `status` of an `ActionResult`: the two texts that the program writes there.
pub data Verdict : Type 0 where
  success error : Verdict

pub record ActionResult : Type 0 where
  pub status : Verdict
  pub message : String
  pub visible : Bool

pub record Response : Type 0 where
  pub errors : ℕ
  pub action_results : List ActionResult

-- What the program reads of `ExtendedAwsPrincipalModel`: an inline policy's name and document, the arns of
-- the managed policies, the boundary's arn.
pub record AwsPrincipal : Type 0 where
  pub inline_policies : List (String × Json)
  pub assume_role_policy_document : Json
  pub managed_policies : List String
  pub permissions_boundary : Option String

-- What `parse_arn` gives.
pub record Arn : Type 0 where
  pub service : String
  pub region : String
  pub account : String
  pub resource : String
  pub resource_path : String

abbrev pub is_applied : Status → Bool
is_applied applied = true
is_applied _ = false

abbrev pub is_not_applied : Status → Bool
is_not_applied not_applied = true
is_not_applied _ = false

abbrev pub change_type : Detail → String
change_type (inline_policy _) = "inline_policy"
change_type (managed_policy _ _) = "managed_policy"
change_type (permissions_boundary _ _) = "permissions_boundary"
change_type (resource_policy _) = "resource_policy"
change_type (sts_resource_policy _) = "sts_resource_policy"
change_type (assume_role_policy _) = "assume_role_policy"
change_type (resource_tag _) = "resource_tag"
change_type generic_file = "generic_file"
change_type (managed_policy_resource _) = "managed_policy_resource"
