-- ===== src/Config.antt =====
-- The configuration values that the modelled code reads (consoleme/config/config.py, `config.get`), each
-- with the source's default already put in.
use consoleme.Base.{String, Bool, Option, List}

-- An attribute of groups, as configured.
pub record Attribute : Type 0 where
  pub name : String
  pub sensitive : Bool

pub record Config : Type 0 where
  -- `config.get("application_admin")`
  pub application_admin : Option String
  -- `config.get(key, [])`, for the keys that list users and groups
  pub groups : String → List String
  -- `config.get(key, [])`, for the keys that list attributes
  pub attributes : String → List Attribute
  -- `policies.supported_resource_types_for_policy_application`
  pub supported_resource_types : List String
  -- `policies.sts_resource_policy_supported`
  pub sts_resource_policy_supported : Bool
  -- `groups.fallback_policy_request_reviewers`
  pub fallback_reviewers : List String
  -- `config.region`
  pub region : String
