-- ===== src/Requests.antt =====
-- consoleme/lib/v2/requests.py: the life of a policy request, by the parts of the module.
pub mod World
pub mod Steps
pub mod Acts
pub mod Resource
pub mod Tags
pub mod Old
pub mod Managed
pub mod Flow
pub mod Select
pub mod ManagedArn
pub mod Complete
pub mod Branches
pub mod Refusal
pub mod Keeps
pub mod Frozen
pub mod Same
pub mod Validate
pub mod Update
pub mod Drafts
pub mod Stubs
pub mod Checks
pub mod Create
pub mod Grants
pub mod Cross
pub mod Quiet
pub mod Balanced
pub mod Closed
pub mod Modify
pub mod Pairs
pub mod Role
mod Tests
