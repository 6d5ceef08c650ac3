-- ===== src/Lib.antt =====
-- ConsoleMe's policy requests: how they are made, who may do what, what a command does to a request, and
-- what it does to AWS; and the stores and mappings beside them.
--
-- A request (consoleme/models.py) holds changes to IAM roles and users, managed policies, and the policies
-- and tags of buckets, topics and queues. Users give commands to it (lib/v2/requests.py): they comment on
-- it, edit, apply or cancel single changes, and cancel, reject, approve or reopen the request. lib/auth.py
-- and lib/policies.py say who may give which command; lib/aws.py says whose a resource is. Below, paths
-- stand for files in consoleme/.
--
-- The modules and the code that they follow:
--   Base                texts, lists, dictionaries and tests, shared by all
--   Json                decoded JSON, as policy documents hold it
--   Models              models.py: changes, requests, commands, responses
--   Config              the configuration values that the code reads
--   Auth                lib/auth.py (the can_* functions, is_sensitive_attr) and is_in_group of
--                       lib/generic.py; Auth/Rights has the proofs
--   Policies            lib/policies.py: invalid_characters_in_policy, can_update_cancel_requests_v2,
--                       can_update_requests, can_move_back_to_pending_v2; Policies/Access has the proofs
--   Aws                 lib/aws.py: get_resource_account, get_bucket_location_with_fallback
--   Organization        lib/aws.py: _is_member_of_ou, get_organizational_units_for_account,
--                       _scp_targets_account_or_ou, get_scps_for_account_or_ou; Chains and Covered have the
--                       proofs
--   Credentials         lib/cloud_credential_authorization_mapping: __init__.py (the mapping, its reverse, the
--                       two lookups), role_tags.py, dynamic_config.py; Cache has the copies kept of the
--                       mappings; Grants, Offers, Reverse and Cache/Age have the proofs
--   Statements          lib/v2/requests.py: get_resources_from_policy_change, get_actions_for_resource
--   Sync                lib/aws.py: role_has_tag, role_has_managed_policy, allowed_to_sync_role;
--                       Sync/Allowed has the proofs
--   Dynamo              lib/dynamo.py: _data_to_dynamo_replace, _data_from_dynamo_replace; RoundTrip and
--                       Storable have the proofs; Scan has parallel_scan_table, whose loop is the same in
--                       parallel_scan_table_async
--   GroupRequests       lib/dynamo.py: the users (create_user, update_user, delete_user,
--                       get_or_create_user); Operations has their requests for groups (add_request,
--                       get_requests_by_user, change_request_status, change_request_status_by_id), Login
--                       has authenticate_user and the waits of lib/password.py; Sound, Own, Added,
--                       Resolved and Waits have the proofs
--   Generators          lib/change_request.py: the statements of inline policies from forms, from
--                       _generate_policy_statement to
--                       _generate_inline_iam_policy_statement_from_change_generator; Asked says
--                       what they should allow, Loops and Answered have the proofs
--   Requests            lib/v2/requests.py:
--     World             the response, the calls that are made, and the exceptions
--     Validate          the validate_* functions and is_request_eligible_for_auto_approval
--     Steps, Role       apply_changes_to_role; Role/Accounts and Role/Untouched have proofs
--     Acts              the rules by which a body of a try is judged
--     Resource          apply_resource_policy_change
--     Tags              apply_non_iam_resource_tag_change, apply_managed_policy_resource_tag_change;
--                       Tags/Lookup, Tags/Outcome and Tags/Policies have the proofs
--     Old               populate_old_policies, populate_old_managed_policies
--     Managed           apply_managed_policy_resource_change; Managed/Outcome has the proofs
--     Flow              how a handler runs, _update_dynamo_with_change
--     Select            _get_specific_change, and what the changes settle
--     Complete          maybe_approve_reject_request
--     ManagedArn        the pattern of the arns of managed policies
--     Branches          the branches of apply_change
--     Refusal, Modify   parse_and_apply_policy_request_modification
--     Drafts            generate_request_from_change_model_array, its loop over the changes that are asked
--                       for and the shortening of the requester's address; Drafts/Numbered and
--                       Drafts/Bounds have proofs
--     Checks            its checks of the changes, and generate_policy_name of lib/change_request.py
--     Stubs             generate_resource_policies; Stubs/Foreign and Stubs/Extended have the proofs
--     Grants            which actions and resources of an inline policy a resource's policy has to allow, and
--                       generate_updated_resource_policy of lib/aws.py; Grants/Added, Given and Sound have the proofs
--     Cross             populate_cross_account_resource_policies; Cross/Renewed says what it may do,
--                       Cross/Generated and Populated have the proofs
--     Create            generate_request_from_change_model_array as a whole; Create/Made, Create/Admitted
--                       and Create/Life have the theorems, Create/Ways says which requests pass, Create/Sound and
--                       Create/Fresh have lemmas
--     Keeps             the rules by which a handler is shown to keep a relation of states
--     Frozen, Closed, Balanced, Quiet, Same, Update
--                       proofs about the commands; Closed/Entitled says who may give which, Closed/Settles
--                       what the status becomes, Closed/Database what the database holds
--   The modules called Tests run the code on concrete requests.
--
-- How the code is represented. The request and the work (the response and the calls made so far, newest
-- first) are passed along; what was written before an exception stays written, as in the source, where the
-- objects are changed in place. A handler (Requests/Flow) answers with a result or an exception. The body
-- of a try (Requests/World) runs until a call raises; the except branch counts one error. A change that the
-- source finds by id and then writes to is the first one with that id (update_specific). The loops go over
-- lists and are recursive on them, so there is no fuel, except in Dynamo/Scan, where the answers of DynamoDB
-- say whether there is a next page: the rounds are bounded, and enough of them are shown to give the
-- result. A Python number that counts seconds is a natural number; now - 86400 stops at 0, which decides
-- no comparison with a time otherwise.
--
-- A Python set is a list of which only membership is read, except where it is sorted. Letters are made
-- small for A to Z only, and texts are ordered by the numbers of their characters. A cached role is taken
-- to have a list of tags, as AWS gives one.
--
-- What is a parameter, in Requests/World.Env and Aws.Lookups: what each call of AWS, of DynamoDB, of the
-- mail service and of the caches of resources raises, given all calls before it, and what the reads return;
-- how arns are read (parse_arn and get_account_from_arn of policy_sentry, which are taken to answer for
-- every text); the digest of a document, the text that ujson gives for one, and the plugin's own credential
-- mapping (Credentials.Settings); the time and the fresh id. create_or_update_managed_policy,
-- fetch_resource_details, get_role_details, get_user_details and fetch_iam_role count as one call each.
--
-- The numbers of a document are compared by their literals, so 1 and 1.0 differ, which Python takes as equal.
-- The details of a resource are taken to have their TagSet and QueueUrl, without which the source raises a
-- KeyError.
--
-- An entry of the structure of an organization has an id and a type. What get_org_structure and
-- get_all_scps give is an argument; of a service control policy, only its id and the ids of its targets are
-- kept.
--
-- A new request is made by steps that pass it on. The date of expiration of a change only goes into the name
-- of its policy, so it is kept beside the change (Draft). The random text in a name is a function of the
-- change's id. Fresh ids for generated changes are a function of how many were drawn before
-- (Requests/Stubs.Sources); the theorems on ids say what they need of it. An item of a list of resources or
-- of actions that is no text raises, or is passed over where the source only compares it.
--
-- What populate_cross_account_resource_policies reads, the accounts, the present policies and the roles, is a
-- parameter (Requests/Cross.Reads), and these reads are taken to return. Its tasks are run one after another:
-- none reads what another writes. If several raise, the exception of the first in the list counts.
--
-- In Dynamo, floats and times are given by the number that their text denotes; infinite numbers are left
-- out. In GroupRequests, the tables keep the items as they were written, and a write may be refused at any
-- point (Env.fails); what was changed in the handler's copy of a user stays changed then. Signatures are a
-- function of the rest of an entry and are left out, and bcrypt is a parameter. Of Redis, Attempts has the
-- counts of failed logins that have not expired, with a list of the sleeps that only the model keeps. In
-- Generators, the configured maps, policy_sentry's get_actions_with_access_level and iterate_and_format_dict
-- are the record Env, and a set is a list without duplicates in an order of no account.
--
-- What is not modelled: logging, metrics and Sentry; the details of a user in a comment or a request;
-- retries and the sessions of boto3; get_url_for_resource, which is taken to return; the making of a request
-- from a honeybee template, which is an argument; the rest of lib/dynamo.py, with the cache of
-- get_requests_by_user; generate_change_model_array of lib/change_request.py; check_password_strength; the
-- handlers, the celery tasks and the plugins. What a policy means to AWS is not
-- interpreted. The last branch of apply_managed_policy_resource_tag_change, for a tag action that is none of
-- the three, is not reached and has no counterpart. The pattern of managed policy arns takes the digits
-- 0 to 9 for \d.
pub mod Base
pub mod Json
pub mod Models
pub mod Config
pub mod Aws
pub mod Organization
pub mod Policies
pub mod Auth
pub mod Credentials
pub mod Statements
pub mod Dynamo
pub mod Generators
pub mod GroupRequests
pub mod Sync
pub mod Requests
