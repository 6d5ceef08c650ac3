-- ===== src/Requests/Tests/Helpers.antt =====
-- The functions that apply single changes, on concrete ones.
use consoleme.Base.{◌+◌, String, ◌≡◌, refl, false, none, some, List, [], ◌∷◌, if◌then◌else◌}
use consoleme.Models.{aws_resource, ManagedResourceChange, Status, Change}
use consoleme.Requests.World.{
  tag_policy, untag_policy, connect, Env, ok, when, perform, ◌>>◌, report, caught, succeed, fail,
}
use consoleme.Requests.Steps.{
  same_text, is_rename, with_defaults, by_kind, with_document, apply_inline, apply_managed,
}
use consoleme.Requests.Acts.{Judged}
use consoleme.Requests.Pairs.{Pairs}
use consoleme.Requests.Role.{is_skipped, apply_detail, apply_one, apply_each, and_then}
use consoleme.Requests.Role.Accounts.{Honest, total_cost, apply_one-Honest, errors-apply_each}
use consoleme.Requests.Role.Untouched.{Leaves, apply_each-Leaves}
use consoleme.Requests.Resource.{account_of, apply_resource_policy_change}
use consoleme.Requests.Managed.{apply_managed_policy_resource_change}
use consoleme.Requests.Managed.Outcome.{Put, write, apply_managed_policy_resource_change-Put}
use consoleme.Requests.Tags.{
  Tag, updated_tags, retag, preexists, apply_non_iam_resource_tag_change,
  apply_managed_policy_resource_tag_change, tag_managed_policy, put_policy_tag,
}
use consoleme.Requests.Tags.Lookup.{value_of, is_old_name, value_of-updated_tags}
use consoleme.Requests.Tags.Outcome.{
  verdict, apply_non_iam_resource_tag_change-Judged, apply_resource_policy_change-Judged,
}
use consoleme.Requests.Tags.Policies.{Answered, apply_managed_policy_resource_tag_change-Answered}
use consoleme.Requests.Tests.{
  calm, closed, policy, lookups, parsed, role_arn, attach_change, inline_change, start,
  bucket_change, rename,
}

abbrev changes : List Change
changes =
    attach_change "a" Status.applied
    ∷ inline_change "b" Status.not_applied
    ∷ attach_change "c" Status.not_applied
    ∷ []

-- With every call denied, the loop goes to its end, and two errors are counted.
all_denied : (apply_each closed false (parsed role_arn) "app" none changes start).0 ≡ ok tt
unfolding apply_each and_then apply_one is_skipped apply_detail apply_inline apply_managed by_kind
    with_document report perform caught fail succeed ◌>>◌
all_denied = refl

two_errors :
    (apply_each closed false (parsed role_arn) "app" none changes start).2.response.errors ≡ 2
unfolding apply_each and_then apply_one is_skipped apply_detail apply_inline apply_managed by_kind
    with_document report perform caught fail succeed ◌>>◌
two_errors = refl

errors-apply_each_example :
    let (r, cs', w') = apply_each closed false (parsed role_arn) "app" none changes start in
    w'.response.errors ≡ 0 + total_cost false none changes cs'
errors-apply_each_example =
    errors-apply_each closed false (parsed role_arn) "app" none changes start all_denied

apply_one-Honest_example :
    Honest calm (inline_change "b" Status.not_applied) start (
      apply_one calm false
        (parsed role_arn)
        "app"
        none
        (inline_change "b" Status.not_applied)
        start)
apply_one-Honest_example =
    apply_one-Honest calm false (parsed role_arn) "app" none (inline_change "b" Status.not_applied)
      start refl

apply_each-Leaves_example :
    Pairs
      (Leaves (some "c"))
      changes
      (apply_each calm false (parsed role_arn) "app" (some "c") changes start).1
apply_each-Leaves_example =
    apply_each-Leaves calm false (parsed role_arn) "app" (some "c") changes start

apply_resource_policy_change-Judged_example :
    Judged calm start (apply_resource_policy_change calm false bucket_change start)
apply_resource_policy_change-Judged_example =
    apply_resource_policy_change-Judged calm false bucket_change start

apply_non_iam_resource_tag_change-Judged_example : Judged calm start (
    verdict calm "arn:aws:s3:::logs"
      (apply_non_iam_resource_tag_change calm "arn:aws:s3:::logs" rename start))
apply_non_iam_resource_tag_change-Judged_example =
    apply_non_iam_resource_tag_change-Judged calm "arn:aws:s3:::logs" rename start

abbrev policy_arn : String
policy_arn = "arn:aws:iam::123456789012:policy/p"

-- A world in which every arn is that of a managed policy.
abbrev of_policies : Env
of_policies = record calm {
  lookups = record lookups {
    parse_arn = λ arn. record (parsed role_arn) { resource = "policy"; resource_path = "p" };
  };
}

renames_policy_tag :
    let p = apply_managed_policy_resource_tag_change of_policies policy_arn rename start in
    p.1.calls
    ≡ untag_policy policy_arn (some "team")
      ∷ tag_policy policy_arn (some "owner") (some "data")
      ∷ connect "iam" "123456789012" "us-west-2"
      ∷ []
unfolding apply_managed_policy_resource_tag_change tag_managed_policy put_policy_tag with_defaults
    is_rename same_text report perform caught succeed when ◌>>◌ account_of
renames_policy_tag = refl

apply_managed_policy_resource_tag_change-Answered_example :
    Answered of_policies start
      (apply_managed_policy_resource_tag_change of_policies policy_arn rename start)
apply_managed_policy_resource_tag_change-Answered_example =
    apply_managed_policy_resource_tag_change-Answered of_policies policy_arn rename start

abbrev new_version : ManagedResourceChange
new_version = record { new = false; policy = some policy; old_policy = none }

apply_managed_policy_resource_change-Put_example :
    Put of_policies
      (write of_policies policy_arn (of_policies.lookups.parse_arn policy_arn) new_version)
      (some policy)
      start
      (apply_managed_policy_resource_change of_policies
        (aws_resource policy_arn)
        new_version
        []
        start)
apply_managed_policy_resource_change-Put_example =
    apply_managed_policy_resource_change-Put of_policies policy_arn new_version [] start

abbrev tags : List Tag
tags = (some "team", some "data") ∷ (some "env", some "test") ∷ []

renamed :
    updated_tags (record rename { value = some "data" }) tags
    ≡ (some "env", some "test") ∷ (some "owner", some "data") ∷ []
unfolding updated_tags retag preexists is_rename same_text
renamed = refl

value_of-updated_tags_example : value_of (some "team") (updated_tags rename tags) ≡ (
    if same_text (some "owner") (some "team")
    then some none
    else if is_old_name rename (some "team")
    then none
    else value_of (some "team") tags)
value_of-updated_tags_example = value_of-updated_tags rename (some "team") tags
