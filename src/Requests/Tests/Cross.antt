-- ===== src/Requests/Tests/Cross.antt =====
-- The population of the policies of resources in other accounts, on a concrete request.
use consoleme.Base.{◌≡◌, refl, true, none, some, List, [], ◌∷◌, fstring, contains}
use consoleme.Json.{object, array, text, nil, cons, field, end}
use consoleme.Models.{Action, aws_resource, Status, inline_policy, resource_policy, Change}
use consoleme.Requests.World.{Env}
use consoleme.Requests.Pairs.{Pairs}
use consoleme.Aws.{get_resource_account}
use consoleme.Statements.{statements}
use consoleme.Requests.Grants.{new_statement, generate_updated_resource_policy, grants_of_all}
use consoleme.Requests.Stubs.{empty_policy}
use consoleme.Requests.Cross.{Reads, populate_cross_account_resource_policies}
use consoleme.Requests.Cross.Renewed.{IsPopulated}
use consoleme.Requests.Cross.Populated.{populate_cross_account_resource_policies-IsPopulated}
use consoleme.Requests.Tests.{role_arn, policy, calm, lookups, attach_change}

-- The bucket is in another account.
abbrev env : Env
env = record calm { lookups = record lookups { config_cache = λ arn. some "210987654321" } }

abbrev reads : Reads
reads = record {
  all_accounts = "123456789012" ∷ "210987654321" ∷ [];
  get_resource_policy = λ account resource_type name region. empty_policy;
  get_role_details = λ account name. none;
  trust_permissions = "sts:AssumeRole" ∷ [];
  list_of_set = λ texts. texts;
}

abbrev source : Change
source = record (attach_change "source" Status.not_applied) {
  detail = inline_policy (record {
    policy_name = some "p";
    new = true;
    action = some Action.attach;
    policy = some (record policy {
      policy_document = object (
          field "Statement"
            (array (
              cons
                (object (
                  field "Action" (array (cons (text "s3:GetObject") (cons (text "sqs:*") nil))) (
                    field "Resource"
                      (array
                        (cons (text "arn:aws:s3:::logs/*") (cons (text "arn:aws:s3:::logs") nil)))
                      end)))
                nil))
            end);
    });
    old_policy = none;
  });
}

abbrev stub : Change
stub = record (attach_change "stub" Status.not_applied) {
  autogenerated = true;
  detail = resource_policy (record {
    arn = "arn:aws:s3:::logs";
    source_change_id = some "source";
    supported = none;
    policy = policy;
    old_policy = none;
  });
}

abbrev populated : Change
populated = record stub {
  detail = resource_policy (record {
    arn = "arn:aws:s3:::logs";
    source_change_id = some "source";
    supported = some true;
    policy = record {
      version = none;
      policy_document = object (
          field "Version" (text "2012-10-17") (
            field "Statement"
              (array (
                cons
                  (object (
                    field "Effect" (text "Allow") (
                      field "Principal"
                        (object (field "AWS" (array (cons (text role_arn) nil)) end))
                        (field "Action" (array (cons (text "s3:GetObject") nil)) (
                          field "Resource"
                            (array (
                              cons (text "arn:aws:s3:::logs/*")
                                (cons (text "arn:aws:s3:::logs") nil)))
                            end)))))
                  nil))
              end));
      policy_sha256 = some "digest";
    };
    old_policy =
        some (record {
          version = none;
          policy_document = empty_policy;
          policy_sha256 = some "digest";
        });
  });
}

abbrev run : List Change
run =
    (populate_cross_account_resource_policies env reads (aws_resource role_arn)
      (source ∷ stub ∷ [])).1

bucket_policy_grown : run ≡ source ∷ populated ∷ []
unfolding populate_cross_account_resource_policies get_resource_account grants_of_all statements
    generate_updated_resource_policy new_statement fstring contains
bucket_policy_grown = refl

populate_cross_account_resource_policies-IsPopulated_example :
    Pairs
      (IsPopulated env reads role_arn (source ∷ stub ∷ []))
      (source ∷ stub ∷ [])
      (populate_cross_account_resource_policies env reads
        (aws_resource role_arn)
        (source ∷ stub ∷ [])).1
populate_cross_account_resource_policies-IsPopulated_example =
    populate_cross_account_resource_policies-IsPopulated env reads role_arn (source ∷ stub ∷ [])
      (λ xs x. refl)
