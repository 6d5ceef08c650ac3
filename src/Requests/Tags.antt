-- ===== src/Requests/Tags.antt =====
-- `apply_managed_policy_resource_tag_change` and `apply_non_iam_resource_tag_change`: tags of managed
-- policies, buckets, topics and queues.
pub mod Lookup
pub mod Outcome
pub mod Policies
use consoleme.Base.{
  String, Bool, true, false, not, ◌&&◌, ◌||◌, Option, none, some, List, [], ◌∷◌, ◌++◌, str_eq,
  truthy_text, fstring, shown, elem, if◌then◌else◌,
}
use consoleme.Models.{Arn, TagAction, TagChange}
use consoleme.Requests.World.{
  connect, tag_policy, untag_policy, fetch_resource_details, put_bucket_tagging, tag_topic,
  untag_topic, tag_queue, untag_queue, Env, Work, fail, Act, perform, ◌>>◌, pass, report, when,
  caught, Failure, Result, ok, escape,
}
use consoleme.Requests.Steps.{with_defaults, same_text, is_rename}
use consoleme.Requests.Resource.{account_of, region_of}

-- A tag's key and value.
abbrev pub Tag : Type 0
Tag = Option String × Option String

-- The loop over a bucket's tags: the tag of the old name is left out, that of the key gets the value.
unfoldable pub retag : TagChange → List Tag → List Tag
retag t [] = []
retag t ((k, v) ∷ tags) =
    let rest = retag t tags in
    if is_rename t && same_text k t.original_key
    then rest
    else if same_text t.key k
    then (t.key, t.value) ∷ rest
    else (k, v) ∷ rest

-- `tag_key_preexists`
unfoldable pub preexists : TagChange → List Tag → Bool
preexists t [] = false
preexists t ((k, v) ∷ tags) =
    not (is_rename t && same_text k t.original_key) && same_text t.key k || preexists t tags

unfoldable pub updated_tags : TagChange → List Tag → List Tag
updated_tags t tags =
    if preexists t tags then retag t tags else retag t tags ++ (t.key, t.value) ∷ []

unfoldable pub deleted_tags : TagChange → List Tag → List Tag
deleted_tags t [] = []
deleted_tags t ((k, v) ∷ tags) =
    let rest = deleted_tags t tags in if same_text k t.key then rest else (k, v) ∷ rest

-- `change.principal.json()`
unfoldable pub principal_json : String → String
principal_json arn =
    fstring ("{\"principal_type\": \"AwsResource\", \"principal_arn\": \"" ∷ arn ∷ "\"}" ∷ [])

module _ (e : Env) (arn : String) where
  -- The tags that `fetch_resource_details` found are those at the time of the call.
  unfoldable pub tag_bucket : Arn → TagChange → TagAction → Act
  tag_bucket a t TagAction.delete w =
      perform e (put_bucket_tagging a.resource (deleted_tags t (e.tag_set w.calls a.resource))) w
  tag_bucket a t _ w =
      perform e (put_bucket_tagging a.resource (updated_tags t (e.tag_set w.calls a.resource))) w

  unfoldable pub tag_sns : TagChange → TagAction → Act
  tag_sns t TagAction.delete = perform e (untag_topic arn t.key)
  tag_sns t _ = do
    perform e (tag_topic arn t.key t.value)
    when (is_rename t) (perform e (untag_topic arn t.original_key))

  unfoldable pub tag_sqs : String → TagChange → TagAction → Act
  tag_sqs url t TagAction.delete = perform e (untag_queue url t.key)
  tag_sqs url t _ = do
    perform e (tag_queue url t.key t.value)
    when (is_rename t) (perform e (untag_queue url t.original_key))

  unfoldable pub with_queue_url : String → (String → Act) → Act
  with_queue_url name k w = k (e.queue_url w.calls name) w

  unfoldable pub tag_resource : Arn → TagChange → Act
  tag_resource a t =
      if str_eq a.service "s3"
      then tag_bucket a t t.tag_action
      else if str_eq a.service "sns"
      then tag_sns t t.tag_action
      else if str_eq a.service "sqs"
      then with_queue_url a.resource (λ url. tag_sqs url t t.tag_action)
      else pass

  -- `fetch_resource_details`: the services that it knows are asked.
  unfoldable pub fetch_details : Arn → (account region : String) → Act
  fetch_details a account region =
      if str_eq a.service "s3" || (str_eq a.service "sqs" || str_eq a.service "sns")
      then perform e (fetch_resource_details account a.service a.resource region)
      else pass

  abbrev tag_error : String
  tag_error = fstring ("Error occurred changing resource tags for " ∷ arn ∷ [])

  -- The part of the `try` behind the defaults of key and value.
  unfoldable pub finish_tag : Arn → TagChange → Option Failure × Work → TagChange × Bool × Work
  finish_tag a t (some f, w) = (t, false, fail (fstring (tag_error ∷ f.message ∷ [])) w)
  finish_tag a t (none, w) =
      let (done, w') =
        caught
          (do
            tag_resource a (with_defaults t)
            report (fstring ("Successfully updated resource policy for " ∷ arn ∷ [])))
          tag_error w in
      (with_defaults t, done, w')

  unfoldable pub apply_non_iam_resource_tag_change : TagChange → Work → TagChange × Bool × Work
  apply_non_iam_resource_tag_change t w =
      let a = e.lookups.parse_arn arn in
      let account = account_of e a arn in
      let region = region_of e a account in
      if not (truthy_text (some account))
      then (
        t,
        false,
        fail
            (fstring (
              "Cannot apply change to "
              ∷ principal_json arn
              ∷ " as cannot determine resource account"
              ∷ []))
            w,
      )
      else if not (elem a.service e.config.supported_resource_types)
      then (
        t,
        false,
        fail
            (fstring
              ("Cannot apply change to " ∷ principal_json arn ∷ " as it's not supported" ∷ []))
            w,
      )
      else finish_tag a t
          ((do perform e (connect a.service account region); fetch_details a account region) w)

  unfoldable pub put_policy_tag : TagChange → Work → Bool × Work
  put_policy_tag t w =
      caught
        (do
          perform e (tag_policy arn t.key t.value)
          report (fstring ("Successfully created or updated tag for managed policy: " ∷ arn ∷ []))
          when (is_rename t) (do
            perform e (untag_policy arn t.original_key)
            report (
                fstring (
                  "Successfully renamed tag "
                  ∷ shown t.original_key
                  ∷ " to "
                  ∷ shown t.key
                  ∷ "."
                  ∷ []))))
        (fstring ("Error occurred updating tag for managed policy: " ∷ arn ∷ ": " ∷ [])) w

  unfoldable pub delete_policy_tag : TagChange → Work → Bool × Work
  delete_policy_tag t w =
      caught
        (do
          perform e (untag_policy arn t.key)
          report (fstring ("Successfully deleted tag for managed policy: " ∷ arn ∷ [])))
        (fstring ("Error occurred deleting tag for managed policy: " ∷ arn ∷ ": " ∷ [])) w

  unfoldable pub tag_managed_policy : TagChange → TagAction → Work → TagChange × Bool × Work
  tag_managed_policy t TagAction.delete w = let (done, w') = delete_policy_tag t w in (t, done, w')
  tag_managed_policy t _ w =
      let (done, w') = put_policy_tag (with_defaults t) w in (with_defaults t, done, w')

  -- The client is made outside the `try`.
  unfoldable pub apply_managed_policy_resource_tag_change :
      TagChange → Work → Result (TagChange × Bool) × Work
  apply_managed_policy_resource_tag_change t w =
      let a = e.lookups.parse_arn arn in
      let account = account_of e a arn in
      if not (truthy_text (some account))
      then (
        ok (t, false),
        fail
            (fstring (
              "Cannot apply change to "
              ∷ principal_json arn
              ∷ " as cannot determine resource account"
              ∷ []))
            w,
      )
      else if not (str_eq a.service "iam")
          || (not (str_eq a.resource "policy") || str_eq account "aws")
      then (
        ok (t, false),
        fail
            (fstring
              ("Cannot apply change to " ∷ principal_json arn ∷ " as it's not supported" ∷ []))
            w,
      )
      else escape (perform e (connect "iam" account e.config.region) w)
          (λ w'. let (t', done, w'') = tag_managed_policy t t.tag_action w' in (ok (t', done), w''))
