-- ===== src/Requests/Resource.antt =====
-- `apply_resource_policy_change`: the policy of a bucket, a topic, a queue or another account's role.
use consoleme.Base.{
  String, Bool, false, not, ◌&&◌, ◌||◌, Option, none, some, [], ◌∷◌, str_eq, truthy_text, fstring,
  split, last, elem, if◌then◌else◌,
}
use consoleme.Json.{Json}
use consoleme.Aws.{get_resource_account, get_bucket_location_with_fallback}
use consoleme.Models.{Arn, ResourceChange}
use consoleme.Requests.World.{
  connect, put_bucket_policy, set_topic_policy, get_queue_url, set_queue_policy,
  update_assume_role_policy, fetch_iam_role, Env, Work, fail, Act, perform, ◌>>◌, pass, report,
  caught,
}

-- The account in the arn, or else the one that the caches give; an empty text if there is none.
unfoldable pub account_of : Env → Arn → String → String
account_of e a arn =
    if truthy_text (some a.account) then a.account else get_resource_account e.lookups arn

-- The region in the arn, for a bucket the one that AWS names, or else the configured one.
unfoldable pub region_of : Env → Arn → String → String
region_of e a account =
    let region =
      if str_eq a.service "s3" && not (truthy_text (some a.region))
      then get_bucket_location_with_fallback e.lookups a.resource account e.config.region
      else a.region in
    if truthy_text (some region) then region else e.config.region

is_true : Option Bool → Bool
is_true (some b) = b
is_true none = false

-- `sts` tells the two change types of the class apart.
unfoldable pub is_unsupported : Env → (sts : Bool) → (service : String) → Option Bool → Bool
unfolding is_true
is_unsupported e sts service supported =
    not (is_true supported)
    || (not sts && not (elem service e.config.supported_resource_types)
        || sts && not e.config.sts_resource_policy_supported)

-- The url is read off the answer of `get_queue_url`.
unfoldable pub put_queue_policy : Env → String → Json → Act
put_queue_policy e name doc w = perform e (set_queue_policy (e.queue_url w.calls name) doc) w

-- The call that the service of the resource has for its policy.
unfoldable pub put_resource_policy : Env → Arn → (account arn : String) → Json → Act
put_resource_policy e a account arn doc =
    if str_eq a.service "s3"
    then perform e (put_bucket_policy a.resource doc)
    else if str_eq a.service "sns"
    then perform e (set_topic_policy arn doc)
    else if str_eq a.service "sqs"
    then (do perform e (get_queue_url a.resource); put_queue_policy e a.resource doc)
    else if str_eq a.service "iam"
    then (do
      perform e (update_assume_role_policy (last (split b'/' a.resource_path)) doc)
      perform e (fetch_iam_role account arn))
    else pass

-- Whether the change was applied.
unfoldable pub apply_resource_policy_change :
    Env → (sts : Bool) → ResourceChange → Work → Bool × Work
apply_resource_policy_change e sts c w =
    let a = e.lookups.parse_arn c.arn in
    let account = account_of e a c.arn in
    if not (truthy_text (some account))
    then (
      false,
      fail
          (fstring
            ("Cannot apply change to " ∷ c.arn ∷ " as cannot determine resource account" ∷ []))
          w,
    )
    else if is_unsupported e sts a.service c.supported
    then (
      false,
      fail (fstring ("Cannot apply change to " ∷ c.arn ∷ " as it's not supported" ∷ [])) w,
    )
    else caught
        (do
          perform e (connect a.service account (region_of e a account))
          put_resource_policy e a account c.arn c.policy.policy_document
          report (fstring ("Successfully updated resource policy for " ∷ c.arn ∷ [])))
        (fstring ("Error occurred updating resource policy for " ∷ c.arn ∷ [])) w
