-- ===== src/Requests/Tags/Outcome.antt =====
-- The answers of apply_resource_policy_change and apply_non_iam_resource_tag_change, set against the calls
-- that were made and the errors of the response.
use consoleme.Base.{
  String, ◌≡◌, refl, ◌∙◌, Bool, true, false, Option, none, some, arith, if◌then◌else◌,
}
use consoleme.Json.{Json}
use consoleme.Models.{Arn, TagAction, TagChange, ResourceChange}
use consoleme.Requests.World.{Call, Failure, Env, Work, fail, Act, perform, ◌>>◌, caught}
use consoleme.Requests.Acts.{
  Succeeded, Succeeded-trans, here, more, IsBody, IsBody-if, IsBody->>, IsBody-perform, body_rules,
  Judged, caught-Judged,
}
use consoleme.Requests.Resource.{
  put_queue_policy, put_resource_policy, apply_resource_policy_change,
}
use consoleme.Requests.Tags.{
  tag_bucket, tag_sns, tag_sqs, with_queue_url, tag_resource, fetch_details, finish_tag,
  apply_non_iam_resource_tag_change,
}

module _ (e : Env) where
  if-Judged :
      (w : Work) (b : Bool) (x y : Bool × Work)
      → Judged e w x
      → Judged e w y
      → Judged e w (if b then x else y)
  if-Judged w true x y h k = h
  if-Judged w false x y h k = k

  fail-Judged : (s : String) (w : Work) → Judged e w (false, fail s w)
  unfolding fail
  fail-Judged s w = omega arith

  put_queue_policy-IsBody : (name : String) (doc : Json) → IsBody e (put_queue_policy e name doc)
  unfolding put_queue_policy perform
  put_queue_policy-IsBody name doc = record { quiet = λ w. refl; completes = λ w h. more here h }

  put_resource_policy-IsBody :
      (a : Arn) (account arn : String) (doc : Json)
      → IsBody e (put_resource_policy e a account arn doc)
  unfolding put_resource_policy
  put_resource_policy-IsBody a account arn doc =
      search (body_rules, IsBody-if, put_queue_policy-IsBody) depth 12

  -- If a resource policy is reported as applied, every call that it took returned, and no error is counted.
  -- If it is not, for whatever reason, one error is counted.
  pub apply_resource_policy_change-Judged :
      (sts : Bool) (c : ResourceChange) (w : Work)
      → Judged e w (apply_resource_policy_change e sts c w)
  unfolding apply_resource_policy_change
  apply_resource_policy_change-Judged sts c w =
      search (if-Judged, fail-Judged, caught-Judged, body_rules, put_resource_policy-IsBody) depth
        12

  module _ (arn : String) where
    tag_bucket-IsBody :
        (a : Arn) (t : TagChange) (x : TagAction) → IsBody e (tag_bucket e arn a t x)
    unfolding tag_bucket perform
    tag_bucket-IsBody a t TagAction.delete = record {
      quiet = λ w. refl;
      completes = λ w h. more here h;
    }
    tag_bucket-IsBody a t TagAction.create = record {
      quiet = λ w. refl;
      completes = λ w h. more here h;
    }
    tag_bucket-IsBody a t TagAction.update = record {
      quiet = λ w. refl;
      completes = λ w h. more here h;
    }

    tag_sns-IsBody : (t : TagChange) (x : TagAction) → IsBody e (tag_sns e arn t x)
    unfolding tag_sns
    tag_sns-IsBody t TagAction.delete = search body_rules
    tag_sns-IsBody t TagAction.create = search body_rules
    tag_sns-IsBody t TagAction.update = search body_rules

    tag_sqs-IsBody :
        (url : String) (t : TagChange) (x : TagAction) → IsBody e (tag_sqs e arn url t x)
    unfolding tag_sqs
    tag_sqs-IsBody url t TagAction.delete = search body_rules
    tag_sqs-IsBody url t TagAction.create = search body_rules
    tag_sqs-IsBody url t TagAction.update = search body_rules

    with_queue_url-IsBody :
        (name : String) (k : String → Act)
        → ((url : String) → IsBody e (k url))
        → IsBody e (with_queue_url e arn name k)
    unfolding with_queue_url
    with_queue_url-IsBody name k h = record {
      quiet = λ w. (h (e.queue_url w.calls name)).quiet w;
      completes = λ w. (h (e.queue_url w.calls name)).completes w;
    }

    tag_resource-IsBody : (a : Arn) (t : TagChange) → IsBody e (tag_resource e arn a t)
    unfolding tag_resource
    tag_resource-IsBody a t =
        search
          (
            IsBody-if, body_rules, tag_bucket-IsBody, tag_sns-IsBody, tag_sqs-IsBody,
            with_queue_url-IsBody,
          )
          depth 12

    fetch_details-IsBody :
        (a : Arn) (account region : String) → IsBody e (fetch_details e arn a account region)
    unfolding fetch_details
    fetch_details-IsBody a account region = search (IsBody-if, body_rules)

    -- The answer without the tag.
    abbrev pub verdict : TagChange × Bool × Work → Bool × Work
    verdict (t, done, w) = (done, w)

    if-verdict :
        (w : Work) (b : Bool) (x y : TagChange × Bool × Work)
        → Judged e w (verdict x)
        → Judged e w (verdict y)
        → Judged e w (verdict (if b then x else y))
    if-verdict w true x y h k = h
    if-verdict w false x y h k = k

    Judged-after :
        (w v : Work) (p : Bool × Work)
        → Succeeded e w.calls v.calls
        → v.response.errors ≡ w.response.errors
        → Judged e v p
        → Judged e w p
    Judged-after w v (true, u) s h (t, k) = (Succeeded-trans s t, k ∙ h)
    Judged-after w v (false, u) s h k = omega (arith, h, k)

    finish_tag-Judged :
        (a : Arn) (t : TagChange) (w : Work) (p : Option Failure × Work)
        → (p.0 ≡ none → Succeeded e w.calls p.1.calls)
        → p.1.response.errors ≡ w.response.errors
        → Judged e w (verdict (finish_tag e arn a t p))
    unfolding finish_tag fail
    finish_tag-Judged a t w (some f, v) s h = omega (arith, h)
    finish_tag-Judged a t w (none, v) s h =
        Judged-after w v (caught _ _ v) (s refl) h
          (caught-Judged e _ _ v (search (body_rules, tag_resource-IsBody)))

    asked-Judged :
        (a : Arn) (t : TagChange) (c : Call) (account region : String) (w : Work)
        → Judged e w (
            verdict
              (finish_tag e arn a t ((perform e c >> fetch_details e arn a account region) w)))
    asked-Judged a t c account region w =
        let body = IsBody->> e _ _ (IsBody-perform e c) (fetch_details-IsBody a account region) in
        finish_tag-Judged a t w _ (body.completes w) (body.quiet w)

    -- If the tags of a bucket, a topic or a queue are reported as changed, every call that it took returned,
    -- and no error is counted. If they are not, for whatever reason, one error is counted.
    pub apply_non_iam_resource_tag_change-Judged :
        (t : TagChange) (w : Work)
        → Judged e w (verdict (apply_non_iam_resource_tag_change e arn t w))
    unfolding apply_non_iam_resource_tag_change
    apply_non_iam_resource_tag_change-Judged t w = search (if-verdict, fail-Judged, asked-Judged)
