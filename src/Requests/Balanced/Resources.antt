-- ===== src/Requests/Balanced/Resources.antt =====
-- The changes of resource policies and of tags keep the books.
use consoleme.Base.{String, Bool, Option, none, some, refl}
use consoleme.Json.{Json}
use consoleme.Models.{TagAction, TagChange, ResourceChange, Arn}
use consoleme.Requests.World.{
  Act, Call, fail, Env, Failure, Work, Result, perform, ◌>>◌, caught, escape,
}
use consoleme.Requests.Resource.{
  put_queue_policy, put_resource_policy, apply_resource_policy_change,
}
use consoleme.Requests.Tags.{
  tag_bucket, tag_sns, tag_sqs, with_queue_url, tag_resource, fetch_details, finish_tag,
  apply_non_iam_resource_tag_change, put_policy_tag, delete_policy_tag, tag_managed_policy,
  apply_managed_policy_resource_tag_change,
}
use consoleme.Requests.Balanced.{
  Balanced, Balanced-trans, fail-Balanced, IsTidy, IsTidy->>, IsTidy-perform, tidy_rules,
  caught-Balanced,
}
use consoleme.Requests.Balanced.Roles.{if-Balanced, if-Balanced-2, perform-Balanced}

module _ (e : Env) where
  put_queue_policy-IsTidy : (name : String) (doc : Json) → IsTidy (put_queue_policy e name doc)
  unfolding put_queue_policy perform
  put_queue_policy-IsTidy name doc = record { tidy = λ w. refl }

  put_resource_policy-IsTidy :
      (a : Arn) (account arn : String) (doc : Json)
      → IsTidy (put_resource_policy e a account arn doc)
  unfolding put_resource_policy
  put_resource_policy-IsTidy a account arn doc =
      search (tidy_rules, put_queue_policy-IsTidy) depth 12

  pub apply_resource_policy_change-Balanced :
      (sts : Bool) (c : ResourceChange) (w : Work)
      → Balanced w (apply_resource_policy_change e sts c w).1
  unfolding apply_resource_policy_change
  apply_resource_policy_change-Balanced sts c w =
      search (if-Balanced, fail-Balanced, caught-Balanced, tidy_rules, put_resource_policy-IsTidy)
        depth 12

  module _ (arn : String) where
    tag_bucket-IsTidy : (a : Arn) (t : TagChange) (x : TagAction) → IsTidy (tag_bucket e arn a t x)
    unfolding tag_bucket perform
    tag_bucket-IsTidy a t TagAction.delete = record { tidy = λ w. refl }
    tag_bucket-IsTidy a t TagAction.create = record { tidy = λ w. refl }
    tag_bucket-IsTidy a t TagAction.update = record { tidy = λ w. refl }

    tag_sns-IsTidy : (t : TagChange) (x : TagAction) → IsTidy (tag_sns e arn t x)
    unfolding tag_sns
    tag_sns-IsTidy t TagAction.delete = search tidy_rules depth 12
    tag_sns-IsTidy t TagAction.create = search tidy_rules depth 12
    tag_sns-IsTidy t TagAction.update = search tidy_rules depth 12

    tag_sqs-IsTidy : (url : String) (t : TagChange) (x : TagAction) → IsTidy (tag_sqs e arn url t x)
    unfolding tag_sqs
    tag_sqs-IsTidy url t TagAction.delete = search tidy_rules depth 12
    tag_sqs-IsTidy url t TagAction.create = search tidy_rules depth 12
    tag_sqs-IsTidy url t TagAction.update = search tidy_rules depth 12

    with_queue_url-IsTidy :
        (name : String) (k : String → Act)
        → ((url : String) → IsTidy (k url))
        → IsTidy (with_queue_url e arn name k)
    unfolding with_queue_url
    with_queue_url-IsTidy name k h = record { tidy = λ w. (h (e.queue_url w.calls name)).tidy w }

    tag_resource-IsTidy : (a : Arn) (t : TagChange) → IsTidy (tag_resource e arn a t)
    unfolding tag_resource
    tag_resource-IsTidy a t =
        search
          (tidy_rules, tag_bucket-IsTidy, tag_sns-IsTidy, tag_sqs-IsTidy, with_queue_url-IsTidy)
          depth 12

    fetch_details-IsTidy :
        (a : Arn) (account region : String) → IsTidy (fetch_details e arn a account region)
    unfolding fetch_details
    fetch_details-IsTidy a account region = search tidy_rules depth 12

    finish_tag-Balanced :
        (a : Arn) (t : TagChange) (w : Work) (p : Option Failure × Work)
        → Balanced w p.1
        → Balanced w (finish_tag e arn a t p).2
    unfolding finish_tag
    finish_tag-Balanced a t w (some f, v) h = Balanced-trans w v (fail _ v) h (fail-Balanced _ v)
    finish_tag-Balanced a t w (none, v) h =
        Balanced-trans w v (caught _ _ v).1 h
          (caught-Balanced _ _ v (search (tidy_rules, tag_resource-IsTidy)))

    asked-Balanced :
        (a : Arn) (c : Call) (account region : String) (w : Work)
        → Balanced w ((perform e c >> fetch_details e arn a account region) w).1
    asked-Balanced a c account region w =
        (IsTidy->> _ _ (IsTidy-perform e c) (fetch_details-IsTidy a account region)).tidy w

    pub apply_non_iam_resource_tag_change-Balanced :
        (t : TagChange) (w : Work) → Balanced w (apply_non_iam_resource_tag_change e arn t w).2
    unfolding apply_non_iam_resource_tag_change
    apply_non_iam_resource_tag_change-Balanced t w =
        search (if-Balanced-2, fail-Balanced, finish_tag-Balanced, asked-Balanced)

    put_policy_tag-Balanced : (t : TagChange) (w : Work) → Balanced w (put_policy_tag e arn t w).1
    unfolding put_policy_tag
    put_policy_tag-Balanced t w = caught-Balanced _ _ w (search tidy_rules depth 12)

    delete_policy_tag-Balanced :
        (t : TagChange) (w : Work) → Balanced w (delete_policy_tag e arn t w).1
    unfolding delete_policy_tag
    delete_policy_tag-Balanced t w = caught-Balanced _ _ w (search tidy_rules depth 12)

    tag_managed_policy-Balanced :
        (t : TagChange) (x : TagAction) (w : Work) → Balanced w (tag_managed_policy e arn t x w).2
    unfolding tag_managed_policy
    tag_managed_policy-Balanced t TagAction.delete w = delete_policy_tag-Balanced t w
    tag_managed_policy-Balanced t TagAction.create w = put_policy_tag-Balanced _ w
    tag_managed_policy-Balanced t TagAction.update w = put_policy_tag-Balanced _ w

    escape-Balanced :
        {A : Type 0} (w : Work) (p : Option Failure × Work) (k : Work → Result A × Work)
        → Balanced w p.1
        → ((v : Work) → Balanced v (k v).1)
        → Balanced w (escape p k).1
    escape-Balanced w (none, v) k h hk = Balanced-trans w v (k v).1 h (hk v)
    escape-Balanced w (some f, v) k h hk = h

    pub apply_managed_policy_resource_tag_change-Balanced :
        (t : TagChange) (w : Work)
        → Balanced w (apply_managed_policy_resource_tag_change e arn t w).1
    unfolding apply_managed_policy_resource_tag_change
    apply_managed_policy_resource_tag_change-Balanced t w =
        search (
          if-Balanced, fail-Balanced, escape-Balanced, perform-Balanced,
          tag_managed_policy-Balanced,
        )
