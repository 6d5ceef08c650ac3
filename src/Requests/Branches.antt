-- ===== src/Requests/Branches.antt =====
-- The branches of `apply_change` in `parse_and_apply_policy_request_modification`.
use consoleme.Base.{String, Bool, true, false, not, some, starts_with, if◌then◌else◌}
use consoleme.Aws.{get_resource_account}
use consoleme.Models.{
  Status, Principal, Detail, resource_policy, sts_resource_policy, resource_tag,
  managed_policy_resource, TagChange, ResourceChange, ManagedResourceChange,
}
use consoleme.Requests.World.{fetch_iam_role, Env, ok}
use consoleme.Requests.Role.{apply_changes_to_role}
use consoleme.Requests.Resource.{apply_resource_policy_change}
use consoleme.Requests.Tags.{
  apply_non_iam_resource_tag_change, apply_managed_policy_resource_tag_change,
}
use consoleme.Requests.Old.{populate_old_policies}
use consoleme.Requests.Managed.{apply_managed_policy_resource_change}
use consoleme.Requests.ManagedArn.{is_managed_policy_arn}
use consoleme.Requests.Flow.{M, pure, gets, lift, on_changes, ◌>>=◌, ◌>>◌, call, arn_of}
use consoleme.Requests.Complete.{with_detail, Done, edit_change}

module _ (e : Env) where
  unfoldable pub populate_all : M Done
  populate_all = on_changes (λ r w. populate_old_policies e r.principal r.changes w)

  unfoldable pub refresh_principal : M Done
  refresh_principal = do
    arn ← lift (arn_of (← gets (λ s. s.request.principal)))
    call e (λ _. fetch_iam_role (get_resource_account e.lookups arn) arn)

  -- The principal of the request is an IAM role or user.
  unfoldable pub through_role : String → M Done
  through_role id = do
    populate_all
    on_changes (λ r w. apply_changes_to_role e r (some id) w)
    refresh_principal

  -- `change.status = Status.applied`, in a branch that says whether it applied the change.
  unfoldable pub mark : String → Bool → M Done
  mark id true = edit_change id (λ c. record c { status = Status.applied })
  mark id false = pure tt

  unfoldable pub through_resource : String → Bool → ResourceChange → M Done
  through_resource id sts rc = do
    done ← on_changes (λ r w.
        let (done, w') = apply_resource_policy_change e sts rc w in (ok done, r.changes, w'))
    mark id done

  -- The key and value of the tag may have been filled in.
  unfoldable pub retagged : String → TagChange × Bool → M Done
  retagged id (t, done) = do edit_change id (with_detail (resource_tag t)); mark id done

  unfoldable pub through_tag : String → TagChange → (arn : String) → M Done
  through_tag id t arn =
      if not (starts_with arn "arn:aws:iam::")
      then (do
        result ← on_changes (λ r w.
            let (t', done, w') = apply_non_iam_resource_tag_change e arn t w in
            (ok (t', done), r.changes, w'))
        retagged id result)
      else if is_managed_policy_arn arn
      then (do
        result ← on_changes (λ r w.
            let (p, w') = apply_managed_policy_resource_tag_change e arn t w in (p, r.changes, w'))
        retagged id result)
      else through_role id

  unfoldable pub through_managed : String → ManagedResourceChange → M Done
  through_managed id m = do
    done ← on_changes (λ r w. apply_managed_policy_resource_change e r.principal m r.changes w)
    mark id done

  unfoldable pub dispatch : String → Principal → Detail → M Done
  dispatch id p (resource_policy rc) = through_resource id false rc
  dispatch id p (sts_resource_policy rc) = through_resource id true rc
  dispatch id p (resource_tag t) = do arn ← lift (arn_of p); through_tag id t arn
  dispatch id p (managed_policy_resource m) = through_managed id m
  dispatch id p d = through_role id
