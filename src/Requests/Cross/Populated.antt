-- ===== src/Requests/Cross/Populated.antt =====
-- What `populate_cross_account_resource_policies` does to the changes of a request.
use consoleme.Base.{
  if-holds, String, ◌≡◌, refl, inl, inr, Bool, true, false, not, ◌||◌, Option, none, some, List, [],
  ◌∷◌, elem, truthy_text, if◌then◌else◌,
}
use consoleme.Requests.Role.{principal_name}
use consoleme.Json.{Json}
use consoleme.Models.{
  aws_resource, is_applied, ResourceChange, Detail, resource_policy, sts_resource_policy, Change,
  AwsPrincipal,
}
use consoleme.Requests.World.{Env, Result, ok, raised}
use consoleme.Requests.Pairs.{Pairs}
use consoleme.Requests.Stubs.{empty_policy}
use consoleme.Requests.Stubs.Foreign.{Returns}
use consoleme.Requests.Cross.{
  Reads, Populated, model_of, is_unchanged, with_policy, with_old, with_role, account_of_arn,
  populate_unknown, populate_known, populate_resource,
  populate_cross_account_resource_policy_for_change, populate_each,
  populate_cross_account_resource_policies,
}
use consoleme.Requests.Cross.Renewed.{
  KeepsItems, IsGenerated, IsRenewed, IsPopulated, IsAccount, IsPresent, named, looked_up,
  of_resource, of_role, of_stranger, untouched, renewed,
}
use consoleme.Requests.Cross.Generated.{generated_policy-IsGenerated}

module _ (e : Env) (reads : Reads) (principal_arn : String) (changes : List Change)
    (keeps : KeepsItems reads) where
  abbrev Renewed : Bool → Bool → ResourceChange → Populated → Type 0
  Renewed is_trust autogenerated rc q =
      IsRenewed e reads principal_arn changes is_trust autogenerated rc q.1

  as_before :
      (t a : Bool) (rc new : ResourceChange)
      → new.arn ≡ rc.arn
      → new.source_change_id ≡ rc.source_change_id
      → new.policy ≡ rc.policy
      → IsRenewed e reads principal_arn changes t a rc new
  as_before t a rc new h k l = record { arn = h; source = k; policy = inl l }

  abbrev Present : (is_trust : Bool) → (arn : String) → Json → Type 0
  Present is_trust arn old = IsPresent e reads principal_arn changes arn is_trust old

  with_policy-Renewed :
      (t : Bool) (old : Json) (rc : ResourceChange) (r : Result Json)
      → Present t rc.arn old
      → Returns (IsGenerated e reads principal_arn changes t rc.arn rc.source_change_id old) r
      → Renewed t true rc (
          with_policy e reads principal_arn changes
            (record rc { old_policy = some (model_of e reads principal_arn changes old) })
            r)
  with_policy-Renewed t old rc (ok doc) h k = record {
    arn = refl;
    source = refl;
    policy = inr (refl, (_, refl, h, k));
  }
  with_policy-Renewed t old rc (raised err) h k = as_before t true rc _ refl refl refl

  if-Renewed :
      (t a b : Bool) (rc : ResourceChange) (p q : Populated)
      → (b ≡ true → Renewed t a rc p)
      → Renewed t a rc q
      → Renewed t a rc (if b then p else q)
  if-Renewed t a true rc p q h k = h refl
  if-Renewed t a false rc p q h k = k

  with_old-Renewed :
      (t a : Bool) (rc : ResourceChange) (old : Json)
      → Present t rc.arn old
      → Renewed t a rc (with_old e reads principal_arn changes t a rc old)
  unfolding with_old
  with_old-Renewed t true rc old h =
      if-Renewed t true (is_unchanged (e.digest old) rc.old_policy) rc _ _
        (λ _. as_before t true rc _ refl refl refl)
        (with_policy-Renewed t old rc _ h (
          generated_policy-IsGenerated e reads principal_arn changes keeps t
            (record rc { old_policy = some (model_of e reads principal_arn changes old) }) old))
  with_old-Renewed t false rc old h =
      if-Renewed t false (is_unchanged (e.digest old) rc.old_policy) rc _ _
        (λ _. as_before t false rc _ refl refl refl) (as_before t false rc _ refl refl refl)

  -- The same, for a change that is said to be supported or not.
  supported_Renewed :
      (t a : Bool) (b : Option Bool) (rc new : ResourceChange)
      → IsRenewed e reads principal_arn changes t a (record rc { supported = b }) new
      → IsRenewed e reads principal_arn changes t a rc new
  supported_Renewed t a b rc new h = record { arn = h.arn; source = h.source; policy = h.policy }

  with_role-Renewed :
      (a : Bool) (rc : ResourceChange) (account : String) (o : Option AwsPrincipal)
      → IsAccount e reads principal_arn changes rc.arn account
      → reads.get_role_details account (principal_name (e.lookups.parse_arn rc.arn)) ≡ o
      → Renewed true a rc (with_role e reads principal_arn changes a rc o)
  with_role-Renewed a rc account none h k = as_before true a rc _ refl refl refl
  with_role-Renewed a rc account (some p) h k =
      with_old-Renewed true a rc p.assume_role_policy_document (of_role h k)

  populate_unknown-Renewed :
      (t a : Bool) (rc : ResourceChange)
      → Present t rc.arn empty_policy
      → Renewed t a rc (populate_unknown e reads principal_arn changes t a rc)
  populate_unknown-Renewed t a rc h =
      supported_Renewed t a (some false) rc _
        (with_old-Renewed t a (record rc { supported = some false }) empty_policy h)

  populate_known-Renewed :
      (t a : Bool) (rc : ResourceChange) (account : String)
      → IsAccount e reads principal_arn changes rc.arn account
      → Renewed t a rc
          (populate_known e reads principal_arn changes t a rc (e.lookups.parse_arn rc.arn) account)
  populate_known-Renewed true a rc account h =
      supported_Renewed true a _ rc _ (with_role-Renewed a _ account _ h refl)
  populate_known-Renewed false a rc account h =
      supported_Renewed false a _ rc _ (with_old-Renewed false a _ _ (of_resource h))

  account_of_arn-IsAccount :
      (arn : String)
      → IsAccount e reads principal_arn changes arn
          (account_of_arn e reads principal_arn changes arn)
  account_of_arn-IsAccount arn =
      if-holds (IsAccount e reads principal_arn changes arn)
        (truthy_text (some (e.lookups.parse_arn arn).account)) _ _ named looked_up

  populate_resource-Renewed :
      (t a : Bool) (rc : ResourceChange)
      → Renewed t a rc (populate_resource e reads principal_arn changes t a rc)
  unfolding populate_resource
  populate_resource-Renewed t a rc =
      let account = account_of_arn e reads principal_arn changes rc.arn in
      let is_account = account_of_arn-IsAccount rc.arn in
      let b = not (truthy_text (some account)) || not (elem account reads.all_accounts) in
      if-Renewed t a b rc (populate_unknown e reads principal_arn changes t a rc)
        (populate_known e reads principal_arn changes t a rc (e.lookups.parse_arn rc.arn) account)
        (λ strange. populate_unknown-Renewed t a rc (of_stranger is_account strange))
        (populate_known-Renewed t a rc account is_account)

  unless_applied :
      (c : Change) (b : Bool) (q : Result Bool × Change)
      → is_applied c.status ≡ b
      → (is_applied c.status ≡ false → IsPopulated e reads principal_arn changes c q.1)
      → IsPopulated e reads principal_arn changes c (if b then (ok false, c) else q).1
  unless_applied c true q h k = untouched
  unless_applied c false q h k = k h

  populate_change-IsPopulated :
      (c : Change) (d : Detail)
      → c.detail ≡ d
      → IsPopulated e reads principal_arn changes c
          (populate_cross_account_resource_policy_for_change e reads principal_arn changes c d).1
  unfolding populate_cross_account_resource_policy_for_change
  populate_change-IsPopulated c (resource_policy rc) h =
      unless_applied c (is_applied c.status) _ refl (λ not_yet.
        renewed false rc _ not_yet h (populate_resource-Renewed false c.autogenerated rc))
  populate_change-IsPopulated c (sts_resource_policy rc) h =
      unless_applied c (is_applied c.status) _ refl
        (λ not_yet. renewed true rc _ not_yet h (populate_resource-Renewed true c.autogenerated rc))
  populate_change-IsPopulated c _ h = untouched

  populate_each-IsPopulated :
      (cs : List Change)
      → Pairs
          (IsPopulated e reads principal_arn changes)
          cs
          (populate_each e reads principal_arn changes cs).1
  unfolding populate_each
  populate_each-IsPopulated [] = tt
  populate_each-IsPopulated (c ∷ cs) =
      (populate_change-IsPopulated c c.detail refl, populate_each-IsPopulated cs)

-- However it ends, the population of policies leaves the changes in their places, and leaves alone what is
-- applied and everything but policies of resources. Of these it renews what is known of the resource and,
-- in a change that was generated, the policy: the new one has the statements of the resource's present
-- policy, as it is read in its account, or of an empty one for an account outside the organization, and behind
-- them one more. That one allows the principal actions of the resource's service, or, of
-- those that are configured, ones that let a role be assumed; a statement of the change's source, an inline
-- policy of the request, has each of these actions and names the resource; and every resource in the new
-- statement has the arn of the resource in it. The list of a set has the items of the set.
pub populate_cross_account_resource_policies-IsPopulated :
    (e : Env) (reads : Reads) (arn : String) (changes : List Change)
    → KeepsItems reads
    → Pairs
        (IsPopulated e reads arn changes)
        changes
        (populate_cross_account_resource_policies e reads (aws_resource arn) changes).1
unfolding populate_cross_account_resource_policies
populate_cross_account_resource_policies-IsPopulated e reads arn changes keeps =
    populate_each-IsPopulated e reads arn changes keeps changes
