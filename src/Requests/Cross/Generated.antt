-- ===== src/Requests/Cross/Generated.antt =====
-- The statement that `populate_cross_account_resource_policies` puts into a policy.
use consoleme.Base.{
  str_eq, eq_iff, eq_refl, or_true_iff, sym, ◌∙◌, String, ◌≡◌, refl, inl, inr, Bool, true, false,
  not, List, [], ◌∷◌, All, elem,
}
use consoleme.Json.{Json}
use consoleme.Models.{ResourceChange, Change}
use consoleme.Requests.World.{Env}
use consoleme.Requests.Stubs.Foreign.{Returns, Returns-chain, Returns-map}
use consoleme.Requests.Grants.{new_statement, texts, grants_of_all}
use consoleme.Requests.Grants.Added.{HasAdded, generate_updated_resource_policy-HasAdded}
use consoleme.Requests.Grants.Given.{IsGiven}
use consoleme.Requests.Grants.Sound.{Sound, grants_of_all-Sound}
use consoleme.Requests.Cross.{Reads, generated_policy}
use consoleme.Requests.Cross.Renewed.{
  Lists, none_left, one_more, IsAllowance, on_resources, of_trust, KeepsItems, IsGenerated,
}

texts-Lists : (xs : List String) → Lists xs (texts xs)
unfolding texts
texts-Lists [] = none_left
texts-Lists (x ∷ xs) = one_more (texts-Lists xs)

new_statement-IsAllowance :
    (principal : String) (actions arns : List String) (is_trust : Bool)
    → IsAllowance principal actions arns is_trust
        (new_statement principal arns actions (not is_trust))
unfolding new_statement
new_statement-IsAllowance principal actions arns true = of_trust (texts-Lists actions)
new_statement-IsAllowance principal actions arns false =
    on_resources (texts-Lists actions) (texts-Lists arns)

module _ (P : String → Type 0) where
  All-elem : (x : String) (xs : List String) → elem x xs ≡ true → All P xs → P x
  All-elem x [] h k = cc
  All-elem x (y ∷ xs) h k = elim ((or_true_iff (str_eq x y) (elem x xs)).0 h) [
    | inl same ↦ rw ((eq_iff x y).0 same) k.0
    | inr later ↦ All-elem x xs later k.1
  ]

  All-from :
      (ys xs : List String)
      → ((x : String) → elem x ys ≡ true → elem x xs ≡ true)
      → All P xs
      → All P ys
  All-from [] xs f h = tt
  All-from (y ∷ ys) xs f h = (
    All-elem y xs (f y (rw eq_refl refl)) h,
    All-from ys xs (λ x k. f x ((or_true_iff (str_eq x y) (elem x ys)).1 (inr k))) h,
  )

  All-through : (ys xs : List String) → ((x : String) → elem x ys ≡ elem x xs) → All P xs → All P ys
  All-through ys xs f h = All-from ys xs (λ x k. sym (f x) ∙ k) h

module _ (e : Env) (reads : Reads) (principal_arn : String) (changes : List Change)
    (keeps : KeepsItems reads) where
  pub generated_policy-IsGenerated :
      (is_trust : Bool) (rc : ResourceChange) (old : Json)
      → Returns
          (IsGenerated e reads principal_arn changes is_trust rc.arn rc.source_change_id old)
          (generated_policy e reads principal_arn changes is_trust rc old)
  unfolding generated_policy
  generated_policy-IsGenerated is_trust rc old =
      let service = (e.lookups.parse_arn rc.arn).service in
      let Given = λ (a : String). IsGiven rc.arn a rc.source_change_id changes in
      Returns-chain (Sound reads.trust_permissions service is_trust rc.arn Given)
        (IsGenerated e reads principal_arn changes is_trust rc.arn rc.source_change_id old)
        (grants_of_all reads.trust_permissions service is_trust rc.arn rc.source_change_id changes)
        _
        (grants_of_all-Sound reads.trust_permissions service is_trust rc.arn rc.source_change_id
          changes)
        (λ g sound.
          Returns-map (HasAdded _ old)
            (IsGenerated e reads principal_arn changes is_trust rc.arn rc.source_change_id old) _
            (λ new added. record {
              statement = _;
              arns = reads.list_of_set g.1;
              actions = reads.list_of_set g.0;
              allows =
                  new_statement-IsAllowance principal_arn (reads.list_of_set g.0)
                    (reads.list_of_set g.1) is_trust;
              are_sound = All-through _ (reads.list_of_set g.0) g.0 (keeps g.0) sound.0;
              name_it = All-through _ (reads.list_of_set g.1) g.1 (keeps g.1) sound.1;
              added = added;
            })
            (generate_updated_resource_policy-HasAdded old _))
