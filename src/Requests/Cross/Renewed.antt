-- ===== src/Requests/Cross/Renewed.antt =====
-- What `populate_cross_account_resource_policies` may do to the changes of a request.
use consoleme.Base.{
  not, ◌||◌, truthy_text, contains, String, ◌≡◌, ◌⊎◌, Bool, true, false, Option, some, List, [],
  ◌∷◌, All, elem,
}
use consoleme.Aws.{get_resource_account}
use consoleme.Requests.Role.{principal_name}
use consoleme.Requests.Stubs.{empty_policy}
use consoleme.Json.{Json, Items, nil, cons, object, array, text, field, end}
use consoleme.Models.{
  AwsPrincipal, PolicyModel, is_applied, ResourceChange, Detail, resource_policy,
  sts_resource_policy, Change,
}
use consoleme.Requests.World.{Env}
use consoleme.Requests.Grants.Added.{HasAdded}
use consoleme.Requests.Grants.Given.{IsFor, IsGiven}
use consoleme.Requests.Cross.{Reads}

-- The JSON values of these texts, in this order.
pub data Lists : List String → Items → Type 0 where
  none_left : Lists [] nil
  one_more :
      {x : String} {xs : List String} {items : Items}
      → Lists xs items
      → Lists (x ∷ xs) (cons (Json.text x) items)

-- A statement that allows a principal these actions on these resources; that of a trust policy names no
-- resource.
pub data IsAllowance (principal : String) (actions arns : List String) : Bool → Json → Type 0 where
  on_resources :
      {items resources : Items}
      → Lists actions items
      → Lists arns resources
      → IsAllowance principal actions arns false (
          object (
            field "Effect" (text "Allow") (
              field "Principal"
                (object (field "AWS" (array (cons (text principal) nil)) end))
                (field "Action" (array items) (field "Resource" (array resources) end)))))
  of_trust :
      {items : Items}
      → Lists actions items
      → IsAllowance principal actions arns true (
          object (
            field "Effect" (text "Allow") (
              field "Principal"
                (object (field "AWS" (array (cons (text principal) nil)) end))
                (field "Action" (array items) end))))

-- A list of a set of texts has the texts of the set.
abbrev pub KeepsItems : Reads → Type 0
KeepsItems reads = (xs : List String) (x : String) → elem x (reads.list_of_set xs) ≡ elem x xs

module _ (e : Env) (reads : Reads) (principal_arn : String) (changes : List Change) where
  -- The new policy has the statements of the present one, and behind them one more, which allows this
  -- principal actions of the resource's service, or those that let a role be assumed. A statement of the inline
  -- policy that is the source has each of them, and names the resource; the resources have its arn in theirs.
  pub record IsGenerated (is_trust : Bool) (arn : String) (source : Option String) (old new : Json)
      : Type 0 where
    pub statement : Json
    pub arns : List String
    pub actions : List String
    pub allows : IsAllowance principal_arn actions arns is_trust statement
    pub are_sound :
        All
          (λ (a : String).
            IsFor reads.trust_permissions (e.lookups.parse_arn arn).service is_trust a
            × IsGiven arn a source changes)
          actions
    pub name_it : All (λ (r : String). contains arn r ≡ true) arns
    pub added : HasAdded statement old new

  -- The account of a resource: its arn names it, or it is looked up.
  pub data IsAccount (arn : String) : String → Type 0 where
    named : IsAccount arn (e.lookups.parse_arn arn).account
    looked_up : IsAccount arn (get_resource_account e.lookups arn)

  -- The present policy of a resource, or of a role to be assumed, as it is read in its account; or an empty
  -- one, if the account is not one of the organization's.
  pub data IsPresent (arn : String) : (is_trust : Bool) → Json → Type 0 where
    of_resource :
        {account : String}
        → IsAccount arn account
        → IsPresent arn false (
            reads.get_resource_policy account
              (e.lookups.parse_arn arn).service
              (e.lookups.parse_arn arn).resource
              (e.lookups.parse_arn arn).region)
    of_role :
        {account : String} {p : AwsPrincipal}
        → IsAccount arn account
        → reads.get_role_details account (principal_name (e.lookups.parse_arn arn)) ≡ some p
        → IsPresent arn true p.assume_role_policy_document
    of_stranger :
        {is_trust : Bool} {account : String}
        → IsAccount arn account
        → (not (truthy_text (some account)) || not (elem account reads.all_accounts)) ≡ true
        → IsPresent arn is_trust empty_policy

  -- The policy is the one before, or was generated for the present policy of the resource.
  pub record IsRenewed (is_trust autogenerated : Bool) (old new : ResourceChange) : Type 0 where
    pub arn : new.arn ≡ old.arn
    pub source : new.source_change_id ≡ old.source_change_id
    pub policy :
        (new.policy ≡ old.policy)
        ⊎ ((autogenerated ≡ true)
            × ((present : PolicyModel) × (new.old_policy ≡ some present)
                × IsPresent old.arn is_trust present.policy_document
                × IsGenerated is_trust old.arn old.source_change_id present.policy_document
                    new.policy.policy_document))

  abbrev pub policy_of : (is_trust : Bool) → ResourceChange → Detail
  policy_of true rc = sts_resource_policy rc
  policy_of false rc = resource_policy rc

  -- The change is left alone, or it is not applied and is one of a resource's policy, and only that is
  -- renewed.
  pub data IsPopulated (c : Change) : Change → Type 0 where
    untouched : IsPopulated c c
    renewed :
        (is_trust : Bool) (old new : ResourceChange)
        → is_applied c.status ≡ false
        → c.detail ≡ policy_of is_trust old
        → IsRenewed is_trust c.autogenerated old new
        → IsPopulated c (record c { detail = policy_of is_trust new })
