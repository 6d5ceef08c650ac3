-- ===== src/Requests/Grants/Given.antt =====
-- What the new statement of a policy allows: actions of the resource's service that a statement of the source
-- gives for the resource.
use consoleme.Base.{
  String, ◌≡◌, Bool, true, false, Option, none, some, List, [], ◌∷◌, Some, ◌⊎◌, elem, fstring,
  starts_with,
}
use consoleme.Json.{Json, Items, nil, cons, get}
use consoleme.Models.{PolicyModel, Detail, inline_policy, Change}
use consoleme.Requests.World.{ok}
use consoleme.Statements.{statements, is_in, listed_under}

-- The action is of the service, or it is one that lets a role be assumed; a trust policy takes only those that
-- are configured.
abbrev pub IsFor : (perms : List String) → (service : String) → (is_trust : Bool) → String → Type 0
IsFor perms service is_trust action =
    ((starts_with action (fstring (service ∷ ":" ∷ [])) ≡ true)
      ⊎ ((service ≡ "iam") × (starts_with action "sts" ≡ true)))
    × ((is_trust ≡ false) ⊎ (elem action perms ≡ true))

-- The texts of a list of JSON values.
abbrev pub IsItem : String → Items → Type 0
IsItem a nil = ⊥
IsItem a (cons (Json.text t) xs) = (t ≡ a) ⊎ IsItem a xs
IsItem a (cons _ xs) = IsItem a xs

module _ (arn action : String) where
  -- A statement names the resource and has the action.
  abbrev pub InStatements : Items → Type 0
  InStatements nil = ⊥
  InStatements (cons (Json.object fs) xs) =
      ((is_in arn (get "Resource" fs) ≡ ok true) × IsItem action (listed_under "Action" fs))
      ⊎ InStatements xs
  InStatements (cons _ xs) = InStatements xs

  abbrev pub InPolicy : Option PolicyModel → Type 0
  InPolicy none = ⊥
  InPolicy (some m) = (xs : Items) × (statements m.policy_document ≡ ok xs) × InStatements xs

  abbrev pub InDetail : Detail → Type 0
  InDetail (inline_policy ch) = InPolicy ch.policy
  InDetail _ = ⊥

  -- The inline policy from which the change was generated has such a statement.
  abbrev pub IsGiven : (source : Option String) → List Change → Type 0
  IsGiven source = Some (λ (c : Change). (source ≡ some c.id) × InDetail c.detail)
