-- ===== src/Requests/Validate/Accepted.antt =====
-- Exactly which changes of a new request are accepted.
use consoleme.Base.{
  String, ◌≡◌, refl, ◌↔◌, Bool, true, false, not, ◌&&◌, ◌||◌, Option, none, some, List, [], ◌∷◌,
  arith, any, elem, str_eq, eq_iff, Bool-cases, inl, inr, if◌then◌else◌,
}
use consoleme.Json.{Json, truthy, json_eq}
use consoleme.Policies.{invalid_characters_in_text, invalid_characters_in_document}
use consoleme.Models.{
  Action, attach, detach, PolicyModel, InlineChange, ManagedResourceChange, AwsPrincipal,
}
use consoleme.Requests.World.{Result, ok, raised}
use consoleme.Requests.Steps.{same_text}
use consoleme.Requests.Validate.{
  Checked, refuse_if, is_attach, is_detach, scan_inline, check_seen, is_unclean, check_inline,
  validate_inline_policy_change, name_in, check_boundary, validate_permissions_boundary_change,
  check_managed, validate_managed_policy_change, check_managed_resource,
  validate_managed_policy_resource_change,
}

-- The function returned.
abbrev pub passes : {A : Type 0} → Result A → Bool
passes (ok a) = true
passes (raised err) = false

-- An inline policy of the role has the name of the change; and its document too.
abbrev pub is_named : InlineChange → String × Json → Bool
is_named ch (name, existing) = same_text ch.policy_name (some name)

abbrev pub is_same : InlineChange → Json → String × Json → Bool
is_same ch doc (name, existing) = json_eq doc existing && same_text ch.policy_name (some name)

passes-check_seen :
    (ch : InlineChange) (doc : Json) (existing : List (String × Json)) (seen : Bool)
    → passes (check_seen ch (scan_inline ch doc existing seen)) ≡ (
        if ch.new
        then not (any (is_named ch) existing) && not (is_detach ch.action && not seen)
        else not (is_attach ch.action && any (is_same ch doc) existing)
          && ((seen || any (is_named ch) existing)
              || (not (is_attach ch.action) && not (is_detach ch.action))))
unfolding check_seen scan_inline
passes-check_seen ch doc [] seen = ground arith
passes-check_seen ch doc ((name, d) ∷ rest) seen =
    ground (arith, passes-check_seen ch doc rest (seen || same_text ch.policy_name (some name)))

-- An inline policy of a request is accepted exactly if it has a document and no character in it is refused, and: a
-- new one is not to be detached and no inline policy of the role has its name; one that is not new is attached
-- only where an inline policy has its name and none has its name and document, detached only where one has its
-- name, and with no action always accepted.
pub passes-validate_inline_policy_change :
    (ch : InlineChange) (p : PolicyModel) (role : AwsPrincipal)
    → ch.policy ≡ some p
    → passes (validate_inline_policy_change ch role) ≡ (
        not (is_unclean p || invalid_characters_in_text ch.policy_name)
        && (if ch.new
            then not (is_detach ch.action) && not (any (is_named ch) role.inline_policies)
            else not
                (is_attach ch.action && any (is_same ch p.policy_document) role.inline_policies)
              && (any (is_named ch) role.inline_policies
                  || (not (is_attach ch.action) && not (is_detach ch.action)))))
unfolding validate_inline_policy_change check_inline
passes-validate_inline_policy_change ch p role h =
    rw h (ground (arith, passes-check_seen ch p.policy_document role.inline_policies false))

passes-refuse_if :
    (b : Bool) (message : String) (rest : Checked) {P : Type 0}
    → (passes rest ≡ true) ↔ P
    → (passes (refuse_if b message rest) ≡ true) ↔ ((b ≡ false) × P)
passes-refuse_if true message rest h = (λ k. cc, λ k. cc)
passes-refuse_if false message rest h = (λ k. (refl, h.0 k), λ k. h.1 k.1)

passes-check_boundary :
    (arn : String) (action : Action) (boundary : Option String)
    → (passes (check_boundary arn action boundary) ≡ true)
      ↔ (boundary ≡ elim action [ attach ↦ none | detach ↦ some arn ])
unfolding check_boundary
passes-check_boundary arn attach none = (λ h. refl, λ h. refl)
passes-check_boundary arn attach (some b) = (λ h. cc, λ h. cc)
passes-check_boundary arn detach none = (λ h. cc, λ h. cc)
passes-check_boundary arn detach (some b) = elim (Bool-cases (str_eq arn b)) [
  | inl same ↦ rw same (λ h. cc ((eq_iff arn b).0 same), λ h. refl)
  | inr other ↦ rw other (λ h. cc, λ h. cc ((eq_iff arn b).1 (cc h)))
]

-- A change of the permissions boundary is accepted exactly if no character of the policy's name is refused, and: it
-- is attached to a role without one, or detached from the role that has it.
passes-validate_permissions_boundary_change :
    (arn : String) (action : Action) (role : AwsPrincipal)
    → (passes (validate_permissions_boundary_change arn action role) ≡ true) ↔ (
        (invalid_characters_in_text (some (name_in arn)) ≡ false)
        × (role.permissions_boundary ≡ elim action [ attach ↦ none | detach ↦ some arn ]))
unfolding validate_permissions_boundary_change
passes-validate_permissions_boundary_change arn action role =
    passes-refuse_if (invalid_characters_in_text (some (name_in arn))) _
      (check_boundary arn action role.permissions_boundary)
      (passes-check_boundary arn action role.permissions_boundary)

-- A managed policy is accepted exactly if no character of its name is refused, and it is attached where it is not yet
-- attached, or detached where it is.
passes-validate_managed_policy_change :
    (arn : String) (action : Action) (role : AwsPrincipal)
    → passes (validate_managed_policy_change arn action role) ≡ (
        not (invalid_characters_in_text (some (name_in arn))) && elim action [
          | attach ↦ not (elem arn role.managed_policies)
          | detach ↦ elem arn role.managed_policies
        ])
unfolding validate_managed_policy_change check_managed
passes-validate_managed_policy_change arn attach role = ground arith
passes-validate_managed_policy_change arn detach role = ground arith

-- A change of a managed policy itself is accepted exactly if no character of its name or among the keys of its
-- document is refused, and: a new one is not there yet; one that is not new is there, with another document.
passes-validate_managed_policy_resource_change :
    (m : ManagedResourceChange) (p : PolicyModel) (name : String) (existing : Json)
    → m.policy ≡ some p
    → passes (validate_managed_policy_resource_change m name existing) ≡ (
        not (
          invalid_characters_in_text (some name)
          || invalid_characters_in_document p.policy_document)
        && (if m.new
            then not (truthy existing)
            else truthy existing && not (json_eq p.policy_document existing)))
unfolding validate_managed_policy_resource_change check_managed_resource
passes-validate_managed_policy_resource_change m p name existing h = rw h (ground arith)
