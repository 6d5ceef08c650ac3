-- ===== src/Requests/Steps.antt =====
-- The branches of `apply_changes_to_role`: one change is made to an IAM role or user.
use consoleme.Base.{
  String, Bool, true, false, not, ◌&&◌, Option, none, some, [], ◌∷◌, str_eq, truthy_text, fstring,
  shown, if◌then◌else◌,
}
use consoleme.Json.{Json}
use consoleme.Models.{
  Action, attach, detach, TagAction, PolicyModel, InlineChange, AssumeRoleChange, TagChange, Arn,
}
use consoleme.Requests.World.{
  Kind, role, user, Call, put_policy, delete_policy, put_boundary, delete_boundary, attach_policy,
  detach_policy, tag_principal, untag_principal, update_assume_role_policy, Env, Work, Act, perform,
  ◌>>◌, pass, report, attribute_failure, break_off, when, caught,
}

-- `if arn_parsed["resource"] == "role": … elif arn_parsed["resource"] == "user": …`
unfoldable pub by_kind : Env → Arn → (Kind → Call) → Act
by_kind e a call =
    if str_eq a.resource "role"
    then perform e (call role)
    else if str_eq a.resource "user"
    then perform e (call user)
    else pass

-- `change.policy.policy_document`, inside a `try`.
unfoldable pub with_document : Option PolicyModel → (Json → Act) → Act
with_document none k = break_off attribute_failure
with_document (some p) k = k p.policy_document

-- `original_value and not value`: the default of a tag's new key or value.
unfoldable pub or_original : Option String → Option String → Option String
or_original original current =
    if truthy_text original && not (truthy_text current) then original else current

unfoldable pub with_defaults : TagChange → TagChange
unfolding or_original
with_defaults t = record t {
  key = or_original t.original_key t.key;
  value = or_original t.original_value t.value;
}

unfoldable pub same_text : Option String → Option String → Bool
same_text none none = true
same_text (some s) (some t) = str_eq s t
same_text _ _ = false

-- `change.original_key and change.original_key != change.key`
unfoldable pub is_rename : TagChange → Bool
unfolding same_text
is_rename t = truthy_text t.original_key && not (same_text t.original_key t.key)

module _ (e : Env) (a : Arn) (name : String) where
  unfoldable pub apply_inline : InlineChange → Option Action → Work → Bool × Work
  apply_inline ch none w = (false, w)
  apply_inline ch (some attach) w =
      caught
        (do
          with_document ch.policy (λ doc. by_kind e a (λ k. put_policy k name ch.policy_name doc))
          report (
              fstring (
                "Successfully applied inline policy "
                ∷ shown ch.policy_name
                ∷ " to principal: "
                ∷ name
                ∷ [])))
        (fstring (
          "Error occurred applying inline policy "
          ∷ shown ch.policy_name
          ∷ " to principal: "
          ∷ name
          ∷ ": "
          ∷ []))
        w
  apply_inline ch (some detach) w =
      caught
        (do
          by_kind e a (λ k. delete_policy k name ch.policy_name)
          report (
              fstring (
                "Successfully deleted inline policy "
                ∷ shown ch.policy_name
                ∷ " from principal: "
                ∷ name
                ∷ [])))
        (fstring (
          "Error occurred deleting inline policy "
          ∷ shown ch.policy_name
          ∷ " from principal: "
          ∷ name
          ∷ " "
          ∷ []))
        w

  unfoldable pub apply_boundary : String → Action → Work → Bool × Work
  apply_boundary arn attach w =
      caught
        (do
          by_kind e a (λ k. put_boundary k name arn)
          report (
              fstring (
                "Successfully attached permissions boundary " ∷ arn ∷ " to principal: " ∷ name
                ∷ [])))
        (fstring (
          "Error occurred attaching permissions boundary " ∷ arn ∷ " to principal: " ∷ name ∷ ": "
          ∷ []))
        w
  apply_boundary arn detach w =
      caught
        (do
          by_kind e a (λ k. delete_boundary k name)
          report (
              fstring (
                "Successfully detached permissions boundary " ∷ arn ∷ " from principal: " ∷ name
                ∷ [])))
        (fstring (
          "Error occurred detaching permissions boundary " ∷ arn ∷ " from principal: " ∷ name ∷ ": "
          ∷ []))
        w

  unfoldable pub apply_managed : String → Action → Work → Bool × Work
  apply_managed arn attach w =
      caught
        (do
          by_kind e a (λ k. attach_policy k name arn)
          report (
              fstring
                ("Successfully attached managed policy " ∷ arn ∷ " to principal: " ∷ name ∷ [])))
        (fstring (
          "Error occurred attaching managed policy " ∷ arn ∷ " to principal: {principal_name}: "
          ∷ []))
        w
  apply_managed arn detach w =
      caught
        (do
          by_kind e a (λ k. detach_policy k name arn)
          report (
              fstring
                ("Successfully detached managed policy " ∷ arn ∷ " from principal: " ∷ name ∷ [])))
        (fstring (
          "Error occurred detaching managed policy " ∷ arn ∷ " from principal: " ∷ name ∷ ": "
          ∷ []))
        w

  unfoldable pub apply_assume_role : AssumeRoleChange → Work → Bool × Work
  apply_assume_role ch w =
      caught
        (do
          with_document ch.policy (λ doc. perform e (update_assume_role_policy name doc))
          report (fstring ("Successfully updated assume role policy for principal: " ∷ name ∷ [])))
        (fstring ("Error occurred updating assume role policy for principal: " ∷ name ∷ ": " ∷ []))
        w

  -- A tag that is created or updated; a new key replaces the old one.
  unfoldable pub put_tag : TagChange → Work → Bool × Work
  put_tag t w =
      caught
        (do
          by_kind e a (λ k. tag_principal k name t.key t.value)
          report (fstring ("Successfully created or updated tag for principal: " ∷ name ∷ []))
          when (is_rename t) (do
            by_kind e a (λ k. untag_principal k name t.original_key)
            report (
                fstring (
                  "Successfully renamed tag "
                  ∷ shown t.original_key
                  ∷ " to "
                  ∷ shown t.key
                  ∷ "."
                  ∷ []))))
        (fstring ("Error occurred updating tag for principal: " ∷ name ∷ ": " ∷ [])) w

  unfoldable pub delete_tag : TagChange → Work → Bool × Work
  delete_tag t w =
      caught
        (do
          by_kind e a (λ k. untag_principal k name t.key)
          report (fstring ("Successfully deleted tag for principal: " ∷ name ∷ [])))
        (fstring ("Error occurred deleting tag for principal: " ∷ name ∷ ": " ∷ [])) w

  unfoldable pub apply_tag : TagChange → TagAction → Work → TagChange × Bool × Work
  apply_tag t TagAction.delete w = let (done, w') = delete_tag t w in (t, done, w')
  apply_tag t _ w = let (done, w') = put_tag (with_defaults t) w in (with_defaults t, done, w')
