-- ===== src/Requests/Balanced/Roles.antt =====
-- `apply_changes_to_role` keeps the books.
use consoleme.Base.{
  String, Bool, true, false, Option, none, some, List, [], ◌∷◌, refl, if◌then◌else◌, if-holds,
}
use consoleme.Models.{
  Action, attach, detach, TagAction, Principal, aws_resource, honeybee, InlineChange,
  AssumeRoleChange, TagChange, Detail, inline_policy, managed_policy, permissions_boundary,
  assume_role_policy, resource_tag, Change, Request, Arn,
}
use consoleme.Requests.World.{Call, Env, Failure, Work, Result, ok, raised, perform}
use consoleme.Requests.Steps.{
  apply_inline, apply_boundary, apply_managed, apply_assume_role, put_tag, delete_tag, apply_tag,
}
use consoleme.Requests.Role.{
  apply_unsupported, settle, and_then, apply_detail, apply_one, apply_each, apply_connected,
  apply_changes_to_arn, apply_to_principal, apply_changes_to_role,
}
use consoleme.Requests.Balanced.{
  Balanced, Balanced-refl, Balanced-trans, fail-Balanced, IsTidy-perform, tidy_rules,
  caught-Balanced,
}

pub if-Balanced :
    {A : Type 0} (w : Work) (b : Bool) (x y : A × Work)
    → Balanced w x.1
    → Balanced w y.1
    → Balanced w (if b then x else y).1
if-Balanced w true x y h k = h
if-Balanced w false x y h k = k

pub if-Balanced-2 :
    {A B : Type 0} (w : Work) (b : Bool) (x y : A × B × Work)
    → Balanced w x.2
    → Balanced w y.2
    → Balanced w (if b then x else y).2
if-Balanced-2 w true x y h k = h
if-Balanced-2 w false x y h k = k

module _ (e : Env) (a : Arn) (name : String) where
  apply_inline-Balanced :
      (ch : InlineChange) (x : Option Action) (w : Work)
      → Balanced w (apply_inline e a name ch x w).1
  unfolding apply_inline
  apply_inline-Balanced ch none w = refl
  apply_inline-Balanced ch (some attach) w = caught-Balanced _ _ w (search tidy_rules)
  apply_inline-Balanced ch (some detach) w = caught-Balanced _ _ w (search tidy_rules)

  apply_boundary-Balanced :
      (arn : String) (x : Action) (w : Work) → Balanced w (apply_boundary e a name arn x w).1
  unfolding apply_boundary
  apply_boundary-Balanced arn attach w = caught-Balanced _ _ w (search tidy_rules)
  apply_boundary-Balanced arn detach w = caught-Balanced _ _ w (search tidy_rules)

  apply_managed-Balanced :
      (arn : String) (x : Action) (w : Work) → Balanced w (apply_managed e a name arn x w).1
  unfolding apply_managed
  apply_managed-Balanced arn attach w = caught-Balanced _ _ w (search tidy_rules)
  apply_managed-Balanced arn detach w = caught-Balanced _ _ w (search tidy_rules)

  apply_assume_role-Balanced :
      (ch : AssumeRoleChange) (w : Work) → Balanced w (apply_assume_role e a name ch w).1
  unfolding apply_assume_role
  apply_assume_role-Balanced ch w = caught-Balanced _ _ w (search tidy_rules)

  put_tag-Balanced : (t : TagChange) (w : Work) → Balanced w (put_tag e a name t w).1
  unfolding put_tag
  put_tag-Balanced t w = caught-Balanced _ _ w (search tidy_rules)

  delete_tag-Balanced : (t : TagChange) (w : Work) → Balanced w (delete_tag e a name t w).1
  unfolding delete_tag
  delete_tag-Balanced t w = caught-Balanced _ _ w (search tidy_rules)

  apply_tag-Balanced :
      (t : TagChange) (x : TagAction) (w : Work) → Balanced w (apply_tag e a name t x w).2
  unfolding apply_tag
  apply_tag-Balanced t TagAction.delete w = delete_tag-Balanced t w
  apply_tag-Balanced t TagAction.create w = put_tag-Balanced _ w
  apply_tag-Balanced t TagAction.update w = put_tag-Balanced _ w

module _ (e : Env) (auto : Bool) (a : Arn) (name : String) where
  apply_unsupported-Balanced : (c : Change) (w : Work) → Balanced w (apply_unsupported auto c w)
  unfolding apply_unsupported
  apply_unsupported-Balanced c w =
      if-holds (λ (x : Work). Balanced w x) _ _ _ (Balanced-refl w) (fail-Balanced _ w)

  apply_detail-Balanced :
      (c : Change) (d : Detail) (w : Work) → Balanced w (apply_detail e auto a name c d w).1
  unfolding apply_detail
  apply_detail-Balanced c (inline_policy ch) w = apply_inline-Balanced e a name ch ch.action w
  apply_detail-Balanced c (managed_policy arn x) w = apply_managed-Balanced e a name arn x w
  apply_detail-Balanced c (permissions_boundary arn x) w = apply_boundary-Balanced e a name arn x w
  apply_detail-Balanced c (assume_role_policy ch) w =
      search (if-Balanced, apply_assume_role-Balanced)
  apply_detail-Balanced c (resource_tag t) w = apply_tag-Balanced e a name t t.tag_action w
  apply_detail-Balanced c _ w = apply_unsupported-Balanced c w

  settle-Balanced :
      (c : Change) (w : Work) (p : Result (Detail × Bool) × Work)
      → Balanced w p.1
      → Balanced w (settle c p).1
  settle-Balanced c w (ok (d, true), v) h = h
  settle-Balanced c w (ok (d, false), v) h = h
  settle-Balanced c w (raised err, v) h = h

  apply_one-Balanced :
      (specific : Option String) (c : Change) (w : Work)
      → Balanced w (apply_one e auto a name specific c w).1
  unfolding apply_one
  apply_one-Balanced specific c w = search (if-Balanced, settle-Balanced, apply_detail-Balanced)

  and_then-Balanced :
      (c : Change) (cs : List Change) (w : Work) (p : Result Change × Work)
      (k : Work → Result (Unit {0}) × List Change × Work)
      → Balanced w p.1
      → ((v : Work) → Balanced v (k v).2)
      → Balanced w (and_then c cs p k).2
  unfolding and_then
  and_then-Balanced c cs w (ok d, v) k h hk = Balanced-trans w v (k v).2 h (hk v)
  and_then-Balanced c cs w (raised err, v) k h hk = h

  apply_each-Balanced :
      (specific : Option String) (cs : List Change) (w : Work)
      → Balanced w (apply_each e auto a name specific cs w).2
  unfolding apply_each
  apply_each-Balanced specific [] w = refl
  apply_each-Balanced specific (c ∷ cs) w =
      and_then-Balanced c cs w _ _ (apply_one-Balanced specific c w)
        (apply_each-Balanced specific cs)

module _ (e : Env) where
  apply_connected-Balanced :
      (auto : Bool) (a : Arn) (specific : Option String) (cs : List Change) (w : Work)
      (p : Option Failure × Work)
      → Balanced w p.1
      → Balanced w (apply_connected e auto a specific cs p).2
  unfolding apply_connected
  apply_connected-Balanced auto a specific cs w (some f, v) h = h
  apply_connected-Balanced auto a specific cs w (none, v) h =
      Balanced-trans w v (apply_each e auto a _ specific cs v).2 h
        (apply_each-Balanced e auto a _ specific cs v)

  pub perform-Balanced : (c : Call) (w : Work) → Balanced w (perform e c w).1
  perform-Balanced c w = (IsTidy-perform e c).tidy w

  apply_to_principal-Balanced :
      (p : Principal) (r : Request) (specific : Option String) (w : Work)
      → Balanced w (apply_to_principal e p r specific w).2
  unfolding apply_to_principal apply_changes_to_arn
  apply_to_principal-Balanced (aws_resource arn) r specific w =
      search (if-Balanced-2, apply_connected-Balanced, perform-Balanced, fail-Balanced)
  apply_to_principal-Balanced (honeybee _ _ _) r specific w = refl

  pub apply_changes_to_role-Balanced :
      (r : Request) (specific : Option String) (w : Work)
      → Balanced w (apply_changes_to_role e r specific w).2
  unfolding apply_changes_to_role
  apply_changes_to_role-Balanced r = apply_to_principal-Balanced r.principal r
