-- ===== src/Requests/Tags/Policies.antt =====
-- What the answer of apply_managed_policy_resource_tag_change means, whose client is made outside the `try`.
use consoleme.Base.{
  ◌+◌, String, ◌≡◌, refl, ◌∙◌, Bool, true, false, Option, none, some, arith, if◌then◌else◌,
}
use consoleme.Models.{TagAction, TagChange}
use consoleme.Requests.World.{Call, Failure, Env, Work, fail, Result, ok, raised, perform, escape}
use consoleme.Requests.Acts.{
  Succeeded, Succeeded-trans, IsBody-perform, body_rules, Judged, caught-Judged,
}
use consoleme.Requests.Steps.{with_defaults}
use consoleme.Requests.Tags.{
  put_policy_tag, delete_policy_tag, tag_managed_policy, apply_managed_policy_resource_tag_change,
}

-- As Judged, or an exception is raised, and no error is counted.
abbrev pub Answered : Env → Work → Result (TagChange × Bool) × Work → Type 0
Answered e w (ok (t, true), w') =
    Succeeded e w.calls w'.calls × (w'.response.errors ≡ w.response.errors)
Answered e w (ok (t, false), w') = w'.response.errors ≡ w.response.errors + 1
Answered e w (raised err, w') = w'.response.errors ≡ w.response.errors

abbrev answer : TagChange × Bool × Work → Result (TagChange × Bool) × Work
answer (t, done, w) = (ok (t, done), w)

module _ (e : Env) where
  if-Answered :
      (w : Work) (b : Bool) (x y : Result (TagChange × Bool) × Work)
      → Answered e w x
      → Answered e w y
      → Answered e w (if b then x else y)
  if-Answered w true x y h k = h
  if-Answered w false x y h k = k

  fail-Answered : (t : TagChange) (s : String) (w : Work) → Answered e w (ok (t, false), fail s w)
  unfolding fail
  fail-Answered t s w = omega arith

  Judged-Answered :
      (t : TagChange) (w : Work) (p : Bool × Work) → Judged e w p → Answered e w (ok (t, p.0), p.1)
  Judged-Answered t w (true, v) h = h
  Judged-Answered t w (false, v) h = h

  Answered-after :
      (w v : Work) (p : Result (TagChange × Bool) × Work)
      → Succeeded e w.calls v.calls
      → v.response.errors ≡ w.response.errors
      → Answered e v p
      → Answered e w p
  Answered-after w v (ok (t, true), u) s h (r, k) = (Succeeded-trans s r, k ∙ h)
  Answered-after w v (ok (t, false), u) s h k = omega (arith, h, k)
  Answered-after w v (raised err, u) s h k = k ∙ h

  escape-Answered :
      (w : Work) (p : Option Failure × Work) (k : Work → Result (TagChange × Bool) × Work)
      → (p.0 ≡ none → Succeeded e w.calls p.1.calls)
      → p.1.response.errors ≡ w.response.errors
      → ((v : Work) → Answered e v (k v))
      → Answered e w (escape p k)
  escape-Answered w (some f, v) k s h r = h
  escape-Answered w (none, v) k s h r = Answered-after w v (k v) (s refl) h (r v)

  connected-Answered :
      (w : Work) (c : Call) (k : Work → Result (TagChange × Bool) × Work)
      → ((v : Work) → Answered e v (k v))
      → Answered e w (escape (perform e c w) k)
  connected-Answered w c k r =
      let body = IsBody-perform e c in
      escape-Answered w (perform e c w) k (body.completes w) (body.quiet w) r

  module _ (arn : String) where
    put_policy_tag-Judged : (t : TagChange) (w : Work) → Judged e w (put_policy_tag e arn t w)
    unfolding put_policy_tag
    put_policy_tag-Judged t w = caught-Judged e _ _ w (search body_rules depth 12)

    delete_policy_tag-Judged : (t : TagChange) (w : Work) → Judged e w (delete_policy_tag e arn t w)
    unfolding delete_policy_tag
    delete_policy_tag-Judged t w = caught-Judged e _ _ w (search body_rules depth 12)

    tag_managed_policy-Answered :
        (t : TagChange) (x : TagAction) (w : Work)
        → Answered e w (answer (tag_managed_policy e arn t x w))
    unfolding tag_managed_policy
    tag_managed_policy-Answered t TagAction.delete w =
        Judged-Answered t w _ (delete_policy_tag-Judged t w)
    tag_managed_policy-Answered t TagAction.create w =
        Judged-Answered (with_defaults t) w _ (put_policy_tag-Judged (with_defaults t) w)
    tag_managed_policy-Answered t TagAction.update w =
        Judged-Answered (with_defaults t) w _ (put_policy_tag-Judged (with_defaults t) w)

    -- If a tag of a managed policy is reported as changed, every call that it took returned, and no error is
    -- counted. If it is reported as not changed, one error is counted. If an exception is raised, none is.
    pub apply_managed_policy_resource_tag_change-Answered :
        (t : TagChange) (w : Work)
        → Answered e w (apply_managed_policy_resource_tag_change e arn t w)
    unfolding apply_managed_policy_resource_tag_change
    apply_managed_policy_resource_tag_change-Answered t w =
        search (if-Answered, fail-Answered, connected-Answered, tag_managed_policy-Answered) depth
          12
