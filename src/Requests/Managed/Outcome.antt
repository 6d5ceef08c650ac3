-- ===== src/Requests/Managed/Outcome.antt =====
-- What the answer of apply_managed_policy_resource_change means.
use consoleme.Base.{
  ◌+◌, String, ◌≡◌, refl, inl, inr, Bool, true, false, Bool-cases, Option, none, some, List, ◌∷◌,
  arith, Option-cases, ◌∙◌, str_eq, if◌then◌else◌,
}
use consoleme.Json.{Json}
use consoleme.Models.{aws_resource, PolicyModel, ManagedResourceChange, Change, Arn}
use consoleme.Requests.World.{
  create_managed_policy, update_managed_policy, Call, Failure, Env, Work, fail, succeed, Result, ok,
  raised, Act, perform, report, break_off, ◌>>◌, caught,
}
use consoleme.Requests.Acts.{IsBody, body_rules}
use consoleme.Requests.Steps.{with_document}
use consoleme.Requests.Role.{principal_name}
use consoleme.Requests.Old.{populate_managed_from, populate_old_managed_policies}
use consoleme.Requests.Managed.{
  policy_path, create_policy, update_policy, put_managed_policy, change_managed_policy,
  apply_managed_policy_resource_change,
}

-- The newest call was made with the document of this policy, and it returned.
pub data Sent (e : Env) (call : Json → Call) (p : Option PolicyModel) : List Call → Type 0 where
  sent :
      {cs : List Call} {q : PolicyModel}
      → p ≡ some q
      → e.outcome cs (call q.policy_document) ≡ none
      → Sent e call p (call q.policy_document ∷ cs)

-- The call that writes a policy: a new one is created, another gets a new version.
abbrev pub write : Env → (arn : String) → Arn → ManagedResourceChange → Json → Call
write e arn a m doc =
    if m.new
    then create_managed_policy (principal_name a) (policy_path e arn a m) arn doc
    else update_managed_policy (principal_name a) arn doc

-- The policy was written, and no error is counted; it was not, and one is; or an exception was raised, and
-- none is counted.
abbrev pub Put :
    Env → (Json → Call) → Option PolicyModel → Work → Result Bool × List Change × Work → Type 0
Put e call p w (ok true, cs, w') = Sent e call p w'.calls × (w'.response.errors ≡ w.response.errors)
Put e call p w (ok false, cs, w') = w'.response.errors ≡ w.response.errors + 1
Put e call p w (raised err, cs, w') = w'.response.errors ≡ w.response.errors

abbrev answer : List Change → Bool × Work → Result Bool × List Change × Work
answer cs (done, w) = (ok done, cs, w)

module _ (e : Env) where
  module _ (call : Json → Call) where
    with_document-Sent :
        (p : Option PolicyModel) (w : Work)
        → (with_document p (λ doc. perform e (call doc)) w).0 ≡ none
        → Sent e call p (with_document p (λ doc. perform e (call doc)) w).1.calls
    unfolding with_document break_off perform
    with_document-Sent none w h = cc h
    with_document-Sent (some q) w h = sent refl h

    report-Sent :
        (p : Option PolicyModel) (m : Act) (s : String) (w : Work)
        → ((m w).0 ≡ none → Sent e call p (m w).1.calls)
        → ((m >> report s) w).0 ≡ none
        → Sent e call p ((m >> report s) w).1.calls
    unfolding report succeed ◌>>◌
    report-Sent p m s w done h = elim (Option-cases (m w).0) [
      | inl r ↦ rw (r, ◌>>◌) (done r)
      | inr (f, r) ↦ cc (rw (r, ◌>>◌) at h)
    ]

    caught-Put :
        (p : Option PolicyModel) (m : Act) (t : String) (cs : List Change) (w : Work)
        → IsBody e m
        → ((m w).0 ≡ none → Sent e call p (m w).1.calls)
        → Put e call p w (answer cs (caught m t w))
    unfolding caught fail
    caught-Put p m t cs w h done = elim (Option-cases (m w).0) [
      | inl r ↦ rw (r, caught) (done r, h.quiet w)
      | inr (f, r) ↦ rw (r, caught) (omega (arith, h.quiet w))
    ]

    with_document-Put :
        (p : Option PolicyModel) (s t : String) (cs : List Change) (w : Work)
        → Put e call p w
            (answer cs (caught (do with_document p (λ doc. perform e (call doc)); report s) t w))
    with_document-Put p s t cs w =
        caught-Put p _ t cs w (search body_rules) (report-Sent p _ s w (with_document-Sent p w))

  if-Put :
      (call : Json → Call) (p : Option PolicyModel) (w : Work) (b : Bool)
      (x y : Result Bool × List Change × Work)
      → Put e call p w x
      → Put e call p w y
      → Put e call p w (if b then x else y)
  if-Put call p w true x y h k = h
  if-Put call p w false x y h k = k

  module _ (arn : String) (a : Arn) (m : ManagedResourceChange) where
    write_policy-Put :
        (cs : List Change) (w : Work)
        → Put e
            (write e arn a m)
            m.policy
            w
            (answer cs (if m.new then create_policy e arn a m w else update_policy e arn a m w))
    unfolding create_policy update_policy
    write_policy-Put cs w = elim (Bool-cases m.new) [
      | inl r ↦ rw r (with_document-Put _ m.policy _ _ cs w)
      | inr r ↦ rw r (with_document-Put _ m.policy _ _ cs w)
    ]

    moved :
        (w v : Work) (r : Result Bool × List Change × Work)
        → v.response.errors ≡ w.response.errors
        → Put e (write e arn a m) m.policy v r
        → Put e (write e arn a m) m.policy w r
    moved w v (ok true, cs, u) h (s, k) = (s, k ∙ h)
    moved w v (ok false, cs, u) h k = omega (arith, h, k)
    moved w v (raised err, cs, u) h k = k ∙ h

    put_managed_policy-Put :
        (w : Work) (r : Result (Unit {0}) × List Change × Work)
        → r.2.response.errors ≡ w.response.errors
        → Put e (write e arn a m) m.policy w (put_managed_policy e arn a m r)
    unfolding put_managed_policy
    put_managed_policy-Put w (raised err, cs, v) h = h
    put_managed_policy-Put w (ok _, cs, v) h = moved w v (answer cs _) h (write_policy-Put cs v)

  populate_managed_from-quiet :
      (arn : String) (cs : List Change) (w : Work) (q : Option Failure × Work)
      → q.1.response.errors ≡ w.response.errors
      → (populate_managed_from e arn cs q).2.response.errors ≡ w.response.errors
  unfolding populate_managed_from
  populate_managed_from-quiet arn cs w (none, v) h = h
  populate_managed_from-quiet arn cs w (some f, v) h =
      elim (Bool-cases (str_eq f.code "NoSuchEntity")) [ inl r ↦ rw r h | inr r ↦ rw r h ]

  if-quiet :
      (w : Work) (b : Bool) (x y : Result (Unit {0}) × List Change × Work)
      → x.2.response.errors ≡ w.response.errors
      → y.2.response.errors ≡ w.response.errors
      → (if b then x else y).2.response.errors ≡ w.response.errors
  if-quiet w true x y h k = h
  if-quiet w false x y h k = k

  populate_old_managed_policies-quiet :
      (arn : String) (cs : List Change) (w : Work)
      → (populate_old_managed_policies e (aws_resource arn) cs w).2.response.errors
        ≡ w.response.errors
  unfolding populate_old_managed_policies perform
  populate_old_managed_policies-quiet arn cs w =
      if-quiet w _ _ _ (populate_managed_from-quiet arn cs w _ refl) refl

  fail-Put :
      (call : Json → Call) (p : Option PolicyModel) (s : String) (cs : List Change) (w : Work)
      → Put e call p w (ok false, cs, fail s w)
  unfolding fail
  fail-Put call p s cs w = omega arith

  -- If a managed policy is reported as written, the newest call is the one that writes the change's
  -- document, as a new policy or a new version as the change says, that call returned, and no error is
  -- counted. If it is reported as not written, one error is counted. If an exception is raised, none is.
  pub apply_managed_policy_resource_change-Put :
      (arn : String) (m : ManagedResourceChange) (cs : List Change) (w : Work)
      → Put e
          (write e arn (e.lookups.parse_arn arn) m)
          m.policy
          w
          (apply_managed_policy_resource_change e (aws_resource arn) m cs w)
  unfolding apply_managed_policy_resource_change change_managed_policy
  apply_managed_policy_resource_change-Put arn m cs w =
      search (if-Put, fail-Put, put_managed_policy-Put, populate_old_managed_policies-quiet) depth
        12
