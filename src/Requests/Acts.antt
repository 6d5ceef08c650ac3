-- ===== src/Requests/Acts.antt =====
-- What holds of every body of a `try` in lib/v2/requests.py: it counts no errors, and if it runs to its
-- end, every call in it returned. One rule for each way to build a body.
use consoleme.Base.{
  ◌+◌, String, ◌≡◌, refl, inl, inr, Bool, true, false, Option, none, some, List, ◌∷◌, arith,
  Option-cases, ◌∙◌, if◌then◌else◌,
}
use consoleme.Json.{Json}
use consoleme.Models.{Arn, PolicyModel}
use consoleme.Requests.World.{
  Kind, Call, Failure, Env, Work, succeed, fail, Act, perform, ◌>>◌, pass, report, break_off, when,
  caught,
}
use consoleme.Requests.Steps.{by_kind, with_document}

-- The calls from `before` to `after` all returned.
pub data Succeeded (e : Env) (before : List Call) : List Call → Type 0 where
  here : Succeeded e before before
  more :
      {cs : List Call} {c : Call}
      → Succeeded e before cs
      → e.outcome cs c ≡ none
      → Succeeded e before (c ∷ cs)

pub Succeeded-trans :
    {e : Env} {a b c : List Call} → Succeeded e a b → Succeeded e b c → Succeeded e a c
Succeeded-trans s here = s
Succeeded-trans s (more t h) = more (Succeeded-trans s t) h

pub record IsBody (e : Env) (m : Act) : Type 0 where
  pub quiet : (w : Work) → (m w).1.response.errors ≡ w.response.errors
  pub completes : (w : Work) → (m w).0 ≡ none → Succeeded e w.calls (m w).1.calls

module _ (e : Env) where
  pub IsBody-pass : IsBody e pass
  unfolding pass
  IsBody-pass = record { quiet = λ w. refl; completes = λ w h. here }

  pub IsBody-report : (s : String) → IsBody e (report s)
  unfolding report succeed
  IsBody-report s = record { quiet = λ w. refl; completes = λ w h. here }

  pub IsBody-break_off : (f : Failure) → IsBody e (break_off f)
  unfolding break_off
  IsBody-break_off f = record { quiet = λ w. refl; completes = λ w h. cc }

  pub IsBody-perform : (c : Call) → IsBody e (perform e c)
  unfolding perform
  IsBody-perform c = record { quiet = λ w. refl; completes = λ w h. more here h }

  pub IsBody-when : (b : Bool) (m : Act) → IsBody e m → IsBody e (when b m)
  unfolding when
  IsBody-when true m h = h
  IsBody-when false m h = IsBody-pass

  pub IsBody-if : (b : Bool) (m k : Act) → IsBody e m → IsBody e k → IsBody e (if b then m else k)
  IsBody-if true m k hm hk = hm
  IsBody-if false m k hm hk = hk

  pub IsBody-by_kind : (a : Arn) (call : Kind → Call) → IsBody e (by_kind e a call)
  unfolding by_kind
  IsBody-by_kind a call = search (IsBody-if, IsBody-perform, IsBody-pass)

  pub IsBody-with_document :
      (p : Option PolicyModel) (k : Json → Act)
      → ((doc : Json) → IsBody e (k doc))
      → IsBody e (with_document p k)
  unfolding with_document
  IsBody-with_document none k h = IsBody-break_off _
  IsBody-with_document (some p) k h = h p.policy_document

  pub IsBody->> : (m k : Act) → IsBody e m → IsBody e k → IsBody e (m >> k)
  unfolding ◌>>◌
  IsBody->> m k hm hk = record {
    quiet = λ w. elim (Option-cases (m w).0) [
      | inl e ↦ rw (e, ◌>>◌) (hk.quiet (m w).1 ∙ hm.quiet w)
      | inr (f, e) ↦ rw (e, ◌>>◌) (hm.quiet w)
    ];
    completes = λ w h. elim (Option-cases (m w).0) [
      | inl e ↦
          rw (e, ◌>>◌)
            (Succeeded-trans (hm.completes w e) (hk.completes (m w).1 (rw (e, ◌>>◌) at h)))
      | inr (f, e) ↦ cc (rw (e, ◌>>◌) at h)
    ];
  }

pub ruleset body_rules = (
  IsBody-pass, IsBody-report, IsBody-perform, IsBody-when, IsBody-by_kind, IsBody-with_document,
  IsBody->>,
)

-- What a branch with a `try` does: it applied the change, every call returned and no error is counted; or
-- it did not, and one error is counted.
abbrev pub Judged : Env → Work → Bool × Work → Type 0
Judged e w (true, w') = Succeeded e w.calls w'.calls × (w'.response.errors ≡ w.response.errors)
Judged e w (false, w') = w'.response.errors ≡ w.response.errors + 1

pub caught-Judged :
    (e : Env) (m : Act) (s : String) (w : Work) → IsBody e m → Judged e w (caught m s w)
unfolding caught fail
caught-Judged e m s w h = elim (Option-cases (m w).0) [
  | inl r ↦ rw (r, caught) (h.completes w r, h.quiet w)
  | inr (f, r) ↦ rw (r, caught) (omega (arith, h.quiet w))
]
