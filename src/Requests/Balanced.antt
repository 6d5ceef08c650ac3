-- ===== src/Requests/Balanced.antt =====
-- The count of errors in a response and its results agree: what the helpers that apply a change do to them.
pub mod Roles
pub mod Resources
pub mod Policies
pub mod Commands
use consoleme.Base.{
  ℕ, ◌+◌, String, ◌≡◌, refl, ◌∙◌, inl, inr, Bool, true, false, Option, none, some, List, [], ◌∷◌,
  ◌++◌, fstring, arith, Option-cases, if◌then◌else◌,
}
use consoleme.Json.{Json}
use consoleme.Models.{Arn, ActionResult, PolicyModel, Verdict, success, error, Response}
use consoleme.Requests.World.{
  Kind, Call, Failure, Env, Work, succeed, fail, Act, perform, ◌>>◌, pass, report, break_off, when,
  caught,
}
use consoleme.Requests.Steps.{by_kind, with_document}

abbrev pub weight : Verdict → ℕ
weight success = 0
weight error = 1

-- How many results report an error.
abbrev pub errors_in : List ActionResult → ℕ
errors_in [] = 0
errors_in (r ∷ rs) = weight r.status + errors_in rs

errors_in-append : (xs ys : List ActionResult) → errors_in (xs ++ ys) ≡ errors_in xs + errors_in ys
errors_in-append [] ys = omega arith
errors_in-append (x ∷ xs) ys = omega (arith, errors_in-append xs ys)

-- As many errors are counted as are reported, from the one to the other.
abbrev pub Balanced : Work → Work → Type 0
Balanced w v =
    v.response.errors + errors_in w.response.action_results
    ≡ w.response.errors + errors_in v.response.action_results

pub Balanced-refl : (w : Work) → Balanced w w
Balanced-refl w = refl

pub Balanced-trans : (u v w : Work) → Balanced u v → Balanced v w → Balanced u w
Balanced-trans u v w h k = omega (arith, h, k)

pub succeed-Balanced : (s : String) (b : Bool) (w : Work) → Balanced w (succeed s b w)
unfolding succeed
succeed-Balanced s b w = omega (
  arith,
  errors_in-append w.response.action_results
      (record { status = success; message = s; visible = b } ∷ []),
)

pub fail-Balanced : (s : String) (w : Work) → Balanced w (fail s w)
unfolding fail
fail-Balanced s w = omega (
  arith,
  errors_in-append w.response.action_results
      (record { status = error; message = s; visible = true } ∷ []),
)

pub record IsTidy (m : Act) : Type 0 where
  pub tidy : (w : Work) → Balanced w (m w).1

pub IsTidy-pass : IsTidy pass
unfolding pass
IsTidy-pass = record { tidy = Balanced-refl }

pub IsTidy-report : (s : String) → IsTidy (report s)
unfolding report
IsTidy-report s = record { tidy = succeed-Balanced s true }

pub IsTidy-break_off : (f : Failure) → IsTidy (break_off f)
unfolding break_off
IsTidy-break_off f = record { tidy = Balanced-refl }

pub IsTidy-perform : (e : Env) (c : Call) → IsTidy (perform e c)
unfolding perform
IsTidy-perform e c = record { tidy = λ w. refl }

pub IsTidy-if : (b : Bool) (m k : Act) → IsTidy m → IsTidy k → IsTidy (if b then m else k)
IsTidy-if true m k hm hk = hm
IsTidy-if false m k hm hk = hk

pub IsTidy-when : (b : Bool) (m : Act) → IsTidy m → IsTidy (when b m)
unfolding when
IsTidy-when b m h = search (IsTidy-if, IsTidy-pass)

pub IsTidy-by_kind : (e : Env) (a : Arn) (call : Kind → Call) → IsTidy (by_kind e a call)
unfolding by_kind
IsTidy-by_kind e a call = search (IsTidy-if, IsTidy-perform, IsTidy-pass)

pub IsTidy-with_document :
    (p : Option PolicyModel) (k : Json → Act)
    → ((doc : Json) → IsTidy (k doc))
    → IsTidy (with_document p k)
unfolding with_document
IsTidy-with_document none k h = IsTidy-break_off _
IsTidy-with_document (some p) k h = h p.policy_document

then-Balanced :
    (w : Work) (p : Option Failure × Work) (k : Act)
    → Balanced w p.1
    → IsTidy k
    → Balanced w
        (elim p.0 as (λ _. Option Failure × Work) [ none ↦ k p.1 | some f ↦ (some f, p.1) ]).1
then-Balanced w (none, v) k h hk = Balanced-trans w v (k v).1 h (hk.tidy v)
then-Balanced w (some f, v) k h hk = h

pub IsTidy->> : (m k : Act) → IsTidy m → IsTidy k → IsTidy (m >> k)
unfolding ◌>>◌
IsTidy->> m k hm hk = record { tidy = λ w. then-Balanced w (m w) k (hm.tidy w) hk }

pub ruleset tidy_rules = (
  IsTidy-pass, IsTidy-report, IsTidy-break_off, IsTidy-perform, IsTidy-when, IsTidy-if,
  IsTidy-by_kind, IsTidy-with_document, IsTidy->>,
)

pub caught-Balanced : (m : Act) (s : String) (w : Work) → IsTidy m → Balanced w (caught m s w).1
unfolding caught
caught-Balanced m s w h = elim (Option-cases (m w).0) [
  | inl r ↦ rw (r, caught) (h.tidy w)
  | inr (f, r) ↦
      rw (r, caught)
        (Balanced-trans w (m w).1 (fail (fstring (s ∷ f.message ∷ [])) (m w).1) (h.tidy w)
          (fail-Balanced _ (m w).1))
]
