-- ===== src/Requests/Flow.antt =====
-- How the handlers of a request run: the request and the work are passed along, and what was written
-- before an exception stays written.
use consoleme.Base.{String, Bool, true, false, Option, none, some, List, [], ◌∷◌, fstring}
use consoleme.Models.{Principal, aws_resource, honeybee, Change, Request}
use consoleme.Requests.World.{
  Call, write_policy_request, Failure, Env, Work, Error, attribute_error, external, Result, ok,
  raised, succeed, fail, perform,
}

pub record State : Type 0 where
  pub request : Request
  pub work : Work

abbrev pub M : Type 0 → Type 0
M A = State → Result A × State

module _ {A : Type 0} where
  unfoldable pub pure : A → M A
  pure a s = (ok a, s)

  unfoldable pub raise : Error → M A
  raise err s = (raised err, s)

  unfoldable pub gets : (State → A) → M A
  gets f s = (ok (f s), s)

  unfoldable pub lift : Result A → M A
  lift r s = (r, s)

  -- A function that changes the list of changes in place.
  unfoldable pub on_changes : (Request → Work → Result A × List Change × Work) → M A
  on_changes f s =
      let (r, cs, w) = f s.request s.work in
      (r, record { request = record s.request { changes = cs }; work = w })

module _ {A B : Type 0} where
  abbrev pub continue : Result A × State → (A → M B) → Result B × State
  continue (ok a, s) f = f a s
  continue (raised err, s) f = (raised err, s)

  infixl 5 ◌>>=◌ ◌>>◌
  unfoldable pub ◌>>=◌ : M A → (A → M B) → M B
  ◌>>=◌ m f s = continue (m s) f

  abbrev pub ◌>>◌ : M A → M B → M B
  m >> k = m >>= λ _. k

unfoldable pub edit : (Request → Request) → M (Unit {0})
edit f s = (ok tt, record s { request = f s.request })

unfoldable pub note : (Work → Work) → M (Unit {0})
note f s = (ok tt, record s { work = f s.work })

unfoldable pub called : State → Option Failure × Work → Result (Unit {0}) × State
called s (none, w) = (ok tt, record s { work = w })
called s (some f, w) = (raised (external f), record s { work = w })

-- A call that is in no `try`, of the request as it is now.
unfoldable pub call : Env → (Request → Call) → M (Unit {0})
unfolding called
call e c s = called s (perform e (c s.request) s.work)

-- `extended_request.principal.principal_arn`
unfoldable pub arn_of : Principal → Result String
arn_of (aws_resource arn) = ok arn
arn_of (honeybee _ _ _) = raised attribute_error

unfoldable pub recorded :
    (success_message error_message : String) → Bool → Option Failure × Work → Work
recorded success_message error_message visible (none, w) = succeed success_message visible w
recorded success_message error_message visible (some f, w) =
    fail (fstring (error_message ∷ ": " ∷ f.message ∷ [])) w

-- `_update_dynamo_with_change`
unfoldable pub update_dynamo_with_change :
    Env → (success_message error_message : String) → (visible : Bool) → M (Unit {0})
unfolding recorded
update_dynamo_with_change e success_message error_message visible s = (
  ok tt,
  record s {
    work =
        recorded success_message error_message visible
          (perform e (write_policy_request s.request) s.work);
  },
)

unfoldable pub check : Bool → Error → M (Unit {0})
check true err s = (ok tt, s)
check false err s = (raised err, s)
