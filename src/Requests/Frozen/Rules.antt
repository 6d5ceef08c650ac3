-- ===== src/Requests/Frozen/Rules.antt =====
-- What the steps of a handler do to the changes of a request, for any relation of the changes before and
-- after that is reflexive and transitive.
use consoleme.Base.{String, ◌≡◌, refl, Bool, Option, none, some, List}
use consoleme.Models.{RequestStatus, Change, Request}
use consoleme.Requests.World.{Call, Failure, Env, Work, Result}
use consoleme.Requests.Flow.{State, on_changes, edit, note, called, call, update_dynamo_with_change}
use consoleme.Requests.Keeps.{Laws, Keeps, flow_rules, Keeps->>=}
use consoleme.Requests.Complete.{set_status, set_reviewer}

-- A relation of the changes before and after.
pub record Order (C : List Change → List Change → Type 0) : Type 0 where
  pub same : (cs : List Change) → C cs cs
  pub chain : (xs ys zs : List Change) → C xs ys → C ys zs → C xs zs

abbrev pub Of : (List Change → List Change → Type 0) → State → State → Type 0
Of C s t = C s.request.changes t.request.changes

pub Of-Laws : (C : List Change → List Change → Type 0) → Order C → Laws (Of C)
Of-Laws C o = record {
  same = λ s. o.same s.request.changes;
  chain = λ s t u. o.chain s.request.changes t.request.changes u.request.changes;
}

module _ (C : List Change → List Change → Type 0) (o : Order C) where
  pub Keeps-edit :
      (f : Request → Request) → ((r : Request) → (f r).changes ≡ r.changes) → Keeps (Of C) (edit f)
  unfolding edit
  Keeps-edit f h = record { keeps = λ s. rw h (o.same s.request.changes) }

  pub Keeps-note : (f : Work → Work) → Keeps (Of C) (note f)
  unfolding note
  Keeps-note f = record { keeps = λ s. o.same s.request.changes }

  pub called-same : (s : State) (p : Option Failure × Work) → (called s p).1.request ≡ s.request
  unfolding called
  called-same s (none, w) = refl
  called-same s (some f, w) = refl

  pub Keeps-call : (e : Env) (c : Request → Call) → Keeps (Of C) (call e c)
  unfolding call
  Keeps-call e c = record { keeps = λ s. rw called-same (o.same s.request.changes) }

  pub Keeps-dynamo :
      (e : Env) (a b : String) (v : Bool) → Keeps (Of C) (update_dynamo_with_change e a b v)
  unfolding update_dynamo_with_change
  Keeps-dynamo e a b v = record { keeps = λ s. o.same s.request.changes }

  pub Keeps-on_changes :
      {A : Type 0} (f : Request → Work → Result A × List Change × Work)
      → ((r : Request) (w : Work) → C r.changes (f r w).1)
      → Keeps (Of C) (on_changes f)
  unfolding on_changes
  Keeps-on_changes f h = record { keeps = λ s. h s.request s.work }

  pub Keeps-set_status : (status : RequestStatus) → Keeps (Of C) (edit (set_status status))
  unfolding set_status
  Keeps-set_status status = Keeps-edit _ (λ r. refl)

  pub Keeps-set_reviewer : (user : String) → Keeps (Of C) (edit (set_reviewer user))
  unfolding set_reviewer
  Keeps-set_reviewer user = Keeps-edit _ (λ r. refl)

pub ruleset step_rules = (
  flow_rules, Of-Laws, Keeps-note, Keeps-call, Keeps-dynamo, Keeps-set_status, Keeps-set_reviewer,
)
