-- ===== src/Requests/Keeps.antt =====
-- What a handler does to the state, whether or not it raises: one rule for each way to build a handler,
-- for any relation of the states before and after that is reflexive and transitive.
use consoleme.Base.{Bool, true, false, if◌then◌else◌}
use consoleme.Requests.World.{Error, Result, ok, raised}
use consoleme.Requests.Flow.{State, M, pure, raise, gets, lift, ◌>>=◌, continue, check}

pub record Laws (R : State → State → Type 0) : Type 0 where
  pub same : (s : State) → R s s
  pub chain : (s t u : State) → R s t → R t u → R s u

pub record Keeps (R : State → State → Type 0) {A : Type 0} (m : M A) : Type 0 where
  pub keeps : (s : State) → R s (m s).1

module _ (R : State → State → Type 0) (laws : Laws R) where
  module _ {A : Type 0} where
    pub Keeps-pure : (a : A) → Keeps R (pure a)
    unfolding pure
    Keeps-pure a = record { keeps = laws.same }

    pub Keeps-raise : (err : Error) → Keeps R (raise {A = A} err)
    unfolding raise
    Keeps-raise err = record { keeps = laws.same }

    pub Keeps-gets : (f : State → A) → Keeps R (gets f)
    unfolding gets
    Keeps-gets f = record { keeps = laws.same }

    pub Keeps-lift : (r : Result A) → Keeps R (lift r)
    unfolding lift
    Keeps-lift r = record { keeps = laws.same }

    pub Keeps-if : (b : Bool) (m k : M A) → Keeps R m → Keeps R k → Keeps R (if b then m else k)
    Keeps-if true m k hm hk = hm
    Keeps-if false m k hm hk = hk

  pub Keeps-check : (b : Bool) (err : Error) → Keeps R (check b err)
  unfolding check
  Keeps-check true err = record { keeps = laws.same }
  Keeps-check false err = record { keeps = laws.same }

  continue-related :
      {A B : Type 0} (s : State) (p : Result A × State) (f : A → M B)
      → R s p.1
      → ((a : A) → Keeps R (f a))
      → R s (continue p f).1
  continue-related s (ok a, t) f h k = laws.chain s t _ h ((k a).keeps t)
  continue-related s (raised err, t) f h k = h

  pub Keeps->>= :
      {A B : Type 0} (m : M A) (f : A → M B)
      → Keeps R m
      → ((a : A) → Keeps R (f a))
      → Keeps R (m >>= f)
  unfolding ◌>>=◌
  Keeps->>= m f h k = record { keeps = λ s. continue-related s (m s) f (h.keeps s) k }

pub ruleset flow_rules =
    (Keeps-pure, Keeps-raise, Keeps-gets, Keeps-lift, Keeps-if, Keeps-check, Keeps->>=)
