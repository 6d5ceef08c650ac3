-- ===== src/GroupRequests/Waits.antt =====
-- lib/dynamo.py, UserDynamoHandler.authenticate_user, and lib/password.py,
-- wait_after_authentication_failure: how long those who log in are made to wait.
use consoleme.Base.{
  String, ◌≡◌, refl, sym, ap, ◌⊎◌, inl, inr, Bool, true, false, not, Option, none, some, List, [],
  ℕ, ◌+◌, ◌*◌, zero, suc, ◌∷◌, Bool-cases, truthy_text, lookup, lookup-insert, eq_iff, if-holds,
  arith, if◌then◌else◌, str_eq,
}
use text.Mathlib.TextLemmas.{append_cancel_left}
use consoleme.GroupRequests.{User, Store}
use consoleme.GroupRequests.Login.{
  Login, AuthenticationResponse, Attempts, redis_key, num_password_failures, rejected, accepted,
  wait_after_authentication_failure, check_hash, check_user, authenticate_user,
}

-- A login: what is given, and the users at that time.
pub record LoginAttempt : Type 0 where
  pub username : String
  pub password : String
  pub store : Store

module _ (l : Login) where
  -- The logins, one after another.
  abbrev pub authenticate_each : List LoginAttempt → Attempts → List (String × Bool) × Attempts
  authenticate_each [] a = ([], a)
  authenticate_each (x ∷ xs) a =
      let now = authenticate_user l x.username x.password x.store a in
      let rest = authenticate_each xs now.1 in ((x.username, now.0.authenticated) ∷ rest.0, rest.1)

-- How many of the answers to a user are refusals.
abbrev pub refusals : (user : String) → List (String × Bool) → ℕ
refusals user [] = 0
refusals user ((u, b) ∷ rest) =
    let n = refusals user rest in if str_eq user u then (if b then n else suc n) else n

-- The seconds that a user has waited, newest first.
abbrev pub waits_of : (user : String) → List (String × ℕ) → List ℕ
waits_of user [] = []
waits_of user ((u, n) ∷ rest) = let ns = waits_of user rest in if str_eq user u then n ∷ ns else ns

-- The squares of `n` numbers from `from` on, the last of them first, before `ns`.
abbrev pub squares : (from n : ℕ) → List ℕ → List ℕ
squares from zero ns = ns
squares from (suc n) ns = squares (suc from) n (from * from ∷ ns)

key_eq : (u v : String) → str_eq (redis_key u) (redis_key v) ≡ str_eq u v
key_eq u v = ground (
  arith,
  eq_iff u v,
  eq_iff (redis_key u) (redis_key v),
  ap redis_key,
  append_cancel_left "wait_after_authentication_failure_" u v,
)

-- An answer is a refusal, or Redis is not asked.
abbrev Answered :
    (l : Login) (user : String) → Attempts → AuthenticationResponse × Attempts → Type 0
Answered l user a r = (r ≡ rejected l user a) ⊎ ((r.0.authenticated ≡ true) × (r.1 ≡ a))

module _ (l : Login) (user password : String) (a : Attempts) where
  check_hash-Answered :
      (u : User) (h : Option String) → Answered l user a (check_hash l user password u h a)
  check_hash-Answered u none = inl refl
  check_hash-Answered u (some hash) =
      let P = Answered l user a in
      if-holds P (not (truthy_text (some hash))) (rejected l user a) _ (inl refl) (
        if-holds P (not (l.checkpw password hash)) (rejected l user a) (accepted l u a) (inl refl)
          (inr (refl, refl)))

  check_user-Answered : (u : Option User) → Answered l user a (check_user l user password u a)
  check_user-Answered none = inl refl
  check_user-Answered (some u) = check_hash-Answered u u.password

  authenticate_user-Answered :
      (s : Store) → Answered l user a (authenticate_user l user password s a)
  unfolding authenticate_user
  authenticate_user-Answered s = check_user-Answered (lookup user s.users)

-- What a login of `v`, which is accepted or not, adds to a number and to a list of `u`.
abbrev counted : (is_own passed : Bool) → ℕ → ℕ
counted is_own passed n = if is_own then (if passed then n else suc n) else n

abbrev waited_too : (is_own passed : Bool) → ℕ → List ℕ → List ℕ
waited_too is_own passed n ns = if is_own then (if passed then ns else n * n ∷ ns) else ns

counted-add : (b c : Bool) (k n : ℕ) → k + counted b c n ≡ counted b c k + n
counted-add true true k n = refl
counted-add true false k n = omega arith
counted-add false c k n = refl

squares-counted :
    (b c : Bool) (k n : ℕ) (ns : List ℕ)
    → squares (counted b c n) k (waited_too b c n ns) ≡ squares n (counted b c k) ns
squares-counted true true k n ns = refl
squares-counted true false k n ns = refl
squares-counted false c k n ns = refl

module _ (l : Login) (user : String) where
  -- What a login leaves of the failures and the waits of a user.
  abbrev Stepped : (v : String) → Attempts → AuthenticationResponse × Attempts → Type 0
  Stepped v a r =
      (num_password_failures user r.1
        ≡ counted (str_eq user v) r.0.authenticated (num_password_failures user a))
      × (waits_of user r.1.waited
          ≡ waited_too (str_eq user v) r.0.authenticated (num_password_failures user a)
              (waits_of user a.waited))

  rejected-Stepped : (v : String) (a : Attempts) → Stepped v a (rejected l v a)
  unfolding wait_after_authentication_failure
  rejected-Stepped v a = elim (Bool-cases (str_eq user v)) [
    | inl own ↦
        let same = (eq_iff user v).0 own in
        rw
          (
            lookup-insert (redis_key user) (redis_key v) (num_password_failures v a + 1) a.failures,
            key_eq user v,
            own,
          )
          (
            rw same (omega arith),
            ap
                (λ (w : String).
                  num_password_failures w a * num_password_failures w a ∷ waits_of user a.waited)
                (sym same),
          )
    | inr other ↦
        rw
          (
            lookup-insert (redis_key user) (redis_key v) (num_password_failures v a + 1) a.failures,
            key_eq user v,
            other,
          )
          (refl, refl)
  ]

  kept :
      (b : Bool) (a : Attempts)
      → (num_password_failures user a ≡ counted b true (num_password_failures user a))
        × (waits_of user a.waited
            ≡ waited_too b true (num_password_failures user a) (waits_of user a.waited))
  kept true a = (refl, refl)
  kept false a = (refl, refl)

  Answered-Stepped :
      (v : String) (a : Attempts) (r : AuthenticationResponse × Attempts)
      → Answered l v a r
      → Stepped v a r
  Answered-Stepped v a r (inl refused) = rw refused (rejected-Stepped v a)
  Answered-Stepped v a r (inr (passed, same)) = rw (passed, same) (kept (str_eq user v) a)

  -- Whatever logins are made, and whoever else logs in between, the number of failures of a user grows by
  -- the refusals of that user, and each of them makes the user wait for the square of the number before it.
  -- An accepted login takes nothing back. No failure expires meanwhile.
  pub waits_of-authenticate_each :
      (xs : List LoginAttempt) (a : Attempts)
      → let r = authenticate_each l xs a in
        let n = num_password_failures user a in
        (num_password_failures user r.1 ≡ refusals user r.0 + n)
        × (waits_of user r.1.waited ≡ squares n (refusals user r.0) (waits_of user a.waited))
  waits_of-authenticate_each [] a = (omega arith, refl)
  waits_of-authenticate_each (x ∷ xs) a =
      let now = authenticate_user l x.username x.password x.store a in
      let step =
        Answered-Stepped x.username a now
          (authenticate_user-Answered l x.username x.password a x.store) in
      let rest = waits_of-authenticate_each xs now.1 in
      let k = refusals user (authenticate_each l xs now.1).0 in
      let n = num_password_failures user a in
      let own = str_eq user x.username in
      (
        rw (rest.0, step.0) (counted-add own now.0.authenticated k n),
        rw (rest.1, step.0, step.1)
            (squares-counted own now.0.authenticated k n (waits_of user a.waited)),
      )
