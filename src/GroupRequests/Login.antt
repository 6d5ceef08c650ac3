-- ===== src/GroupRequests/Login.antt =====
-- lib/dynamo.py, UserDynamoHandler.authenticate_user, and lib/password.py,
-- wait_after_authentication_failure: the login of users with passwords.
use consoleme.Base.{
  String, ◌≡◌, refl, sym, ap, ◌∙◌, inl, inr, Bool, true, false, not, Option, none, some, List, [],
  ◌∷◌, Bool-cases, truthy_text, lookup, lookup-insert, eq_refl, arith, ℕ, ◌+◌, ◌*◌, fstring, Dict,
  insert, decimal, if◌then◌else◌,
}
use Prim.Native.String
use consoleme.GroupRequests.{
  User, Store, of_user, Env, Outcome, done, raised, unable_to_write, put_user, hashed, create_user,
}

-- `bcrypt.checkpw`.
pub record Login : Type 0 where
  pub checkpw : (password hashed : String) → Bool
  -- `wait_after_authentication_failure.expiration`
  pub expiration : ℕ

pub record AuthenticationResponse : Type 0 where
  pub authenticated : Bool
  pub errors : List String
  pub username : Option String
  pub groups : Option (List String)

-- What is returned, or this.
abbrev returned : User → Outcome User → User
returned other (done u) = u
returned other (raised f) = other

is_raised : Outcome User → Bool
is_raised (done u) = false
is_raised (raised f) = true

written :
    (b : Bool) (v u : User) (s s' t : Store)
    → ◌≡◌ {A = Outcome User × Store}
        (if b then (raised unable_to_write, s) else (done v, s'))
        (done u, t)
    → (u ≡ v) × (t ≡ s')
unfolding is_raised
written true v u s s' t h =
    absurd (ground (arith, ap (λ (q : Outcome User × Store). is_raised q.0) h))
written false v u s s' t h = (
  sym (ap (λ (q : Outcome User × Store). returned v q.0) h),
  sym (ap (λ (q : Outcome User × Store). q.1) h),
)

module _ (e : Env) (name password : String) (groups : List String) where
  -- The entry of a user who was created with a password.
  abbrev new_user : User
  new_user = record {
    created = e.now;
    last_updated = e.now;
    username = name;
    requests = [];
    groups = groups;
    password = some (e.hash password);
  }

  created_entry :
      (s t : Store) (u : User)
      → truthy_text (some password) ≡ true
      → create_user e name (some password) groups s ≡ (done u, t)
      → (u ≡ new_user) × (lookup name t.users ≡ some new_user)
  unfolding create_user put_user hashed
  created_entry s t u given returns =
      let both = written (e.fails s (of_user new_user)) new_user u s _ t (rw given at returns) in
      (
        both.0,
        ap (λ (x : Store). lookup name x.users) both.1
            ∙ rw (lookup-insert name name new_user s.users, eq_refl) refl,
      )

-- What Redis keeps: the failures by key, without those that have expired. With it, the sleeps, newest first:
-- for whom, and how many seconds.
pub record Attempts : Type 0 where
  pub failures : Dict ℕ
  pub waited : List (String × ℕ)

abbrev pub redis_key : (user : String) → String
redis_key user = String.◌++◌ "wait_after_authentication_failure_" user

abbrev pub count : Option ℕ → ℕ
count none = 0
count (some n) = n

abbrev pub num_password_failures : (user : String) → Attempts → ℕ
num_password_failures user a = count (lookup (redis_key user) a.failures)

module _ (l : Login) where
  abbrev pub delay_error : ℕ → String
  delay_error next_delay = fstring (
      "Your next authentication failure will result in a "
      ∷ decimal next_delay
      ∷ " second wait. This wait time will expire after "
      ∷ decimal l.expiration
      ∷ " seconds of no authentication failures."
      ∷ [])

  unfoldable pub wait_after_authentication_failure : (user : String) → Attempts → String × Attempts
  wait_after_authentication_failure user a =
      let n = num_password_failures user a in
      (
        delay_error ((n + 1) * (n + 1)),
        record {
          failures = insert (redis_key user) (n + 1) a.failures;
          waited = (user, n * n) ∷ a.waited;
        },
      )

  abbrev pub rejected : (user_email : String) → Attempts → AuthenticationResponse × Attempts
  rejected user_email a =
      let delay = wait_after_authentication_failure user_email a in
      (
        record {
          authenticated = false;
          errors = "User doesn't exist, or password is incorrect. " ∷ delay.0 ∷ [];
          username = none;
          groups = none;
        },
        delay.1,
      )

  abbrev pub accepted : User → Attempts → AuthenticationResponse × Attempts
  accepted u a = (
    record {
      authenticated = true;
      errors = [];
      username = some u.username;
      groups = some u.groups;
    },
    a,
  )

  abbrev pub check_hash :
      (user_email password : String)
      → User
      → Option String
      → Attempts
      → AuthenticationResponse × Attempts
  check_hash user_email password u none a = rejected user_email a
  check_hash user_email password u (some hash) a =
      if not (truthy_text (some hash))
      then rejected user_email a
      else if not (l.checkpw password hash)
      then rejected user_email a
      else accepted u a

  abbrev pub check_user :
      (user_email password : String) → Option User → Attempts → AuthenticationResponse × Attempts
  check_user user_email password none a = rejected user_email a
  check_user user_email password (some u) a = check_hash user_email password u u.password a

  unfoldable pub authenticate_user :
      (user_email password : String) → Store → Attempts → AuthenticationResponse × Attempts
  authenticate_user user_email password s a =
      check_user user_email password (lookup user_email s.users) a

  hash_checked :
      (name attempt : String) (u : User) (hash : String) (a : Attempts)
      → truthy_text (some hash) ≡ true
      → check_hash name attempt u (some hash) a
        ≡ (if l.checkpw attempt hash then accepted u a else rejected name a)
  hash_checked name attempt u hash a given = elim (Bool-cases (l.checkpw attempt hash)) [
    | inl fits ↦ rw (given, fits) refl
    | inr other ↦ rw (given, other) refl
  ]

  -- Who was created with a password, in a write that was not refused, can log in with exactly the passwords
  -- that bcrypt takes for the hash, and then has the groups that were given. The password and its hash are
  -- no empty texts.
  pub authenticate_user-create_user :
      (e : Env) (name password attempt : String) (groups : List String) (s t : Store) (u : User)
      (a : Attempts)
      → truthy_text (some password) ≡ true
      → truthy_text (some (e.hash password)) ≡ true
      → create_user e name (some password) groups s ≡ (done u, t)
      → (u.groups ≡ groups)
        × (authenticate_user name attempt t a
            ≡ (if l.checkpw attempt (e.hash password) then accepted u a else rejected name a))
  unfolding authenticate_user
  authenticate_user-create_user e name password attempt groups s t u a given hash returns =
      let entry = created_entry e name password groups s t u given returns in
      (
        ap (λ (x : User). x.groups) entry.0,
        rw (entry.1, entry.0)
            (hash_checked name attempt (new_user e name password groups) (e.hash password) a hash),
      )
