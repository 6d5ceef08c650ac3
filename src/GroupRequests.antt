-- ===== src/GroupRequests.antt =====
-- lib/dynamo.py, UserDynamoHandler: the users and their requests for membership in groups, as the two tables
-- and the handler's own copy of a user hold them.
pub mod Added
pub mod Login
pub mod Operations
pub mod Own
pub mod Resolved
pub mod Sound
mod Tests
pub mod Waits
use consoleme.Base.{
  ℕ, zero, String, Bool, true, false, not, ◌&&◌, Option, none, some, List, [], ◌∷◌, ◌++◌, str_eq,
  elem, truthy_text, is_none, Dict, lookup, insert, if◌then◌else◌,
}

pub record GroupRequest : Type 0 where
  pub request_id : String
  pub group : String
  pub status : String
  pub justification : String
  pub request_time : ℕ
  pub updated_by : Option String
  pub last_updated : ℕ
  pub username : String
  -- there is none before the first review
  pub reviewer_comments : Option (Option String)

-- Without the signature, which is a function of the rest.
pub record User : Type 0 where
  pub created : ℕ
  pub last_updated : ℕ
  pub username : String
  pub requests : List String
  pub groups : List String
  pub password : Option String

pub record Store : Type 0 where
  pub users : Dict User
  pub requests : Dict GroupRequest
  -- `self.affected_user`
  pub affected_user : User

pub data Write : Type 0 where
  of_user : User → Write
  of_request : GroupRequest → Write
  removal : (user_email : String) → Write

pub record Env : Type 0 where
  pub now : ℕ
  pub uuid : String
  pub possible_statuses : List String
  -- `bcrypt.hashpw` with a fresh salt
  pub hash : String → String
  -- does DynamoDB refuse this write?
  pub fails : Store → Write → Bool

pub data Failure : Type 0 where
  unable_to_write unable_to_find_user pending_request_already_exists invalid_status no_updated_by
        no_existing_request :
      Failure
  no_matching_request : (request_id : String) → Failure

pub data Outcome {ℓ} (A : Type ℓ) : Type ℓ where
  done : A → Outcome A
  raised : Failure → Outcome A

abbrev pub bind :
    {A B : Type 0} → Outcome A × Store → (A → Store → Outcome B × Store) → Outcome B × Store
bind (done a, s) k = k a s
bind (raised f, s) k = (raised f, s)

unfoldable pub remove : {V : Type 0} → String → Dict V → Dict V
remove k [] = []
remove k ((j, v) ∷ d) = let rest = remove k d in if str_eq k j then rest else (j, v) ∷ rest

module _ (e : Env) where
  unfoldable pub put_user : User → Store → Outcome User × Store
  put_user u s =
      if e.fails s (of_user u)
      then (raised unable_to_write, s)
      else (done u, record s { users = insert u.username u s.users })

  unfoldable pub hashed : Option String → Option String → Option String
  hashed none old = old
  hashed (some password) old = if truthy_text (some password) then some (e.hash password) else old

  unfoldable pub create_user :
      (user_email : String)
      → (password : Option String) → (groups : List String) → Store
      → Outcome User × Store
  unfolding put_user hashed
  create_user user_email password groups s =
      put_user
        (record {
          created = e.now;
          last_updated = e.now;
          username = user_email;
          requests = [];
          groups = groups;
          password = hashed password none;
        })
        s

  abbrev pub or_current : List String → List String → List String
  or_current [] current = current
  or_current (g ∷ gs) current = g ∷ gs

  unfoldable pub update_user :
      (user_email : String)
      → (password : Option String) → (groups : List String) → Store
      → Outcome User × Store
  unfolding put_user hashed
  update_user user_email password groups s = elim (lookup user_email s.users) [
    | none ↦ (raised unable_to_find_user, s)
    | some u ↦
        put_user
          (record u {
            password = hashed password u.password;
            groups = or_current groups u.groups;
            last_updated = e.now;
          })
          s
  ]

  unfoldable pub delete_user : (user_email : String) → Store → Outcome (Unit {0}) × Store
  unfolding remove
  delete_user user_email s =
      if e.fails s (removal user_email)
      then (raised unable_to_write, s)
      else (done tt, record s { users = remove user_email s.users })

  unfoldable pub or_create : (user_email : String) → Option User → Store → Outcome User × Store
  unfolding create_user
  or_create user_email none s = create_user user_email none [] s
  or_create user_email (some u) s = (done u, s)

  unfoldable pub get_or_create_user : (user_email : String) → Store → Outcome User × Store
  unfolding or_create
  get_or_create_user user_email s = or_create user_email (lookup user_email s.users) s
