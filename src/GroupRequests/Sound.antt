-- ===== src/GroupRequests/Sound.antt =====
-- The requests that users have stay requests of their own, over the writes to the tables.
use mathlib.Core.Path.{subst}
use mathlib.Core.Option.{some_inj}
use consoleme.Base.{
  String, ◌≡◌, refl, sym, ◌∙◌, ◌⊎◌, inl, inr, Bool, true, false, Option, none, some, List, [], ◌∷◌,
  All, All-map, str_eq, eq_iff, eq_refl, arith, Bool-cases, Dict, lookup, insert, lookup-insert,
  if◌then◌else◌,
}
use consoleme.GroupRequests.{
  GroupRequest, User, Store, of_user, of_request, removal, Env, Outcome, done, raised, bind, remove,
  put_user, create_user, update_user, delete_user, or_create, get_or_create_user,
}
use consoleme.GroupRequests.Operations.{put_request}

-- This user's request is in the table under this id.
pub record IsOwn (table : Dict GroupRequest) (name id : String) : Type 0 where
  pub request : GroupRequest
  pub found : lookup id table ≡ some request
  pub owner : request.username ≡ name

-- A user of this name, with requests of its own.
pub record IsUser (table : Dict GroupRequest) (name : String) (u : User) : Type 0 where
  pub is_named : u.username ≡ name
  pub own : All (IsOwn table name) u.requests

pub record IsSound (s : Store) : Type 0 where
  pub keyed : (id : String) (r : GroupRequest) → lookup id s.requests ≡ some r → r.request_id ≡ id
  pub users : (name : String) (u : User) → lookup name s.users ≡ some u → IsUser s.requests name u
  pub copy : IsUser s.requests s.affected_user.username s.affected_user

-- The tables are sound, however a step ends; if it returns, this holds of the result and the tables.
abbrev pub Ends : {A : Type 0} → (A → Store → Type 0) → Outcome A × Store → Type 0
Ends P (done a, s) = IsSound s × P a s
Ends P (raised f, s) = IsSound s

pub Ends-bind :
    {A B : Type 0} (P : A → Store → Type 0) (Q : B → Store → Type 0) (q : Outcome A × Store)
    (k : A → Store → Outcome B × Store)
    → Ends P q
    → ((a : A) (s : Store) → IsSound s → P a s → Ends Q (k a s))
    → Ends Q (bind q k)
Ends-bind P Q (done a, s) k h f = f a s h.0 h.1
Ends-bind P Q (raised x, s) k h f = h

pub Ends-IsSound :
    {A : Type 0} (P : A → Store → Type 0) (q : Outcome A × Store) → Ends P q → IsSound q.1
Ends-IsSound P (done a, s) h = h.0
Ends-IsSound P (raised f, s) h = h

pub if-Ends :
    {A : Type 0} (P : A → Store → Type 0) (b : Bool) (x y : Outcome A × Store)
    → Ends P x
    → Ends P y
    → Ends P (if b then x else y)
if-Ends P true x y h k = h
if-Ends P false x y h k = k

pub Ends-map :
    {A : Type 0} (P Q : A → Store → Type 0) (q : Outcome A × Store)
    → ((a : A) (s : Store) → P a s → Q a s)
    → Ends P q
    → Ends Q q
Ends-map P Q (done a, s) f h = (h.0, f a s h.1)
Ends-map P Q (raised x, s) f h = h

pub found_or_none : {V : Type 0} → (o : Option V) → (o ≡ none) ⊎ ((v : V) × (o ≡ some v))
found_or_none none = inl refl
found_or_none (some v) = inr (v, refl)

lookup-remove :
    {V : Type 0}
    → (j k : String) → (d : Dict V)
    → lookup j (remove k d) ≡ (if str_eq j k then none else lookup j d)
unfolding remove
lookup-remove j k [] = ground arith
lookup-remove j k ((i, w) ∷ d) =
    ground (arith, eq_iff k i, eq_iff j i, eq_iff j k, lookup-remove j k d)

-- What holds of a looked up entry behind an insertion.
looked_up :
    {V : Type 0} (P : V → Type 0) (j k : String) (v w : V) (d : Dict V)
    → lookup j (insert k v d) ≡ some w
    → (j ≡ k → P v)
    → (lookup j d ≡ some w → P w)
    → P w
looked_up P j k v w d h f g = elim (Bool-cases (str_eq j k)) [
  | inl same ↦
      let equal : some v ≡ some w = rw (lookup-insert j k v d, same) at h in
      subst P (some_inj.0 equal) (f ((eq_iff j k).0 same))
  | inr other ↦ g (rw (lookup-insert j k v d, other) at h)
]

module _ (e : Env) where
  pub put_user-Ends :
      (u : User) (s : Store)
      → IsSound s
      → IsUser s.requests u.username u
      → Ends
          (λ v t. (v ≡ u) × (t.requests ≡ s.requests) × (t.affected_user ≡ s.affected_user))
          (put_user e u s)
  unfolding put_user
  put_user-Ends u s h k =
      if-Ends (λ v t. (v ≡ u) × (t.requests ≡ s.requests) × (t.affected_user ≡ s.affected_user))
        (e.fails s (of_user u)) _ _ h
        (
          record {
            keyed = h.keyed;
            users = λ name v found.
                looked_up (IsUser s.requests name) name u.username u v s.users found
                  (λ same. rw same k) (h.users name v);
            copy = h.copy;
          },
          (refl, refl, refl),
        )

  pub create_user-Ends :
      (name : String) (password : Option String) (groups : List String) (s : Store)
      → IsSound s
      → Ends
          (λ v t. IsUser t.requests name v × (t.requests ≡ s.requests))
          (create_user e name password groups s)
  unfolding create_user
  create_user-Ends name password groups s h =
      Ends-map _ _ _ (λ v t x. (rw (x.0, x.1) (record { is_named = refl; own = tt }), x.1))
        (put_user-Ends _ s h (record { is_named = refl; own = tt }))

  pub update_user-IsSound :
      (name : String) (password : Option String) (groups : List String) (s : Store)
      → IsSound s
      → IsSound (update_user e name password groups s).1
  unfolding update_user
  update_user-IsSound name password groups s h = elim (found_or_none (lookup name s.users)) [
    | inl missing ↦ rw (missing, update_user) h
    | inr (u, found) ↦
        let own = h.users name u found in
        rw (found, update_user)
          (Ends-IsSound
            (λ v t. (v ≡ _) × (t.requests ≡ s.requests) × (t.affected_user ≡ s.affected_user)) _
            (put_user-Ends _ s h (record { is_named = refl; own = rw own.is_named own.own })))
  ]

  pub delete_user-IsSound :
      (name : String) (s : Store) → IsSound s → IsSound (delete_user e name s).1
  unfolding delete_user
  delete_user-IsSound name s h =
      Ends-IsSound (λ _ t. Unit) _
        (if-Ends (λ _ t. Unit) (e.fails s (removal name)) _ _ h
          (
            record {
              keyed = h.keyed;
              users = λ other v found. h.users other v (kept other v found);
              copy = h.copy;
            },
            tt,
          ))
    where
      kept :
          (other : String) (v : User)
          → lookup other (remove name s.users) ≡ some v
          → lookup other s.users ≡ some v
      kept other v found = ground (arith, lookup-remove other name s.users)

  or_create-Ends :
      (name : String) (o : Option User) (s : Store)
      → IsSound s
      → lookup name s.users ≡ o
      → Ends (λ v t. IsUser t.requests name v × (t.requests ≡ s.requests)) (or_create e name o s)
  unfolding or_create
  or_create-Ends name none s h same = create_user-Ends name none [] s h
  or_create-Ends name (some u) s h same = (h, (h.users name u same, refl))

  pub get_or_create_user-Ends :
      (name : String) (s : Store)
      → IsSound s
      → Ends
          (λ v t. IsUser t.requests name v × (t.requests ≡ s.requests))
          (get_or_create_user e name s)
  unfolding get_or_create_user
  get_or_create_user-Ends name s h = or_create-Ends name _ s h refl

  -- A request may be put in place of one of the same user.
  IsOwn-insert :
      (r : GroupRequest) (table : Dict GroupRequest) (name id : String)
      → ((old : GroupRequest) → lookup r.request_id table ≡ some old → old.username ≡ r.username)
      → IsOwn table name id
      → IsOwn (insert r.request_id r table) name id
  IsOwn-insert r table name id h k = elim (Bool-cases (str_eq id r.request_id)) [
    | inl same ↦
        let is_id : id ≡ r.request_id = (eq_iff id r.request_id).0 same in
        record {
          request = r;
          found = rw (lookup-insert id r.request_id r table, same) refl;
          owner = sym (h k.request (rw is_id at k.found)) ∙ k.owner;
        }
    | inr other ↦ record {
      request = k.request;
      found = rw (lookup-insert id r.request_id r table, other) k.found;
      owner = k.owner;
    }
  ]

  pub put_request-Ends :
      (r : GroupRequest) (s : Store)
      → IsSound s
      → ((old : GroupRequest)
          → lookup r.request_id s.requests ≡ some old
          → old.username ≡ r.username)
      → Ends
          (λ _ t.
            ((name id : String) → IsOwn s.requests name id → IsOwn t.requests name id)
            × (lookup r.request_id t.requests ≡ some r)
            × (t.affected_user ≡ s.affected_user))
          (put_request e r s)
  unfolding put_request
  put_request-Ends r s h k =
      let keeps = λ (name id : String) (own : IsOwn s.requests name id).
        IsOwn-insert r s.requests name id k own in
      if-Ends _ (e.fails s (of_request r)) _ _ h (
        record {
          keyed = λ id x found.
              looked_up (λ (y : GroupRequest). y.request_id ≡ id) id r.request_id r x s.requests
                found (λ same. sym same) (h.keyed id x);
          users = λ name u found.
              let before = h.users name u found in
              record {
                is_named = before.is_named;
                own = All-map _ _ (keeps name) u.requests before.own;
              };
          copy = record {
            is_named = refl;
            own = All-map _ _ (keeps s.affected_user.username) s.affected_user.requests h.copy.own;
          };
        },
        (keeps, rw (lookup-insert r.request_id r.request_id r s.requests, eq_refl) refl, refl),
      )
