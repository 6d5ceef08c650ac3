-- ===== src/GroupRequests/Resolved.antt =====
-- What the requests of users are, over any sequence of operations.
use mathlib.Core.Option.{some_inj}
use consoleme.Base.{
  ℕ, String, ◌≡◌, refl, sym, ◌∙◌, inl, inr, Bool, true, false, Option, none, some, List, [], ◌∷◌,
  All, Some, str_eq, eq_iff, arith, Dict, lookup, if◌then◌else◌,
}
use consoleme.GroupRequests.{
  GroupRequest, User, Store, Env, done, raised, create_user, update_user, delete_user,
  pending_request_already_exists,
}
use consoleme.GroupRequests.Operations.{
  is_asked, keep_asked, resolve_request_ids, connect, get_requests_by_user, affect, add_if_none,
  add_request, new_request, change_request_status, change_request_status_by_id,
}
use consoleme.GroupRequests.Sound.{
  IsOwn, IsSound, Ends-IsSound, create_user-Ends, update_user-IsSound, delete_user-IsSound,
}
use consoleme.GroupRequests.Own.{
  connect-Ends, get_requests_by_user-Ends, change_request_status-IsSound,
  change_request_status_by_id-IsSound,
}
use consoleme.GroupRequests.Added.{IsAdded, add_request-Ends}

-- The tables and the handler's copy, as operations leave them, from empty tables on. The operations may
-- come from different handlers, and each at its own time, with its own failures. The id of a new request is
-- not in the table.
pub data Reached : Store → Type 0 where
  empty :
      (u : User)
      → u.requests ≡ []
      → Reached (record { users = []; requests = []; affected_user = u })
  connected : {s : Store} → Reached s → (e : Env) (name : String) → Reached (connect e name s).1
  created :
      {s : Store}
      → Reached s
      → (e : Env) (name : String) (password : Option String) (groups : List String)
      → Reached (create_user e name password groups s).1
  updated :
      {s : Store}
      → Reached s
      → (e : Env) (name : String) (password : Option String) (groups : List String)
      → Reached (update_user e name password groups s).1
  deleted : {s : Store} → Reached s → (e : Env) (name : String) → Reached (delete_user e name s).1
  listed :
      {s : Store}
      → Reached s
      → (e : Env) (name : String) (group status : Option String)
      → Reached (get_requests_by_user e name group status s).1
  added :
      {s : Store}
      → Reached s
      → (e : Env) (name group justification : String) (request_time : Option ℕ) (status : String)
        (updated_by : Option String)
      → lookup e.uuid s.requests ≡ none
      → Reached (add_request e name group justification request_time status updated_by s).1
  changed :
      {s : Store}
      → Reached s
      → (e : Env) (name group new_status : String) (updated_by comments : Option String)
      → Reached (change_request_status e name group new_status updated_by comments s).1
  changed_by_id :
      {s : Store}
      → Reached s
      → (e : Env) (id new_status : String) (updated_by comments : Option String)
      → Reached (change_request_status_by_id e id new_status updated_by comments s).1

Reached-IsSound : (s : Store) → Reached s → IsSound s
Reached-IsSound _ (empty u none_yet) = record {
  keyed = λ id r found. cc;
  users = λ name v found. absurd (ground (arith, found));
  copy = record { is_named = refl; own = rw none_yet tt };
}
Reached-IsSound _ (connected {s = s} h e name) =
    Ends-IsSound _ _ (connect-Ends e name s (Reached-IsSound s h))
Reached-IsSound _ (created {s = s} h e name password groups) =
    Ends-IsSound _ _ (create_user-Ends e name password groups s (Reached-IsSound s h))
Reached-IsSound _ (updated {s = s} h e name password groups) =
    update_user-IsSound e name password groups s (Reached-IsSound s h)
Reached-IsSound _ (deleted {s = s} h e name) = delete_user-IsSound e name s (Reached-IsSound s h)
Reached-IsSound _ (listed {s = s} h e name group status) =
    Ends-IsSound _ _ (get_requests_by_user-Ends e name group status s (Reached-IsSound s h))
Reached-IsSound _ (added {s = s} h e name group justification time status by fresh) =
    Ends-IsSound _ _
      (add_request-Ends e name group justification time status by s (Reached-IsSound s h) fresh)
Reached-IsSound _ (changed {s = s} h e name group new_status by comments) =
    change_request_status-IsSound e name group new_status by comments s (Reached-IsSound s h)
Reached-IsSound _ (changed_by_id {s = s} h e id new_status by comments) =
    change_request_status_by_id-IsSound e id new_status by comments s (Reached-IsSound s h)

-- The ids resolve, to requests of this user, among them one that is in the table under one of the ids.
Resolves : Dict GroupRequest → String → List String → Type 0
Resolves table name ids =
    (rs : List GroupRequest) × (resolve_request_ids table ids ≡ done rs)
    × All (λ (r : GroupRequest). r.username ≡ name) rs
    × ((r : GroupRequest)
        → Some (λ (id : String). lookup id table ≡ some r) ids
        → Some (λ (x : GroupRequest). x ≡ r) rs)

own_resolve :
    (table : Dict GroupRequest) (name : String) (ids : List String)
    → All (IsOwn table name) ids
    → Resolves table name ids
unfolding Resolves resolve_request_ids
own_resolve table name [] h = ([], refl, tt, λ r k. k)
own_resolve table name (id ∷ ids) h =
    let rest = own_resolve table name ids h.1 in
    (
      h.0.request ∷ rest.0,
      rw (h.0.found, rest.1) refl,
      (h.0.owner, rest.2),
      λ r k. elim k [
        | inl here ↦ inl (some_inj.0 (sym h.0.found ∙ here))
        | inr there ↦ inr (rest.3 r there)
      ],
    )

-- Whatever operations there were, and whichever writes to the tables failed, the ids of the requests that a
-- user in the table has all resolve, and to requests of this user.
pub resolve_request_ids-Reached :
    (s : Store) (name : String) (u : User)
    → Reached s
    → lookup name s.users ≡ some u
    → (rs : List GroupRequest) × (resolve_request_ids s.requests u.requests ≡ done rs)
      × All (λ (r : GroupRequest). r.username ≡ name) rs
unfolding Resolves
resolve_request_ids-Reached s name u h found =
    let all =
      own_resolve s.requests name u.requests ((Reached-IsSound s h).users name u found).own in
    (all.0, all.1, all.2)

-- At least one request is kept.
IsKept : List GroupRequest → Type 0
IsKept [] = ⊥
IsKept (r ∷ rs) = Unit

if-IsKept :
    (b : Bool) (r : GroupRequest) (rs : List GroupRequest)
    → IsKept rs
    → IsKept (if b then r ∷ rs else rs)
unfolding IsKept
if-IsKept true r rs h = tt
if-IsKept false r rs h = h

keep_asked-IsKept :
    (group status : Option String) (r : GroupRequest) (rs : List GroupRequest)
    → is_asked group status r ≡ true
    → Some (λ (x : GroupRequest). x ≡ r) rs
    → IsKept (keep_asked group status rs)
unfolding keep_asked IsKept
keep_asked-IsKept group status r [] h k = elim k [ ]
keep_asked-IsKept group status r (x ∷ rs) h (inl same) = rw (same, h) tt
keep_asked-IsKept group status r (x ∷ rs) h (inr rest) =
    if-IsKept (is_asked group status x) x (keep_asked group status rs)
      (keep_asked-IsKept group status r rs h rest)

new_request-is_asked :
    (e : Env) (name group justification : String) (request_time : Option ℕ)
    (updated_by : Option String)
    → is_asked
        (some group)
        (some "pending")
        (new_request e name group justification request_time "pending" updated_by)
      ≡ true
unfolding is_asked
new_request-is_asked e name group justification time by = ground (arith, eq_iff group group)

refused :
    (e : Env) (r : GroupRequest) (existing : List GroupRequest) (s : Store)
    → IsKept existing
    → add_if_none e r existing s ≡ (raised pending_request_already_exists, s)
unfolding IsKept add_if_none
refused e r [] s h = elim h [ ]
refused e r (x ∷ rest) s h = refl

module _ (e : Env) (name group justification : String) (request_time : Option ℕ) (status : String)
    (updated_by : Option String) where
  add_again :
      (r : GroupRequest) (t : Store)
      → IsSound t
      → IsAdded r t
      → r.username ≡ name
      → is_asked (some group) (some "pending") r ≡ true
      → add_request e name group justification request_time status updated_by t
        ≡ (raised pending_request_already_exists, t)
  unfolding add_request get_requests_by_user affect Resolves
  add_again r t sound is_in owner asked =
      let all =
        own_resolve t.requests t.affected_user.username t.affected_user.requests sound.copy.own in
      let current : str_eq t.affected_user.username name ≡ true =
        (eq_iff t.affected_user.username name).1 (is_in.0 ∙ owner) in
      rw (current, all.1)
        (refused e _ (keep_asked (some group) (some "pending") all.0) t
          (keep_asked-IsKept (some group) (some "pending") r all.0 asked (all.3 r is_in.1)))

  -- If a pending request for a group has just been added for a user, a further one for the same user and
  -- group is refused, and the tables stay as they are.
  pub add_request-refused :
      (first : Env) (reason : String) (time : Option ℕ) (by : Option String) (s t : Store)
      (r : GroupRequest)
      → Reached s
      → lookup first.uuid s.requests ≡ none
      → add_request first name group reason time "pending" by s ≡ (done r, t)
      → add_request e name group justification request_time status updated_by t
        ≡ (raised pending_request_already_exists, t)
  add_request-refused first reason time by s t r h fresh returns =
      let ends =
        add_request-Ends first name group reason time "pending" by s (Reached-IsSound s h) fresh in
      let added = rw returns at ends in
      add_again (new_request first name group reason time "pending" by) t added.0 added.1.1 refl
        (new_request-is_asked first name group reason time by)
