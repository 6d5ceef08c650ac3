-- ===== src/GroupRequests/Own.antt =====
-- Every operation on the tables of users and requests keeps them sound, however it ends.
use mathlib.Core.Option.{some_inj}
use consoleme.Base.{
  String, ◌≡◌, refl, sym, ap, ◌∙◌, inl, inr, Bool, true, false, not, Option, none, some, List, [],
  ◌∷◌, All, All-map, str_eq, eq_iff, elem, Bool-cases, Dict, lookup, if◌then◌else◌,
}
use consoleme.GroupRequests.{GroupRequest, User, Store, Env, Outcome, done, raised, bind}
use consoleme.GroupRequests.Operations.{
  is_asked, keep_asked, resolve_first, keep_resolved, resolve_request_ids, put_request, connect,
  affect, resolved, set_affected, get_requests_by_user, reviewed, review_each, or_no_request,
  lacks_reviewer, is_of_group, change_request_status, by_id, change_request_status_by_id,
}
use consoleme.GroupRequests.Sound.{
  IsOwn, IsUser, IsSound, Ends, Ends-bind, Ends-IsSound, if-Ends, put_request-Ends,
  get_or_create_user-Ends,
}

module _ (e : Env) where
  set_affected-Ends :
      (name : String) (table : Dict GroupRequest) (u : User) (s : Store)
      → IsSound s
      → IsUser s.requests name u × (s.requests ≡ table)
      → Ends (λ _ t. (t.affected_user.username ≡ name) × (t.requests ≡ table)) (set_affected e u s)
  set_affected-Ends name table u s h k = (
    record {
      keyed = h.keyed;
      users = h.users;
      copy = record { is_named = refl; own = rw k.0.is_named k.0.own };
    },
    (k.0.is_named, k.1),
  )

  pub connect-Ends :
      (name : String) (s : Store)
      → IsSound s
      → Ends
          (λ _ t. (t.affected_user.username ≡ name) × (t.requests ≡ s.requests))
          (connect e name s)
  unfolding connect
  connect-Ends name s h =
      Ends-bind _ _ _ (set_affected e) (get_or_create_user-Ends e name s h)
        (set_affected-Ends name s.requests)

  pub affect-Ends :
      (name : String) (s : Store)
      → IsSound s
      → Ends
          (λ _ t. (t.affected_user.username ≡ name) × (t.requests ≡ s.requests))
          (affect e name s)
  unfolding affect connect
  affect-Ends name s h = elim (Bool-cases (str_eq s.affected_user.username name)) [
    | inl same ↦ rw (same, Ends) (h, ((eq_iff s.affected_user.username name).0 same, refl))
    | inr other ↦ rw (other, Ends) (connect-Ends name s h)
  ]

  -- The request is in the table as its user's.
  abbrev IsFiled : Dict GroupRequest → GroupRequest → Type 0
  IsFiled table r = IsOwn table r.username r.request_id

  -- If the ids resolve, then to requests that are filed.
  abbrev Filed : Dict GroupRequest → Outcome (List GroupRequest) → Type 0
  Filed table (done rs) = All (IsFiled table) rs
  Filed table (raised f) = Unit

  module _ (table : Dict GroupRequest)
      (keyed : (id : String) (r : GroupRequest)
        → lookup id table ≡ some r
        → r.request_id ≡ id) where
    resolve_first-Filed :
        (id : String) (o : Option GroupRequest) (rest : Outcome (List GroupRequest))
        → lookup id table ≡ o
        → Filed table rest
        → Filed table (resolve_first id o rest)
    resolve_first-Filed id none rest same h = tt
    resolve_first-Filed id (some r) (raised f) same h = tt
    resolve_first-Filed id (some r) (done rs) same h = (
      record {
        request = r;
        found = ap (λ i. lookup i table) (keyed id r same) ∙ same;
        owner = refl;
      },
      h,
    )

    resolve_request_ids-Filed : (ids : List String) → Filed table (resolve_request_ids table ids)
    unfolding resolve_request_ids
    resolve_request_ids-Filed [] = tt
    resolve_request_ids-Filed (id ∷ ids) =
        resolve_first-Filed id (lookup id table) (resolve_request_ids table ids) refl
          (resolve_request_ids-Filed ids)

    if-Filed :
        (b : Bool) (xs ys : List GroupRequest)
        → All (IsFiled table) xs
        → All (IsFiled table) ys
        → All (IsFiled table) (if b then xs else ys)
    if-Filed true xs ys h k = h
    if-Filed false xs ys h k = k

    keep_asked-Filed :
        (group status : Option String) (rs : List GroupRequest)
        → All (IsFiled table) rs
        → All (IsFiled table) (keep_asked group status rs)
    unfolding keep_asked
    keep_asked-Filed group status [] h = tt
    keep_asked-Filed group status (r ∷ rs) h =
        let rest = keep_asked-Filed group status rs h.1 in
        if-Filed (is_asked group status r) _ _ (h.0, rest) rest

    keep_resolved-Filed :
        (group status : Option String) (q : Outcome (List GroupRequest))
        → Filed table q
        → Filed table (keep_resolved group status q)
    keep_resolved-Filed group status (done rs) h = keep_asked-Filed group status rs h
    keep_resolved-Filed group status (raised f) h = tt

  Filed-Ends :
      (name : String) (table : Dict GroupRequest) (s : Store) (q : Outcome (List GroupRequest))
      → IsSound s
      → (s.affected_user.username ≡ name) × (s.requests ≡ table)
      → Filed s.requests q
      → Ends
          (λ rs t.
            All (IsFiled t.requests) rs × (t.affected_user.username ≡ name) × (t.requests ≡ table))
          (q, s)
  Filed-Ends name table s (done rs) h same k = (h, (k, same.0, same.1))
  Filed-Ends name table s (raised f) h same k = h

  pub get_requests_by_user-Ends :
      (name : String) (group status : Option String) (s : Store)
      → IsSound s
      → Ends
          (λ rs t.
            All (IsFiled t.requests) rs
            × (t.affected_user.username ≡ name)
            × (t.requests ≡ s.requests))
          (get_requests_by_user e name group status s)
  unfolding get_requests_by_user
  get_requests_by_user-Ends name group status s h =
      Ends-bind _ _ _ (resolved e group status) (affect-Ends name s h) (λ u t sound same.
        Filed-Ends name s.requests t _ sound same (
          keep_resolved-Filed t.requests sound.keyed group status _
            (resolve_request_ids-Filed t.requests sound.keyed t.affected_user.requests)))

  same_owner :
      (table : Dict GroupRequest) (r old : GroupRequest)
      → IsFiled table r
      → lookup r.request_id table ≡ some old
      → old.username ≡ r.username
  same_owner table r old h found =
      ap (λ (x : GroupRequest). x.username) (some_inj.0 (sym found ∙ h.found)) ∙ h.owner

  abbrev Anything : {A : Type 0} → A → Store → Type 0
  Anything a t = Unit

  review_each-Ends :
      (new_status : String) (updated_by comments : Option String) (is_chosen : GroupRequest → Bool)
      (rs : List GroupRequest) (found : Option GroupRequest) (s : Store)
      → IsSound s
      → All (IsFiled s.requests) rs
      → Ends Anything (review_each e new_status updated_by comments is_chosen rs found s)
  unfolding review_each
  review_each-Ends new_status by comments is_chosen [] found s h k = (h, tt)
  review_each-Ends new_status by comments is_chosen (r ∷ rs) found s h k =
      let r' = reviewed e new_status by comments r in
      if-Ends Anything (is_chosen r) _ _
        (Ends-bind _ Anything (put_request e r' s)
          (λ _ t. review_each e new_status by comments is_chosen rs (some r') t)
          (put_request-Ends e r' s h (λ old at_id. same_owner s.requests r old k.0 at_id))
          (λ _ t sound kept.
            review_each-Ends new_status by comments is_chosen rs (some r') t sound
              (All-map _ _ (λ x filed. kept.0 x.username x.request_id filed) rs k.1)))
        (review_each-Ends new_status by comments is_chosen rs found s h k.1)

  or_no_request-Ends :
      (o : Option GroupRequest) (s : Store) → IsSound s → Ends Anything (or_no_request e o s)
  or_no_request-Ends none s h = h
  or_no_request-Ends (some r) s h = (h, tt)

  review_then :
      (new_status : String) (updated_by comments : Option String) (is_chosen : GroupRequest → Bool)
      (rs : List GroupRequest) (s : Store)
      → IsSound s
      → All (IsFiled s.requests) rs
      → Ends Anything (
          bind (review_each e new_status updated_by comments is_chosen rs none s) (or_no_request e))
  review_then new_status by comments is_chosen rs s h k =
      Ends-bind Anything Anything _ (or_no_request e)
        (review_each-Ends new_status by comments is_chosen rs none s h k)
        (λ o t sound _. or_no_request-Ends o t sound)

  pub change_request_status-IsSound :
      (name group new_status : String) (updated_by comments : Option String) (s : Store)
      → IsSound s
      → IsSound (change_request_status e name group new_status updated_by comments s).1
  unfolding change_request_status
  change_request_status-IsSound name group new_status by comments s h = Ends-IsSound Anything _ (
      Ends-bind _ Anything (affect e name s) _ (affect-Ends name s h) (λ _ t sound _.
        if-Ends Anything (not (elem new_status e.possible_statuses)) _ _ sound (
          if-Ends Anything (lacks_reviewer e new_status by) _ _ sound (
            Ends-bind _ Anything _ _ (get_requests_by_user-Ends name none none t sound)
              (λ rs v sound' k.
                review_then new_status by comments (is_of_group e group) rs v sound' k.0)))))

  by_id-Ends :
      (new_status : String) (updated_by comments : Option String) (q : Outcome (List GroupRequest))
      (s : Store)
      → IsSound s
      → Filed s.requests q
      → Ends Anything (by_id e new_status updated_by comments q s)
  by_id-Ends new_status by comments (raised f) s h k = h
  by_id-Ends new_status by comments (done rs) s h k =
      if-Ends Anything (not (elem new_status e.possible_statuses)) _ _ h
        (review_then new_status by comments (λ r. true) rs s h k)

  pub change_request_status_by_id-IsSound :
      (id new_status : String) (updated_by comments : Option String) (s : Store)
      → IsSound s
      → IsSound (change_request_status_by_id e id new_status updated_by comments s).1
  unfolding change_request_status_by_id
  change_request_status_by_id-IsSound id new_status by comments s h = Ends-IsSound Anything _ (
      if-Ends Anything (lacks_reviewer e new_status by) _ _ h (
        by_id-Ends new_status by comments _ s h
          (resolve_request_ids-Filed s.requests h.keyed (id ∷ []))))
