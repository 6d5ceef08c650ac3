-- ===== src/GroupRequests/Added.antt =====
-- What `add_request` adds.
use consoleme.Base.{
  ℕ, String, ◌≡◌, refl, sym, ap, ◌∙◌, inl, inr, Option, none, some, List, [], ◌∷◌, ◌++◌, All, Some,
  lookup,
}
use consoleme.GroupRequests.{GroupRequest, User, Store, Env}
use consoleme.GroupRequests.Operations.{
  put_request, add_request_id_to_user, add_if_none, add_request, new_request,
}
use consoleme.GroupRequests.Sound.{
  IsOwn, IsUser, IsSound, Ends, Ends-bind, Ends-map, put_request-Ends, put_user-Ends,
}
use consoleme.GroupRequests.Own.{get_requests_by_user-Ends}

All-last :
    {A : Type 0} (P : A → Type 0) (x : A) (xs : List A) → All P xs → P x → All P (xs ++ x ∷ [])
All-last P x [] h k = (k, tt)
All-last P x (y ∷ xs) h k = (h.0, All-last P x xs h.1 k)

Some-last : {A : Type 0} (P : A → Type 0) (x : A) (xs : List A) → P x → Some P (xs ++ x ∷ [])
Some-last P x [] k = inl k
Some-last P x (y ∷ xs) k = inr (Some-last P x xs k)

-- The handler's user has it among its requests, and it is in the table.
abbrev pub IsAdded : GroupRequest → Store → Type 0
IsAdded r t =
    (t.affected_user.username ≡ r.username)
    × Some (λ (id : String). lookup id t.requests ≡ some r) t.affected_user.requests

module _ (e : Env) where
  add_request_id_to_user-Ends :
      (id : String) (s : Store)
      → IsSound s
      → IsOwn s.requests s.affected_user.username id
      → Ends
          (λ _ t.
            (t.requests ≡ s.requests)
            × (t.affected_user
                ≡ record s.affected_user { requests = s.affected_user.requests ++ id ∷ [] }))
          (add_request_id_to_user e id s)
  unfolding add_request_id_to_user
  add_request_id_to_user-Ends id s h k =
      let own =
        All-last (IsOwn s.requests s.affected_user.username) id s.affected_user.requests h.copy.own
          k in
      let u = record s.affected_user { requests = s.affected_user.requests ++ id ∷ [] } in
      let copy : IsUser s.requests u.username u = record { is_named = refl; own = own } in
      Ends-map _ _ _ (λ v t x. (x.1, x.2))
        (put_user-Ends e _ _ (record { keyed = h.keyed; users = h.users; copy = copy }) copy)

  add_if_none-Ends :
      (r : GroupRequest) (existing : List GroupRequest) (s : Store)
      → IsSound s
      → s.affected_user.username ≡ r.username
      → lookup r.request_id s.requests ≡ none
      → Ends (λ x t. (x ≡ r) × IsAdded r t) (add_if_none e r existing s)
  unfolding add_if_none
  add_if_none-Ends r (x ∷ rest) s h same fresh = h
  add_if_none-Ends r [] s h same fresh =
      Ends-bind _ _ (put_request e r s) _ (put_request-Ends e r s h (λ old found. cc))
        (λ _ t sound k.
          let owner : t.affected_user.username ≡ r.username =
            ap (λ (u : User). u.username) k.2 ∙ same in
          Ends-bind _ (λ x t'. (x ≡ r) × IsAdded r t') (add_request_id_to_user e r.request_id t) _
            (add_request_id_to_user-Ends r.request_id t sound
              (record { request = r; found = k.1; owner = sym owner }))
            (λ u t' sound' k'. (
              sound',
              (
                refl,
                (
                  ap (λ (x : User). x.username) k'.1 ∙ owner,
                  rw (k'.1, k'.0)
                      (Some-last (λ (id : String). lookup id t.requests ≡ some r) r.request_id
                        t.affected_user.requests k.1),
                ),
              ),
            )))

  -- Behind an addition, the request is in the table and among those of its user. The id has to be fresh.
  pub add_request-Ends :
      (name group justification : String) (request_time : Option ℕ) (status : String)
      (updated_by : Option String) (s : Store)
      → IsSound s
      → lookup e.uuid s.requests ≡ none
      → Ends
          (λ x t.
            (x ≡ new_request e name group justification request_time status updated_by)
            × IsAdded (new_request e name group justification request_time status updated_by) t)
          (add_request e name group justification request_time status updated_by s)
  unfolding add_request
  add_request-Ends name group justification request_time status updated_by s h fresh =
      Ends-bind _ _ _ _ (get_requests_by_user-Ends e name (some group) (some "pending") s h)
        (λ existing t sound k.
          add_if_none-Ends (new_request e name group justification request_time status updated_by)
            existing t sound k.1 (rw k.2 fresh))
