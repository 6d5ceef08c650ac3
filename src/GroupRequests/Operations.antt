-- ===== src/GroupRequests/Operations.antt =====
-- lib/dynamo.py, UserDynamoHandler: the requests of users for membership in groups.
use consoleme.Base.{
  ℕ, zero, String, Bool, true, not, ◌&&◌, Option, none, some, List, [], ◌∷◌, ◌++◌, str_eq, elem,
  truthy_text, Dict, lookup, insert, if◌then◌else◌,
}
use consoleme.GroupRequests.{
  GroupRequest, User, Store, of_request, Env, unable_to_write, pending_request_already_exists,
  invalid_status, no_updated_by, no_existing_request, no_matching_request, Outcome, done, raised,
  bind, put_user, get_or_create_user,
}

-- A request is kept by `get_requests_by_user`, if the group and the status are what was asked for.
unfoldable pub is_asked : (group status : Option String) → GroupRequest → Bool
is_asked group status r = matches group r.group && matches status r.status
  where
    matches : Option String → String → Bool
    matches none t = true
    matches (some s) t = if truthy_text (some s) then str_eq t s else true

unfoldable pub keep_asked : (group status : Option String) → List GroupRequest → List GroupRequest
unfolding is_asked
keep_asked group status [] = []
keep_asked group status (r ∷ rs) =
    let rest = keep_asked group status rs in if is_asked group status r then r ∷ rest else rest

abbrev pub resolve_first :
    (request_id : String)
    → Option GroupRequest
    → Outcome (List GroupRequest)
    → Outcome (List GroupRequest)
resolve_first id none rest = raised (no_matching_request id)
resolve_first id (some r) (done rs) = done (r ∷ rs)
resolve_first id (some r) (raised f) = raised f

unfoldable pub resolve_request_ids : Dict GroupRequest → List String → Outcome (List GroupRequest)
resolve_request_ids table [] = done []
resolve_request_ids table (id ∷ ids) =
    resolve_first id (lookup id table) (resolve_request_ids table ids)

abbrev pub keep_resolved :
    (group status : Option String) → Outcome (List GroupRequest) → Outcome (List GroupRequest)
keep_resolved group status (done rs) = done (keep_asked group status rs)
keep_resolved group status (raised f) = raised f

module _ (e : Env) where
  unfoldable pub put_request : GroupRequest → Store → Outcome GroupRequest × Store
  put_request r s =
      if e.fails s (of_request r)
      then (raised unable_to_write, s)
      else (done r, record s { requests = insert r.request_id r s.requests })

  abbrev pub set_affected : User → Store → Outcome (Unit {0}) × Store
  set_affected u s = (done tt, record s { affected_user = u })

  -- A new handler, `__init__`: the tables are the same, the copy is that of its own user.
  unfoldable pub connect : (user_email : String) → Store → Outcome (Unit {0}) × Store
  unfolding get_or_create_user
  connect user_email s = bind (get_or_create_user e user_email s) set_affected

  -- The handler's copy is made the one of this user.
  unfoldable pub affect : (user_email : String) → Store → Outcome (Unit {0}) × Store
  unfolding get_or_create_user
  affect user_email s =
      if str_eq s.affected_user.username user_email
      then (done tt, s)
      else bind (get_or_create_user e user_email s) set_affected

  abbrev pub resolved :
      (group status : Option String) → Unit {0} → Store → Outcome (List GroupRequest) × Store
  resolved group status _ s =
      (keep_resolved group status (resolve_request_ids s.requests s.affected_user.requests), s)

  unfoldable pub get_requests_by_user :
      (user_email : String)
      → (group status : Option String) → Store
      → Outcome (List GroupRequest) × Store
  unfolding affect
  get_requests_by_user user_email group status s =
      bind (affect user_email s) (resolved group status)

  -- `add_request_id_to_user`: the copy has the id also if the write fails.
  unfoldable pub add_request_id_to_user : (request_id : String) → Store → Outcome User × Store
  unfolding put_user
  add_request_id_to_user request_id s =
      let u = record s.affected_user { requests = s.affected_user.requests ++ request_id ∷ [] } in
      put_user e u (record s { affected_user = u })

  abbrev pub new_request :
      (user_email group justification : String)
      → (request_time : Option ℕ) → (status : String) → Option String
      → GroupRequest
  new_request user_email group justification request_time status updated_by = record {
    request_id = e.uuid;
    group = group;
    status = status;
    justification = justification;
    request_time = or_now request_time;
    updated_by = updated_by;
    last_updated = e.now;
    username = user_email;
    reviewer_comments = none;
  }
    where
      or_now : Option ℕ → ℕ
      or_now none = e.now
      or_now (some zero) = e.now
      or_now (some t) = t

  -- Behind the search for pending requests.
  unfoldable pub add_if_none :
      GroupRequest → List GroupRequest → Store → Outcome GroupRequest × Store
  unfolding put_request add_request_id_to_user
  add_if_none r [] s =
      bind (put_request r s)
        (λ r' s'. bind (add_request_id_to_user r.request_id s') (λ u s''. (done r, s'')))
  add_if_none r (existing ∷ rest) s = (raised pending_request_already_exists, s)

  unfoldable pub add_request :
      (user_email group justification : String)
      → (request_time : Option ℕ) → (status : String) → (updated_by : Option String) → Store
      → Outcome GroupRequest × Store
  unfolding get_requests_by_user add_if_none
  add_request user_email group justification request_time status updated_by s =
      bind (get_requests_by_user user_email (some group) (some "pending") s)
        (add_if_none (new_request user_email group justification request_time status updated_by))

  abbrev pub reviewed :
      (new_status : String) → (updated_by comments : Option String) → GroupRequest → GroupRequest
  reviewed new_status updated_by comments r = record r {
    updated_by = updated_by;
    status = new_status;
    last_updated = e.now;
    reviewer_comments = some comments;
  }

  -- The loop over requests, with the one that was changed last.
  unfoldable pub review_each :
      (new_status : String)
      → (updated_by comments : Option String) → (is_chosen : GroupRequest → Bool)
      → List GroupRequest
      → Option GroupRequest
      → Store
      → Outcome (Option GroupRequest) × Store
  unfolding put_request
  review_each new_status updated_by comments is_chosen [] found s = (done found, s)
  review_each new_status updated_by comments is_chosen (r ∷ rs) found s =
      let r' = reviewed new_status updated_by comments r in
      let next =
        bind (put_request r' s)
          (λ r'' s'. review_each new_status updated_by comments is_chosen rs (some r') s') in
      let rest = review_each new_status updated_by comments is_chosen rs found s in
      if is_chosen r then next else rest

  abbrev pub or_no_request : Option GroupRequest → Store → Outcome GroupRequest × Store
  or_no_request none s = (raised no_existing_request, s)
  or_no_request (some r) s = (done r, s)

  abbrev pub lacks_reviewer : String → Option String → Bool
  lacks_reviewer new_status updated_by =
      str_eq new_status "approved" && not (truthy_text updated_by)

  abbrev pub is_of_group : String → GroupRequest → Bool
  is_of_group group r = str_eq r.group group

  -- Behind the checks.
  abbrev pub change_status :
      (user_email group new_status : String)
      → (updated_by reviewer_comments : Option String) → Store
      → Outcome GroupRequest × Store
  change_status user_email group new_status updated_by comments s =
      bind (get_requests_by_user user_email none none s) (λ rs s'.
        bind (review_each new_status updated_by comments (is_of_group group) rs none s')
          or_no_request)

  unfoldable pub change_request_status :
      (user_email group new_status : String)
      → (updated_by reviewer_comments : Option String) → Store
      → Outcome GroupRequest × Store
  unfolding get_requests_by_user review_each
  change_request_status user_email group new_status updated_by comments s =
      bind (affect user_email s) (λ _ s'.
        if not (elem new_status e.possible_statuses)
        then (raised invalid_status, s')
        else if lacks_reviewer new_status updated_by
        then (raised no_updated_by, s')
        else change_status user_email group new_status updated_by comments s')

  abbrev pub by_id :
      (new_status : String)
      → (updated_by reviewer_comments : Option String) → Outcome (List GroupRequest)
      → Store
      → Outcome GroupRequest × Store
  by_id new_status updated_by comments (raised f) s = (raised f, s)
  by_id new_status updated_by comments (done rs) s =
      if not (elem new_status e.possible_statuses)
      then (raised invalid_status, s)
      else bind (review_each new_status updated_by comments (λ r. true) rs none s) or_no_request

  unfoldable pub change_request_status_by_id :
      (request_id new_status : String)
      → (updated_by reviewer_comments : Option String) → Store
      → Outcome GroupRequest × Store
  unfolding resolve_request_ids review_each
  change_request_status_by_id request_id new_status updated_by comments s =
      if lacks_reviewer new_status updated_by
      then (raised no_updated_by, s)
      else by_id new_status updated_by comments (resolve_request_ids s.requests (request_id ∷ [])) s
