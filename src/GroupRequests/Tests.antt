-- ===== src/GroupRequests/Tests.antt =====
-- Runs of the requests for groups, on concrete tables.
use consoleme.Base.{
  All, List, String, [], false, if◌then◌else◌, lookup, none, refl, some, str_eq, true, ◌∷◌, ◌≡◌,
  ◌+◌,
}
use consoleme.GroupRequests.{
  Env, GroupRequest, Store, User, create_user, done, hashed, of_user,
  pending_request_already_exists, put_user, raised,
}
use consoleme.GroupRequests.Operations.{
  keep_asked, resolve_request_ids, put_request, affect, get_requests_by_user,
  add_request_id_to_user, add_if_none, add_request,
}
use consoleme.GroupRequests.Login.{
  Login, Attempts, num_password_failures, wait_after_authentication_failure, authenticate_user,
  accepted, rejected, authenticate_user-create_user,
}
use consoleme.GroupRequests.Waits.{
  LoginAttempt, authenticate_each, refusals, waits_of, squares, waits_of-authenticate_each,
}
use consoleme.GroupRequests.Resolved.{
  empty, added, resolve_request_ids-Reached, add_request-refused,
}

abbrev env : String → Env
env uuid = record {
  now = 1700000000;
  uuid = uuid;
  possible_statuses = "pending" ∷ "approved" ∷ "rejected" ∷ [];
  hash = λ password. password;
  fails = λ s w. false;
}

abbrev ann : User
ann = record {
  created = 1;
  last_updated = 1;
  username = "ann@example.com";
  requests = [];
  groups = [];
  password = none;
}

abbrev start : Store
start = record { users = []; requests = []; affected_user = ann }

abbrev first : GroupRequest
first = record {
  request_id = "request-1";
  group = "engineers";
  status = "pending";
  justification = "work";
  request_time = 1700000000;
  updated_by = none;
  last_updated = 1700000000;
  username = "ann@example.com";
  reviewer_comments = none;
}

abbrev after : Store
after = record {
  users = ("ann@example.com", record ann { requests = "request-1" ∷ [] }) ∷ [];
  requests = ("request-1", first) ∷ [];
  affected_user = record ann { requests = "request-1" ∷ [] };
}

first_added :
    add_request (env "request-1") "ann@example.com" "engineers" "work" none "pending" none start
    ≡ (done first, after)
unfolding add_request get_requests_by_user affect resolve_request_ids keep_asked add_if_none
    put_request add_request_id_to_user put_user
first_added = refl

-- If the write to the table of users fails, the request is in the table of requests, and no user has it.
half_added :
    (add_request
      (record (env "request-1") { fails = λ s w. elim w [ of_user u ↦ true | _ ↦ false ] })
      "ann@example.com"
      "engineers"
      "work"
      none
      "pending"
      none
      start).1
    ≡ record after { users = [] }
unfolding add_request get_requests_by_user affect resolve_request_ids keep_asked add_if_none
    put_request add_request_id_to_user put_user
half_added = refl

add_request-refused_example :
    add_request (env "request-2") "ann@example.com" "engineers" "please" none "approved" none after
    ≡ (raised pending_request_already_exists, after)
add_request-refused_example =
    add_request-refused (env "request-2") "ann@example.com" "engineers" "please" none "approved"
      none (env "request-1") "work" none none start after first (empty ann refl) refl first_added

abbrev reached : Store
reached =
    (add_request (env "request-1") "ann@example.com" "engineers" "work" none "pending" none start).1

ann_found :
    lookup "ann@example.com" reached.users ≡ some (record ann { requests = "request-1" ∷ [] })
unfolding add_request get_requests_by_user affect resolve_request_ids keep_asked add_if_none
    put_request add_request_id_to_user put_user
ann_found = refl

resolve_request_ids-Reached_example :
    (rs : List GroupRequest) × (resolve_request_ids reached.requests ("request-1" ∷ []) ≡ done rs)
    × All (λ (r : GroupRequest). r.username ≡ "ann@example.com") rs
resolve_request_ids-Reached_example =
    resolve_request_ids-Reached reached "ann@example.com"
      (record ann { requests = "request-1" ∷ [] })
      (added (empty ann refl) (env "request-1") "ann@example.com" "engineers" "work" none "pending"
        none refl)
      ann_found

-- The hash is the password itself.
abbrev login : Login
login = record { checkpw = λ password hash. str_eq password hash; expiration = 60 }

abbrev bob : User
bob = record {
  created = 1700000000;
  last_updated = 1700000000;
  username = "bob@example.com";
  requests = [];
  groups = "engineers" ∷ [];
  password = some "secret";
}

abbrev with_bob : Store
with_bob = record start { users = ("bob@example.com", bob) ∷ [] }

bob_created :
    create_user (env "") "bob@example.com" (some "secret") ("engineers" ∷ []) start
    ≡ (done bob, with_bob)
unfolding create_user put_user hashed
bob_created = refl

abbrev no_failures : Attempts
no_failures = record { failures = []; waited = [] }

no_such_user :
    authenticate_user login "eve@example.com" "secret" start no_failures
    ≡ rejected login "eve@example.com" no_failures
unfolding authenticate_user
no_such_user = refl

authenticate_user-create_user_example :
    (bob.groups ≡ "engineers" ∷ [])
    × (authenticate_user login "bob@example.com" "guess" with_bob no_failures ≡ (
        if str_eq "guess" "secret"
        then accepted login bob no_failures
        else rejected login "bob@example.com" no_failures))
authenticate_user-create_user_example =
    authenticate_user-create_user login (env "") "bob@example.com" "secret" "guess"
      ("engineers" ∷ []) start with_bob bob no_failures refl refl bob_created

-- Bob fails twice, with a failure of Eve between, and logs in then.
abbrev logins : List LoginAttempt
logins =
    record { username = "bob@example.com"; password = "guess"; store = with_bob }
    ∷ record { username = "eve@example.com"; password = "guess"; store = with_bob }
    ∷ record { username = "bob@example.com"; password = "letmein"; store = with_bob }
    ∷ record { username = "bob@example.com"; password = "secret"; store = with_bob }
    ∷ []

logins_answered :
    (authenticate_each login logins no_failures).0
    ≡ ("bob@example.com", false)
      ∷ ("eve@example.com", false)
      ∷ ("bob@example.com", false)
      ∷ ("bob@example.com", true)
      ∷ []
unfolding authenticate_user wait_after_authentication_failure
logins_answered = refl

waits_of-authenticate_each_example :
    let r = authenticate_each login logins no_failures in
    (num_password_failures "bob@example.com" r.1 ≡ refusals "bob@example.com" r.0 + 0)
    × (waits_of "bob@example.com" r.1.waited ≡ squares 0 (refusals "bob@example.com" r.0) [])
waits_of-authenticate_each_example =
    waits_of-authenticate_each login "bob@example.com" logins no_failures
