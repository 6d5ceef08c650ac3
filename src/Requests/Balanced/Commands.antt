-- ===== src/Requests/Balanced/Commands.antt =====
-- Every command keeps the books of its response.
use consoleme.Base.{
  ℕ, String, ◌≡◌, refl, ap, Bool, true, false, Option, none, some, List, [], arith,
}
use consoleme.Models.{
  Principal, Detail, resource_policy, sts_resource_policy, resource_tag, managed_policy_resource,
  TagChange, ResourceChange, ManagedResourceChange, RequestStatus, Change, Request, Response,
  Modification,
}
use consoleme.Requests.World.{Call, Failure, Env, Work, Error, Result, succeed, fail}
use consoleme.Requests.Flow.{
  State, on_changes, edit, note, called, call, recorded, update_dynamo_with_change,
}
use consoleme.Requests.Keeps.{Laws, Keeps, flow_rules}
use consoleme.Requests.Complete.{
  edit_change, refresh_role, announce, announce_status, announce_settled,
  maybe_approve_reject_request,
}
use consoleme.Requests.Branches.{
  populate_all, refresh_principal, through_role, mark, through_resource, retagged, through_tag,
  through_managed, dispatch,
}
use consoleme.Requests.Refusal.{authorized}
use consoleme.Requests.Modify.{
  comment, if_fresh, fresh_change, update, persist_applied, apply, cancel, close_as, close, approve,
  reopen, execute, parse_and_apply_policy_request_modification,
}
use consoleme.Requests.Balanced.{
  Balanced, Balanced-refl, Balanced-trans, errors_in, succeed-Balanced, fail-Balanced,
}
use consoleme.Requests.Balanced.Roles.{perform-Balanced, apply_changes_to_role-Balanced}
use consoleme.Requests.Balanced.Resources.{
  apply_resource_policy_change-Balanced, apply_non_iam_resource_tag_change-Balanced,
  apply_managed_policy_resource_tag_change-Balanced,
}
use consoleme.Requests.Balanced.Policies.{
  populate_old_policies-Balanced, apply_managed_policy_resource_change-Balanced,
}

abbrev Books : State → State → Type 0
Books s t = Balanced s.work t.work

Books-Laws : Laws Books
Books-Laws = record {
  same = λ s. Balanced-refl s.work;
  chain = λ s t u. Balanced-trans s.work t.work u.work;
}

Books-edit : (f : Request → Request) → Keeps Books (edit f)
unfolding edit
Books-edit f = record { keeps = λ s. refl }

Books-edit_change : (id : String) (f : Change → Change) → Keeps Books (edit_change id f)
unfolding edit_change
Books-edit_change id f = Books-edit _

Books-fail : (message : String) → Keeps Books (note (fail message))
unfolding note
Books-fail message = record { keeps = λ s. fail-Balanced message s.work }

called-Books :
    (s : State) (p : Option Failure × Work) → Balanced s.work p.1 → Books s (called s p).1
unfolding called
called-Books s (none, w) h = h
called-Books s (some f, w) h = h

Books-call : (e : Env) (c : Request → Call) → Keeps Books (call e c)
unfolding call
Books-call e c = record { keeps = λ s. called-Books s _ (perform-Balanced e _ s.work) }

recorded-Balanced :
    (good bad : String) (v : Bool) (w : Work) (p : Option Failure × Work)
    → Balanced w p.1
    → Balanced w (recorded good bad v p)
unfolding recorded
recorded-Balanced good bad v w (none, u) h =
    Balanced-trans w u (succeed good v u) h (succeed-Balanced good v u)
recorded-Balanced good bad v w (some f, u) h = Balanced-trans w u (fail _ u) h (fail-Balanced _ u)

Books-dynamo :
    (e : Env) (good bad : String) (v : Bool) → Keeps Books (update_dynamo_with_change e good bad v)
unfolding update_dynamo_with_change
Books-dynamo e good bad v = record {
  keeps = λ s. recorded-Balanced good bad v s.work _ (perform-Balanced e _ s.work);
}

Books-on_changes :
    {A : Type 0} (f : Request → Work → Result A × List Change × Work)
    → ((r : Request) (w : Work) → Balanced w (f r w).2)
    → Keeps Books (on_changes f)
unfolding on_changes
Books-on_changes f h = record { keeps = λ s. h s.request s.work }

ruleset books_rules = (
  flow_rules, Books-Laws, Books-edit, Books-edit_change, Books-fail, Books-call, Books-dynamo,
  Books-on_changes,
)

module _ (e : Env) where
  Books-populate_all : Keeps Books (populate_all e)
  unfolding populate_all
  Books-populate_all = search (books_rules, populate_old_policies-Balanced)

  Books-refresh_principal : Keeps Books (refresh_principal e)
  unfolding refresh_principal
  Books-refresh_principal = search books_rules depth 12

  Books-through_role : (id : String) → Keeps Books (through_role e id)
  unfolding through_role
  Books-through_role id =
      search
        (books_rules, Books-populate_all, Books-refresh_principal, apply_changes_to_role-Balanced)
        depth 12

  Books-mark : (id : String) (done : Bool) → Keeps Books (mark e id done)
  unfolding mark
  Books-mark id true = search books_rules
  Books-mark id false = search books_rules

  Books-retagged : (id : String) (p : TagChange × Bool) → Keeps Books (retagged e id p)
  unfolding retagged
  Books-retagged id (t, done) = search (books_rules, Books-mark) depth 12

  Books-through_resource :
      (id : String) (sts : Bool) (rc : ResourceChange) → Keeps Books (through_resource e id sts rc)
  unfolding through_resource
  Books-through_resource id sts rc =
      search (books_rules, Books-mark, apply_resource_policy_change-Balanced) depth 12

  Books-through_tag :
      (id : String) (t : TagChange) (arn : String) → Keeps Books (through_tag e id t arn)
  unfolding through_tag
  Books-through_tag id t arn =
      search
        (
          books_rules, Books-retagged, Books-through_role,
          apply_non_iam_resource_tag_change-Balanced,
          apply_managed_policy_resource_tag_change-Balanced,
        )
        depth 12

  Books-through_managed :
      (id : String) (m : ManagedResourceChange) → Keeps Books (through_managed e id m)
  unfolding through_managed
  Books-through_managed id m =
      search (books_rules, Books-mark, apply_managed_policy_resource_change-Balanced) depth 12

  Books-dispatch : (id : String) (p : Principal) (d : Detail) → Keeps Books (dispatch e id p d)
  unfolding dispatch
  Books-dispatch id p (resource_policy rc) = Books-through_resource id false rc
  Books-dispatch id p (sts_resource_policy rc) = Books-through_resource id true rc
  Books-dispatch id p (resource_tag t) = search (books_rules, Books-through_tag) depth 12
  Books-dispatch id p (managed_policy_resource m) = Books-through_managed id m
  Books-dispatch id p _ = Books-through_role id

  Books-if_fresh : (found : Option Change) → Keeps Books (if_fresh found)
  unfolding if_fresh
  Books-if_fresh none = search books_rules
  Books-if_fresh (some c) = search books_rules

  Books-fresh_change : (id : String) → Keeps Books (fresh_change id)
  unfolding fresh_change
  Books-fresh_change id = search (books_rules, Books-if_fresh) depth 12

  module _ (user : String) where
    Books-persist_applied :
        (id : String) (found : Option Change) → Keeps Books (persist_applied e user id found)
    unfolding persist_applied
    Books-persist_applied id none = search books_rules
    Books-persist_applied id (some c) = search books_rules depth 12

    Books-close_as :
        (status : RequestStatus) (good bad : String) → Keeps Books (close_as e user status good bad)
    unfolding close_as
    Books-close_as status good bad = search books_rules depth 20

    Books-close :
        (verb : String) (status : RequestStatus) (good bad : String)
        → Keeps Books (close e user verb status good bad)
    unfolding close
    Books-close verb status good bad = search (books_rules, Books-close_as) depth 20

    Books-execute : (cmd : Modification) → Keeps Books (execute e user cmd)
    unfolding execute comment update apply cancel approve reopen
    Books-execute (Modification.add_comment text) = search books_rules depth 20
    Books-execute (Modification.update_change id doc) =
        search (books_rules, Books-fresh_change) depth 20
    Books-execute (Modification.apply_change id doc) =
        search (books_rules, Books-fresh_change, Books-dispatch, Books-persist_applied) depth 20
    Books-execute (Modification.cancel_change id) =
        search (books_rules, Books-fresh_change) depth 20
    Books-execute Modification.cancel_request = Books-close _ _ _ _
    Books-execute Modification.reject_request = Books-close _ _ _ _
    Books-execute Modification.move_back_to_pending = search books_rules depth 20
    Books-execute Modification.approve_request =
        search (books_rules, Books-populate_all, Books-refresh_principal) depth 30

    Books-refresh_role : (r : Request) → Keeps Books (refresh_role e user r)
    unfolding refresh_role
    Books-refresh_role r = search books_rules depth 12

    Books-announce_settled :
        (settled : Option RequestStatus) → Keeps Books (announce_settled e user settled)
    unfolding announce_settled announce_status announce
    Books-announce_settled none = search books_rules
    Books-announce_settled (some status) = search (books_rules, Books-refresh_role) depth 30

    Books-maybe_approve : Keeps Books (maybe_approve_reject_request e user)
    unfolding maybe_approve_reject_request
    Books-maybe_approve = search (books_rules, Books-announce_settled) depth 12

Books-authorized : (x : Option Error) → Keeps Books (authorized x)
unfolding authorized
Books-authorized none = search books_rules
Books-authorized (some err) = search books_rules

Books-modification :
    (e : Env) (cmd : Modification) (user : String) (groups : List String) (last_updated : ℕ)
    (probe : Bool)
    → Keeps Books (parse_and_apply_policy_request_modification e cmd user groups last_updated probe)
unfolding parse_and_apply_policy_request_modification
Books-modification e cmd user groups last_updated probe =
    search (books_rules, Books-authorized, Books-execute, Books-maybe_approve) depth 20

-- A response that starts empty counts exactly the errors that its results report, whatever the command,
-- and whether or not it ends in an exception.
pub errors-modification :
    (e : Env) (cmd : Modification) (user : String) (groups : List String) (last_updated : ℕ)
    (probe : Bool) (s : State)
    → s.work.response ≡ record { errors = 0; action_results = [] }
    → let (r, t) =
        parse_and_apply_policy_request_modification e cmd user groups last_updated probe s in
      t.work.response.errors ≡ errors_in t.work.response.action_results
errors-modification e cmd user groups last_updated probe s h = omega (
  arith,
  (Books-modification e cmd user groups last_updated probe).keeps s,
  ap (λ (x : Response). x.errors) h,
  ap (λ (x : Response). errors_in x.action_results) h,
)
