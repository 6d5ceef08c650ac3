-- ===== src/Requests/Quiet.antt =====
-- Which commands may write to AWS.
use consoleme.Base.{
  ℕ, String, ◌≡◌, ◌≢◌, refl, ◌∙◌, Bool, true, false, Option, none, some, List, [], ◌∷◌,
  if◌then◌else◌,
}
use consoleme.Json.{Json}
use consoleme.Models.{
  Principal, aws_resource, honeybee, Change, Request, RequestStatus, Modification,
}
use consoleme.Requests.World.{
  Kind, Call, connect, get_details, get_managed_policy_document, fetch_resource_details,
  fetch_iam_role, get_queue_url, write_policy_request, send_status_update, send_new_comment,
  Failure, Env, Work, Error, Result, perform, succeed, fail,
}
use consoleme.Requests.Old.{populate_found, populate_from, populate_arn, populate_old_policies}
use consoleme.Requests.Flow.{
  State, on_changes, edit, note, called, call, recorded, update_dynamo_with_change,
}
use consoleme.Requests.Keeps.{Laws, Keeps, flow_rules}
use consoleme.Requests.Complete.{
  edit_change, refresh_role, announce, announce_status, announce_settled,
  maybe_approve_reject_request,
}
use consoleme.Requests.Branches.{populate_all, refresh_principal}
use consoleme.Requests.Refusal.{authorized}
use consoleme.Requests.Modify.{
  comment, if_fresh, fresh_change, update, cancel, close_as, close, approve, reopen, execute,
  parse_and_apply_policy_request_modification,
}

-- A call that changes something in AWS.
abbrev pub is_aws_write : Call → Bool
is_aws_write (connect _ _ _) = false
is_aws_write (get_queue_url _) = false
is_aws_write (get_managed_policy_document _ _) = false
is_aws_write (fetch_resource_details _ _ _ _) = false
is_aws_write (get_details _ _ _) = false
is_aws_write (fetch_iam_role _ _) = false
is_aws_write (write_policy_request _) = false
is_aws_write (send_status_update _) = false
is_aws_write (send_new_comment _ _ _) = false
is_aws_write _ = true

-- The calls that change something in AWS, newest first.
abbrev pub aws_writes : List Call → List Call
aws_writes [] = []
aws_writes (c ∷ cs) = if is_aws_write c then c ∷ aws_writes cs else aws_writes cs

abbrev Quiet : State → State → Type 0
Quiet s t = aws_writes t.work.calls ≡ aws_writes s.work.calls

Quiet-Laws : Laws Quiet
Quiet-Laws = record { same = λ s. refl; chain = λ s t u h k. k ∙ h }

Quiet-edit : (f : Request → Request) → Keeps Quiet (edit f)
unfolding edit
Quiet-edit f = record { keeps = λ s. refl }

Quiet-edit_change : (id : String) (f : Change → Change) → Keeps Quiet (edit_change id f)
unfolding edit_change
Quiet-edit_change id f = Quiet-edit _

Quiet-fail : (message : String) → Keeps Quiet (note (fail message))
unfolding note fail
Quiet-fail message = record { keeps = λ s. refl }

called-calls : (s : State) (p : Option Failure × Work) → (called s p).1.work.calls ≡ p.1.calls
unfolding called
called-calls s (none, w) = refl
called-calls s (some f, w) = refl

Quiet-call :
    (e : Env) (c : Request → Call)
    → ((r : Request) → is_aws_write (c r) ≡ false)
    → Keeps Quiet (call e c)
unfolding call perform
Quiet-call e c h = record { keeps = λ s. rw (called-calls, h s.request) refl }

recorded-calls :
    (good bad : String) (v : Bool) (p : Option Failure × Work)
    → (recorded good bad v p).calls ≡ p.1.calls
unfolding recorded succeed fail
recorded-calls good bad v (none, u) = refl
recorded-calls good bad v (some f, u) = refl

Quiet-dynamo :
    (e : Env) (good bad : String) (v : Bool) → Keeps Quiet (update_dynamo_with_change e good bad v)
unfolding update_dynamo_with_change perform
Quiet-dynamo e good bad v = record { keeps = λ s. rw recorded-calls refl }

Quiet-on_changes :
    {A : Type 0} (f : Request → Work → Result A × List Change × Work)
    → ((r : Request) (w : Work) → aws_writes (f r w).2.calls ≡ aws_writes w.calls)
    → Keeps Quiet (on_changes f)
unfolding on_changes
Quiet-on_changes f h = record { keeps = λ s. h s.request s.work }

ruleset quiet_rules = (
  flow_rules, Quiet-Laws, Quiet-edit, Quiet-edit_change, Quiet-fail, Quiet-call, Quiet-dynamo,
  Quiet-on_changes,
)

module _ (e : Env) where
  populate_found-calls :
      (k : Kind) (account name : String) (cs : List Change) (p : Option Failure × Work)
      → (populate_found e k account name cs p).2.calls ≡ p.1.calls
  unfolding populate_found
  populate_found-calls k account name cs (some f, w) = refl
  populate_found-calls k account name cs (none, w) = refl

  populate_from-quiet :
      (k : Kind) (account name : String) (cs : List Change) (w : Work)
      → aws_writes (populate_from e k account name cs w).2.calls ≡ aws_writes w.calls
  unfolding populate_from perform
  populate_from-quiet k account name cs w = rw populate_found-calls refl

  if-quiet :
      (w : Work) (b : Bool) (x y : Result (Unit {0}) × List Change × Work)
      → aws_writes x.2.calls ≡ aws_writes w.calls
      → aws_writes y.2.calls ≡ aws_writes w.calls
      → aws_writes (if b then x else y).2.calls ≡ aws_writes w.calls
  if-quiet w true x y h k = h
  if-quiet w false x y h k = k

  populate_old_policies-quiet :
      (p : Principal) (cs : List Change) (w : Work)
      → aws_writes (populate_old_policies e p cs w).2.calls ≡ aws_writes w.calls
  unfolding populate_old_policies populate_arn
  populate_old_policies-quiet (aws_resource arn) cs w = search (if-quiet, populate_from-quiet)
  populate_old_policies-quiet (honeybee _ _ _) cs w = refl

  Quiet-populate_all : Keeps Quiet (populate_all e)
  unfolding populate_all
  Quiet-populate_all = search (quiet_rules, populate_old_policies-quiet)

  Quiet-status : Keeps Quiet (call e send_status_update)
  Quiet-status = Quiet-call e _ (λ r. refl)

  Quiet-refresh_principal : Keeps Quiet (refresh_principal e)
  unfolding refresh_principal
  Quiet-refresh_principal = search quiet_rules depth 12

  Quiet-if_fresh : (found : Option Change) → Keeps Quiet (if_fresh found)
  unfolding if_fresh
  Quiet-if_fresh none = search quiet_rules
  Quiet-if_fresh (some c) = search quiet_rules

  Quiet-fresh_change : (id : String) → Keeps Quiet (fresh_change id)
  unfolding fresh_change
  Quiet-fresh_change id = search (quiet_rules, Quiet-if_fresh) depth 12

  module _ (user : String) where
    Quiet-close_as :
        (status : RequestStatus) (good bad : String) → Keeps Quiet (close_as e user status good bad)
    unfolding close_as
    Quiet-close_as status good bad = search (quiet_rules, Quiet-status) depth 20

    Quiet-close :
        (verb : String) (status : RequestStatus) (good bad : String)
        → Keeps Quiet (close e user verb status good bad)
    unfolding close
    Quiet-close verb status good bad = search (quiet_rules, Quiet-close_as) depth 20

    Quiet-execute :
        (cmd : Modification)
        → ((id : String) (doc : Option Json) → cmd ≢ Modification.apply_change id doc)
        → Keeps Quiet (execute e user cmd)
    unfolding execute comment update cancel approve reopen
    Quiet-execute (Modification.add_comment text) h = search quiet_rules depth 20
    Quiet-execute (Modification.update_change id doc) h =
        search (quiet_rules, Quiet-fresh_change) depth 20
    Quiet-execute (Modification.apply_change id doc) h = elim (h id doc refl) [ ]
    Quiet-execute (Modification.cancel_change id) h =
        search (quiet_rules, Quiet-fresh_change) depth 20
    Quiet-execute Modification.cancel_request h = Quiet-close _ _ _ _
    Quiet-execute Modification.reject_request h = Quiet-close _ _ _ _
    Quiet-execute Modification.move_back_to_pending h = search quiet_rules depth 20
    Quiet-execute Modification.approve_request h =
        search (quiet_rules, Quiet-populate_all, Quiet-refresh_principal, Quiet-status) depth 30

    Quiet-refresh_role : (r : Request) → Keeps Quiet (refresh_role e user r)
    unfolding refresh_role
    Quiet-refresh_role r = search quiet_rules depth 12

    Quiet-announce_settled :
        (settled : Option RequestStatus) → Keeps Quiet (announce_settled e user settled)
    unfolding announce_settled announce_status announce
    Quiet-announce_settled none = search quiet_rules
    Quiet-announce_settled (some status) =
        search (quiet_rules, Quiet-refresh_role, Quiet-status) depth 30

    Quiet-maybe_approve : Keeps Quiet (maybe_approve_reject_request e user)
    unfolding maybe_approve_reject_request
    Quiet-maybe_approve = search (quiet_rules, Quiet-announce_settled) depth 12

Quiet-authorized : (x : Option Error) → Keeps Quiet (authorized x)
unfolding authorized
Quiet-authorized none = search quiet_rules
Quiet-authorized (some err) = search quiet_rules

Quiet-modification :
    (e : Env) (cmd : Modification) (user : String) (groups : List String) (last_updated : ℕ)
    (probe : Bool)
    → ((id : String) (doc : Option Json) → cmd ≢ Modification.apply_change id doc)
    → Keeps Quiet (parse_and_apply_policy_request_modification e cmd user groups last_updated probe)
unfolding parse_and_apply_policy_request_modification
Quiet-modification e cmd user groups last_updated probe h =
    search (quiet_rules, Quiet-authorized, Quiet-execute, Quiet-maybe_approve) depth 20

-- Only `apply_change` changes anything in AWS: every other command, whoever gives it and however it ends,
-- makes reads, writes the request to the database, and sends mail.
pub aws_writes-modification :
    (e : Env) (cmd : Modification) (user : String) (groups : List String) (last_updated : ℕ)
    (probe : Bool) (s : State)
    → ((id : String) (doc : Option Json) → cmd ≢ Modification.apply_change id doc)
    → let (r, t) =
        parse_and_apply_policy_request_modification e cmd user groups last_updated probe s in
      aws_writes t.work.calls ≡ aws_writes s.work.calls
aws_writes-modification e cmd user groups last_updated probe s h =
    (Quiet-modification e cmd user groups last_updated probe h).keeps s
