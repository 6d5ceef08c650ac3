-- ===== src/Requests/Same.antt =====
-- A part of the request that lies outside its changes stays the same while one of them is updated, applied
-- or cancelled.
use consoleme.Base.{String, ◌≡◌, refl, ◌∙◌, Bool, true, false, Option, none, some, List}
use consoleme.Json.{Json}
use consoleme.Models.{
  Principal, Detail, resource_policy, sts_resource_policy, resource_tag, managed_policy_resource,
  TagChange, ResourceChange, ManagedResourceChange, Change, Request,
}
use consoleme.Requests.World.{Call, Failure, Env, Work, Error, Result}
use consoleme.Requests.Flow.{State, on_changes, edit, note, called, call, update_dynamo_with_change}
use consoleme.Requests.Keeps.{Laws, Keeps, flow_rules}
use consoleme.Requests.Complete.{edit_change}
use consoleme.Requests.Branches.{
  populate_all, refresh_principal, through_role, mark, through_resource, retagged, through_tag,
  through_managed, dispatch,
}
use consoleme.Requests.Refusal.{authorized}
use consoleme.Requests.Modify.{if_fresh, fresh_change, update, persist_applied, apply, cancel}

abbrev pub Same : {X : Type 0} → (Request → X) → State → State → Type 0
Same view s t = view t.request ≡ view s.request

pub Same-Laws : {X : Type 0} (view : Request → X) → Laws (Same view)
Same-Laws view = record { same = λ s. refl; chain = λ s t u h k. k ∙ h }

-- The view does not look at the changes.
pub record IsAside {X : Type 0} (view : Request → X) : Type 0 where
  pub aside : (r : Request) (cs : List Change) → view (record r { changes = cs }) ≡ view r

module _ {X : Type 0} (view : Request → X) where
  pub Same-edit :
      (f : Request → Request) → ((r : Request) → view (f r) ≡ view r) → Keeps (Same view) (edit f)
  unfolding edit
  Same-edit f h = record { keeps = λ s. h s.request }

  pub Same-note : (f : Work → Work) → Keeps (Same view) (note f)
  unfolding note
  Same-note f = record { keeps = λ s. refl }

  called-Same : (s : State) (p : Option Failure × Work) → Same view s (called s p).1
  unfolding called
  called-Same s (none, w) = refl
  called-Same s (some f, w) = refl

  pub Same-call : (e : Env) (c : Request → Call) → Keeps (Same view) (call e c)
  unfolding call
  Same-call e c = record { keeps = λ s. called-Same s _ }

  pub Same-dynamo :
      (e : Env) (a b : String) (v : Bool) → Keeps (Same view) (update_dynamo_with_change e a b v)
  unfolding update_dynamo_with_change
  Same-dynamo e a b v = record { keeps = λ s. refl }

  pub Same-on_changes :
      IsAside view
      → {A : Type 0} (f : Request → Work → Result A × List Change × Work)
      → Keeps (Same view) (on_changes f)
  unfolding on_changes
  Same-on_changes h f = record { keeps = λ s. h.aside s.request (f s.request s.work).1 }

  pub Same-edit_change :
      IsAside view → (id : String) (f : Change → Change) → Keeps (Same view) (edit_change id f)
  unfolding edit_change edit
  Same-edit_change h id f = record { keeps = λ s. h.aside s.request _ }

pub ruleset same_rules =
    (flow_rules, Same-Laws, Same-note, Same-call, Same-dynamo, Same-on_changes, Same-edit_change)

module _ {X : Type 0} (view : Request → X) (h : IsAside view) (e : Env) where
  pub Same-populate_all : Keeps (Same view) (populate_all e)
  unfolding populate_all
  Same-populate_all = search same_rules

  pub Same-refresh_principal : Keeps (Same view) (refresh_principal e)
  unfolding refresh_principal
  Same-refresh_principal = search same_rules depth 12

  Same-through_role : (id : String) → Keeps (Same view) (through_role e id)
  unfolding through_role
  Same-through_role id = search (same_rules, Same-populate_all, Same-refresh_principal) depth 12

  Same-mark : (id : String) (done : Bool) → Keeps (Same view) (mark e id done)
  unfolding mark
  Same-mark id true = search same_rules
  Same-mark id false = search same_rules

  Same-retagged : (id : String) (p : TagChange × Bool) → Keeps (Same view) (retagged e id p)
  unfolding retagged
  Same-retagged id (t, done) = search (same_rules, Same-mark) depth 12

  Same-through_resource :
      (id : String) (sts : Bool) (rc : ResourceChange)
      → Keeps (Same view) (through_resource e id sts rc)
  unfolding through_resource
  Same-through_resource id sts rc = search (same_rules, Same-mark) depth 12

  Same-through_tag :
      (id : String) (t : TagChange) (arn : String) → Keeps (Same view) (through_tag e id t arn)
  unfolding through_tag
  Same-through_tag id t arn = search (same_rules, Same-retagged, Same-through_role) depth 12

  Same-through_managed :
      (id : String) (m : ManagedResourceChange) → Keeps (Same view) (through_managed e id m)
  unfolding through_managed
  Same-through_managed id m = search (same_rules, Same-mark) depth 12

  Same-dispatch : (id : String) (p : Principal) (d : Detail) → Keeps (Same view) (dispatch e id p d)
  unfolding dispatch
  Same-dispatch id p (resource_policy rc) = Same-through_resource id false rc
  Same-dispatch id p (sts_resource_policy rc) = Same-through_resource id true rc
  Same-dispatch id p (resource_tag t) = search (same_rules, Same-through_tag) depth 12
  Same-dispatch id p (managed_policy_resource m) = Same-through_managed id m
  Same-dispatch id p _ = Same-through_role id

  Same-if_fresh : (found : Option Change) → Keeps (Same view) (if_fresh found)
  unfolding if_fresh
  Same-if_fresh none = search same_rules
  Same-if_fresh (some c) = search same_rules

  Same-fresh_change : (id : String) → Keeps (Same view) (fresh_change id)
  unfolding fresh_change
  Same-fresh_change id = search (same_rules, Same-if_fresh) depth 12

  module _ (user : String) where
    pub Same-update : (id : String) (doc : Json) → Keeps (Same view) (update e user id doc)
    unfolding update
    Same-update id doc = search (same_rules, Same-fresh_change) depth 20

    Same-persist_applied :
        (id : String) (found : Option Change) → Keeps (Same view) (persist_applied e user id found)
    unfolding persist_applied
    Same-persist_applied id none = search same_rules
    Same-persist_applied id (some c) = search same_rules depth 12

    pub Same-apply : (id : String) (doc : Option Json) → Keeps (Same view) (apply e user id doc)
    unfolding apply
    Same-apply id doc =
        search (same_rules, Same-fresh_change, Same-dispatch, Same-persist_applied) depth 20

    pub Same-cancel : (id : String) → Keeps (Same view) (cancel e user id)
    unfolding cancel
    Same-cancel id = search (same_rules, Same-fresh_change) depth 20

  pub Same-authorized : (x : Option Error) → Keeps (Same view) (authorized x)
  unfolding authorized
  Same-authorized none = search same_rules
  Same-authorized (some err) = search same_rules
