-- ===== src/Requests/Update.antt =====
-- `update_change` and `cancel_change`, where the change is found and nothing raises before the database.
use consoleme.Base.{
  String, ◌≡◌, refl, Bool, true, false, Option, none, some, List, [], ◌∷◌, arith, str_eq, eq_iff,
  eq_refl, if◌then◌else◌,
}
use consoleme.Json.{Json}
use consoleme.Models.{
  PolicyModel, InlineChange, AssumeRoleChange, ResourceChange, ManagedResourceChange, Detail,
  inline_policy, resource_policy, sts_resource_policy, assume_role_policy, managed_policy_resource,
  Change, is_not_applied,
}
use consoleme.Requests.World.{
  write_policy_request, Failure, Env, Work, Result, ok, perform, succeed, fail,
}
use consoleme.Requests.Select.{get_specific_change, update_specific}
use consoleme.Requests.Flow.{
  State, pure, gets, lift, edit, ◌>>=◌, check, recorded, update_dynamo_with_change,
}
use consoleme.Requests.Complete.{Done, edit_change}
use consoleme.Requests.Modify.{if_fresh, fresh_change, called_off, cancel}

-- The change that is edited is the one that is found, and an edit that keeps its id leaves what is found by
-- any other id as it was.
get_specific_change-update_specific :
    (id other : String) (f : Change → Change)
    → ((c : Change) → (f c).id ≡ c.id)
    → (cs : List Change)
    → get_specific_change other (update_specific id f cs) ≡ (
        if str_eq other id
        then elim (get_specific_change id cs) [ none ↦ none | some c ↦ some (f c) ]
        else get_specific_change other cs)
unfolding get_specific_change update_specific
get_specific_change-update_specific id other f h [] = ground arith
get_specific_change-update_specific id other f h (c ∷ cs) = ground (
  arith,
  get_specific_change-update_specific id other f h cs,
  h c,
  eq_iff c.id id,
  eq_iff other id,
  eq_iff c.id other,
  eq_iff (f c).id other,
)

edited_found :
    (id : String) (f : Change → Change)
    → ((c : Change) → (f c).id ≡ c.id)
    → (cs : List Change) (c : Change) → get_specific_change id cs ≡ some c
    → get_specific_change id (update_specific id f cs) ≡ some (f c)
edited_found id f h cs c found =
    rw (get_specific_change-update_specific id id f h cs, eq_refl, found) refl

recorded-calls :
    (good bad : String) (v : Bool) (p : Option Failure × Work)
    → (recorded good bad v p).calls ≡ p.1.calls
unfolding recorded succeed fail
recorded-calls good bad v (none, u) = refl
recorded-calls good bad v (some f, u) = refl

-- There is a policy whose document may be replaced.
abbrev pub HasPolicy : Detail → Type 0
HasPolicy (inline_policy ch) = (m : PolicyModel) × (ch.policy ≡ some m)
HasPolicy (assume_role_policy ch) = (m : PolicyModel) × (ch.policy ≡ some m)
HasPolicy (managed_policy_resource ch) = (m : PolicyModel) × (ch.policy ≡ some m)
HasPolicy (resource_policy rc) = Unit
HasPolicy (sts_resource_policy rc) = Unit
HasPolicy _ = ⊥

-- The same detail with this document in its policy.
pub data Rewritten (doc : Json) : Detail → Detail → Type 0 where
  inline :
      {ch : InlineChange} {m : PolicyModel}
      → ch.policy ≡ some m
      → Rewritten doc
          (inline_policy ch)
          (inline_policy (record ch { policy = some (record m { policy_document = doc }) }))
  assume :
      {ch : AssumeRoleChange} {m : PolicyModel}
      → ch.policy ≡ some m
      → Rewritten doc
          (assume_role_policy ch)
          (assume_role_policy (record ch { policy = some (record m { policy_document = doc }) }))
  managed :
      {ch : ManagedResourceChange} {m : PolicyModel}
      → ch.policy ≡ some m
      → Rewritten doc (managed_policy_resource ch) (
          managed_policy_resource
            (record ch { policy = some (record m { policy_document = doc }) }))
  resource :
      {rc : ResourceChange}
      → Rewritten doc
          (resource_policy rc)
          (resource_policy (record rc { policy = record rc.policy { policy_document = doc } }))
  trust :
      {rc : ResourceChange}
      → Rewritten doc
          (sts_resource_policy rc)
          (sts_resource_policy (record rc { policy = record rc.policy { policy_document = doc } }))

-- The policy of a resource that a user edits counts as the user's.
abbrev pub generated_still : Detail → Bool → Bool
generated_still (resource_policy rc) b = false
generated_still (sts_resource_policy rc) b = false
generated_still _ b = b

pub record Edited (user : String) (doc : Json) (c d : Change) : Type 0 where
  pub id : d.id ≡ c.id
  pub of_principal : d.principal ≡ c.principal
  pub status : d.status ≡ c.status
  pub updated_by : d.updated_by ≡ some user
  pub autogenerated : d.autogenerated ≡ generated_still c.detail c.autogenerated
  pub detail : Rewritten doc c.detail d.detail

module _ (e : Env) (user id : String) where
  called_off-id : (c : Change) → (called_off e user c).id ≡ c.id
  unfolding called_off
  called_off-id c = refl

  -- What the command leaves, and that this is what it sent to the database, in its only call.
  abbrev pub Stored : State → Change → Result Done × State → Type 0
  Stored s d p =
      (p.0 ≡ ok tt)
      × ((get_specific_change id p.1.request.changes ≡ some d)
          × (p.1.work.calls ≡ write_policy_request p.1.request ∷ s.work.calls))

  -- What is left of the update of a change: the edited one, and that it was stored.
  pub record Updates (doc : Json) (s : State) (c : Change) (p : Result Done × State) : Type 0 where
    pub new_change : Change
    pub is_edited : Edited user doc c new_change
    pub is_stored : Stored s new_change p

  -- A change that is not applied is cancelled, the request with it is sent to the database, and nothing else is called.
  cancel-Stored :
      (s : State) (c : Change)
      → get_specific_change id s.request.changes ≡ some c
      → is_not_applied c.status ≡ true
      → Stored s (called_off e user c) (cancel e user id s)
  unfolding cancel fresh_change if_fresh gets pure check lift edit_change edit
      update_dynamo_with_change perform ◌>>=◌
  cancel-Stored s c found fresh =
      rw (found, fresh) (refl, (edited_found id _ called_off-id _ c found, rw recorded-calls refl))
