-- ===== src/Requests/Closed/Settles.antt =====
-- What `maybe_approve_reject_request` makes of the status, in terms of the changes.
use consoleme.Base.{
  String, ◌≡◌, refl, arith, ap, ◌↔◌, ◌⊎◌, inl, inr, Bool, true, false, Option, none, some, List, [],
  ◌∷◌, any, Some, Bool-cases,
}
use consoleme.Models.{
  RequestStatus, Status, ResourceChange, Detail, resource_policy, sts_resource_policy, Change,
  is_applied, is_not_applied,
}
use consoleme.Requests.World.{Env}
use consoleme.Requests.Flow.{State}
use consoleme.Requests.Select.{
  any_applied, any_pending, any_cancelled, settled_status, is_pending, is_cancelled,
  is_unsupported_resource,
}
use consoleme.Requests.Complete.{maybe_approve_reject_request}
use consoleme.Requests.Closed.Status.{or_current, maybe_approve_reject_request-standing}

-- The policy of a resource that ConsoleMe cannot change.
pub data IsForOthers : Detail → Type 0 where
  a_policy : {rc : ResourceChange} → rc.supported ≡ some false → IsForOthers (resource_policy rc)
  a_trust : {rc : ResourceChange} → rc.supported ≡ some false → IsForOthers (sts_resource_policy rc)

-- A change that is left to do: a user wrote it, and ConsoleMe can apply it.
abbrev pub IsLeft : Change → Type 0
IsLeft c = (c.status ≡ Status.not_applied) × ((c.autogenerated ≡ false) × ¬ IsForOthers c.detail)

abbrev pub IsApplied : Change → Type 0
IsApplied c = c.status ≡ Status.applied

abbrev pub IsCancelled : Change → Type 0
IsCancelled c = c.status ≡ Status.cancelled

-- The status that a request with these changes has then, if it had this one before.
pub data Settles (cs : List Change) (before : RequestStatus) : RequestStatus → Type 0 where
  unsettled : Some IsLeft cs → Settles cs before before
  approved : ¬ Some IsLeft cs → Some IsApplied cs → Settles cs before RequestStatus.approved
  cancelled :
      ¬ Some IsLeft cs
      → ¬ Some IsApplied cs
      → Some IsCancelled cs
      → Settles cs before RequestStatus.cancelled
  empty : ¬ Some IsLeft cs → ¬ Some IsApplied cs → ¬ Some IsCancelled cs → Settles cs before before

applied_iff : (st : Status) → (is_applied st ≡ true) ↔ (st ≡ Status.applied)
applied_iff Status.applied = (λ h. refl, λ h. refl)
applied_iff Status.not_applied = (λ h. cc, λ h. cc)
applied_iff Status.cancelled = (λ h. cc, λ h. cc)

cancelled_iff : (st : Status) → (is_cancelled st ≡ true) ↔ (st ≡ Status.cancelled)
cancelled_iff Status.applied = (λ h. cc, λ h. cc)
cancelled_iff Status.not_applied = (λ h. cc, λ h. cc)
cancelled_iff Status.cancelled = (λ h. refl, λ h. refl)

not_applied_iff : (st : Status) → (is_not_applied st ≡ true) ↔ (st ≡ Status.not_applied)
not_applied_iff Status.applied = (λ h. cc, λ h. cc)
not_applied_iff Status.not_applied = (λ h. refl, λ h. refl)
not_applied_iff Status.cancelled = (λ h. cc, λ h. cc)

-- `change.supported is False`
supported_cases :
    (o : Option Bool) (rc : ResourceChange)
    → rc.supported ≡ o
    → ((is_unsupported_resource (resource_policy rc) ≡ true) × (o ≡ some false))
      ⊎ ((is_unsupported_resource (resource_policy rc) ≡ false) × ¬ (o ≡ some false))
unfolding is_unsupported_resource
supported_cases none rc h = inr (rw h refl, λ k. cc)
supported_cases (some true) rc h = inr (rw h refl, λ k. cc)
supported_cases (some false) rc h = inl (rw h refl, refl)

IsForOthers-cases :
    (d : Detail)
    → ((is_unsupported_resource d ≡ true) × IsForOthers d)
      ⊎ ((is_unsupported_resource d ≡ false) × ¬ IsForOthers d)
unfolding is_unsupported_resource
IsForOthers-cases (resource_policy rc) = elim (supported_cases rc.supported rc refl) [
  | inl (b, p) ↦ inl (b, a_policy p)
  | inr (b, p) ↦ inr (b, λ h. elim h [ a_policy k ↦ p k ])
]
IsForOthers-cases (sts_resource_policy rc) = elim (supported_cases rc.supported rc refl) [
  | inl (b, p) ↦ inl (b, a_trust p)
  | inr (b, p) ↦ inr (b, λ h. elim h [ a_trust k ↦ p k ])
]
IsForOthers-cases _ = inr (refl, λ h. elim h [ ])

IsLeft-iff : (c : Change) → (is_pending c ≡ true) ↔ IsLeft c
unfolding is_pending
IsLeft-iff c = elim (IsForOthers-cases c.detail) [
  | inl (b, p) ↦ (λ h. absurd (ground (arith, b, h)), λ h. absurd (h.1.1 p))
  | inr (b, p) ↦ (
    λ h. ((not_applied_iff c.status).0 (ground (arith, b, h)), (ground (arith, b, h), p)),
    λ h. ground (arith, b, (not_applied_iff c.status).1 h.0, h.1.0),
  )
]

module _ (p : Change → Bool) (P : Change → Type 0) (h : (c : Change) → (p c ≡ true) ↔ P c) where
  any_cases :
      (cs : List Change) → ((any p cs ≡ true) × Some P cs) ⊎ ((any p cs ≡ false) × ¬ Some P cs)
  any_cases [] = inr (refl, λ k. k)
  any_cases (c ∷ cs) = elim (Bool-cases (p c)) [
    | inl e ↦ inl (rw e refl, inl ((h c).0 e))
    | inr e ↦ elim (any_cases cs) [
      | inl (b, k) ↦ inl (rw (e, b) refl, inr k)
      | inr (b, k) ↦ inr (rw (e, b) refl, λ x. elim x [ inl y ↦ cc ((h c).1 y) | inr y ↦ k y ])
    ]
  ]

settled_status-Settles :
    (cs : List Change) (before : RequestStatus)
    → Settles cs before (or_current (settled_status cs) before)
unfolding settled_status any_pending any_applied any_cancelled
settled_status-Settles cs before = elim (any_cases is_pending IsLeft IsLeft-iff cs) [
  | inl (b, k) ↦ rw b (unsettled k)
  | inr (b, k) ↦ elim (any_cases _ IsApplied (λ c. applied_iff c.status) cs) [
    | inl (d, l) ↦ rw (b, d) (approved k l)
    | inr (d, l) ↦ elim (any_cases _ IsCancelled (λ c. cancelled_iff c.status) cs) [
      | inl (f, m) ↦ rw (b, d, f) (cancelled k l m)
      | inr (f, m) ↦ rw (b, d, f) (empty k l m)
    ]
  ]
]

-- Whatever raises, maybe_approve_reject_request leaves the changes as they are. If one of them is left to do,
-- the status stays; else the request is approved if one is applied, and cancelled if none is applied and one is
-- cancelled.
pub maybe_approve_reject_request-Settles :
    (e : Env) (user : String) (s : State)
    → let r = (maybe_approve_reject_request e user s).1.request in
      (r.changes ≡ s.request.changes)
      × Settles s.request.changes s.request.request_status r.request_status
maybe_approve_reject_request-Settles e user s =
    let both = maybe_approve_reject_request-standing e user s in
    (
      ap (λ x. x.1) both,
      rw (ap (λ x. x.0) both) (settled_status-Settles s.request.changes s.request.request_status),
    )
