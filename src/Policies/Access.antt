-- ===== src/Policies/Access.antt =====
-- Who may change a request, and when.
use consoleme.Base.{
  ℕ, ◌+◌, ◌-◌, ◌≤◌, String, ◌≡◌, refl, ◌↔◌, ◌⊎◌, inl, inr, Bool, true, false, List, arith, ltb,
  str_eq, eq_iff, Bool-cases, if◌then◌else◌,
}
use consoleme.Config.{Config}
use consoleme.Auth.{can_admin_policies}
use consoleme.Models.{RequestStatus}
use consoleme.Policies.{can_update_cancel_requests_v2, can_move_back_to_pending_v2, day}

-- `last_updated < now - day`, on numbers that do not go below zero.
not_expired :
    (now last_updated : ℕ) → (ltb last_updated (now - day) ≡ false) ↔ (now ≤ last_updated + day)
not_expired now last_updated = (λ h. ground arith, λ h. ground arith)

admin_in_time :
    (b d : Bool) {P : Type 0}
    → (b ≡ false) ↔ P
    → ((if b then false else d) ≡ true) ↔ (P × (d ≡ true))
admin_in_time true d h = (λ k. cc, λ (p, k). cc (h.1 p))
admin_in_time false d h = (λ k. (h.0 refl, k), λ (p, k). k)

with_left : {A P Q : Type 0} → A → P ↔ Q → P ↔ (A × Q)
with_left a h = (λ p. (a, h.0 p), λ (x, q). h.1 q)

-- Exactly when a request may be moved back to pending: it is cancelled or rejected, its last update is not
-- more than a day old, and the user administers policies. Having made the request is not enough.
pub can_move_back_to_pending_v2_iff :
    (c : Config) (now : ℕ) (status : RequestStatus) (last_updated : ℕ) (user : String)
    (groups : List String)
    → (can_move_back_to_pending_v2 c now status last_updated user groups ≡ true) ↔ (
        ((status ≡ RequestStatus.cancelled) ⊎ (status ≡ RequestStatus.rejected))
        × ((now ≤ last_updated + day) × (can_admin_policies c user groups ≡ true)))
unfolding can_move_back_to_pending_v2
can_move_back_to_pending_v2_iff c now RequestStatus.cancelled last_updated user groups =
    with_left (inl refl) (admin_in_time _ _ (not_expired now last_updated))
can_move_back_to_pending_v2_iff c now RequestStatus.rejected last_updated user groups =
    with_left (inr refl) (admin_in_time _ _ (not_expired now last_updated))
can_move_back_to_pending_v2_iff c now RequestStatus.pending last_updated user groups =
    (λ h. cc, λ (h, k). elim h [ inl p ↦ cc | inr p ↦ cc ])
can_move_back_to_pending_v2_iff c now RequestStatus.approved last_updated user groups =
    (λ h. cc, λ (h, k). elim h [ inl p ↦ cc | inr p ↦ cc ])

-- Exactly who may update or cancel what is in a request: the one who made it, and those who administer
-- policies.
pub can_update_cancel_requests_v2_iff :
    (c : Config) (requester user : String) (groups : List String)
    → (can_update_cancel_requests_v2 c requester user groups ≡ true)
      ↔ ((user ≡ requester) ⊎ (can_admin_policies c user groups ≡ true))
unfolding can_update_cancel_requests_v2
can_update_cancel_requests_v2_iff c requester user groups =
    elim (Bool-cases (str_eq user requester)) [
      | inl same ↦ rw same (λ h. inl ((eq_iff user requester).0 same), λ h. refl)
      | inr other ↦
          rw other
            (λ h. inr h, λ h. elim h [ inl p ↦ cc ((eq_iff user requester).1 p) | inr p ↦ p ])
    ]
