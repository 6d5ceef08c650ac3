-- ===== src/Requests/Closed/Database.antt =====
-- What the database holds of a request, and that a cancelled one is stored as cancelled, unless an error is
-- reported.
use consoleme.Base.{
  ℕ, ◌+◌, ◌≤◌, String, ◌≡◌, refl, ◌∙◌, ap, ◌⊎◌, inl, inr, Bool, false, Option, none, some, List, [],
  ◌∷◌, is_none, arith, Bool-cases, if◌then◌else◌,
}
use consoleme.Models.{RequestStatus, Change, Request}
use consoleme.Requests.World.{
  Call, write_policy_request, send_status_update, Failure, Env, Work, succeed, fail, perform,
}
use consoleme.Requests.Flow.{
  State, gets, edit, called, call, recorded, update_dynamo_with_change, ◌>>=◌,
}
use consoleme.Requests.Keeps.{Laws, Keeps, flow_rules}
use consoleme.Requests.Select.{any_applied, any_pending, any_cancelled, settled_status}
use consoleme.Requests.Complete.{
  set_status, set_reviewer, refresh_role, announce, announce_status, announce_settled,
  maybe_approve_reject_request,
}
use consoleme.Requests.Closed.Status.{standing}

-- The request that a call writes.
abbrev written : Call → Option Request
written (write_policy_request r) = some r
written _ = none

abbrev or_before : Option Request → Option Request → Option Request
or_before none before = before
or_before (some r) before = some r

-- What the database holds after these calls: the request of the newest write that returned.
abbrev pub stored : Env → List Call → Option Request
stored e [] = none
stored e (c ∷ cs) =
    let before = stored e cs in
    if is_none (e.outcome cs c) then or_before (written c) before else before

stored-other :
    (e : Env) (c : Call) (cs : List Call) → written c ≡ none → stored e (c ∷ cs) ≡ stored e cs
stored-other e c cs h = elim (Bool-cases (is_none (e.outcome cs c))) [
  | inl b ↦ rw (b, h) refl
  | inr b ↦ rw b refl
]

module _ (e : Env) (cs : List Change) (n : ℕ) where
  abbrev pub IsCancelled : Request → Type 0
  IsCancelled r = standing r ≡ (RequestStatus.cancelled, cs)

  -- The database holds the request as cancelled.
  pub record IsSaved (calls : List Call) : Type 0 where
    pub saved : Request
    pub is_stored : stored e calls ≡ some saved
    pub is_cancelled : IsCancelled saved

  -- The request is cancelled, and the database knows, or so many errors are counted.
  abbrev pub HasEnded : State → Type 0
  HasEnded s = IsCancelled s.request × (IsSaved s.work.calls ⊎ (n ≤ s.work.response.errors))

  abbrev Steady : State → State → Type 0
  Steady s t = HasEnded s → HasEnded t

  Steady-Laws : Laws Steady
  Steady-Laws = record { same = λ s h. h; chain = λ s t u f g h. g (f h) }

  IsSaved-write :
      (r : Request) (w : Work)
      → e.outcome w.calls (write_policy_request r) ≡ none
      → IsCancelled r
      → IsSaved (write_policy_request r ∷ w.calls)
  IsSaved-write r w returns h = record { saved = r; is_stored = rw returns refl; is_cancelled = h }

  recorded-Saved :
      (good bad : String) (visible : Bool) (r : Request) (w : Work) (o : Option Failure)
      → e.outcome w.calls (write_policy_request r) ≡ o
      → IsCancelled r
      → IsSaved w.calls ⊎ (n ≤ w.response.errors + 1)
      → let v =
          recorded good bad visible (o, record w { calls = write_policy_request r ∷ w.calls }) in
        IsSaved v.calls ⊎ (n ≤ v.response.errors)
  unfolding recorded succeed fail
  recorded-Saved good bad visible r w none returns h k = inl (IsSaved-write r w returns h)
  recorded-Saved good bad visible r w (some f) fails h (inl l) =
      inl (record {
        saved = l.saved;
        is_stored = rw fails l.is_stored;
        is_cancelled = l.is_cancelled;
      })
  recorded-Saved good bad visible r w (some f) fails h (inr l) = inr l

  pub dynamo-HasEnded :
      (good bad : String) (visible : Bool) (s : State)
      → IsCancelled s.request
      → IsSaved s.work.calls ⊎ (n ≤ s.work.response.errors + 1)
      → HasEnded (update_dynamo_with_change e good bad visible s).1
  unfolding update_dynamo_with_change perform
  dynamo-HasEnded good bad visible s h k = (
    h,
    recorded-Saved good bad visible s.request s.work
        (e.outcome s.work.calls (write_policy_request s.request)) refl h k,
  )

  Steady-dynamo :
      (good bad : String) (visible : Bool)
      → Keeps Steady (update_dynamo_with_change e good bad visible)
  Steady-dynamo good bad visible = record {
    keeps = λ s h.
        dynamo-HasEnded good bad visible s h.0
          (elim h.1 [ inl x ↦ inl x | inr x ↦ inr (omega (arith, x)) ]);
  }

  Steady-edit :
      (f : Request → Request)
      → ((r : Request) → IsCancelled r → IsCancelled (f r))
      → Keeps Steady (edit f)
  unfolding edit
  Steady-edit f h = record { keeps = λ s k. (h s.request k.0, k.1) }

  IsSaved-other :
      (c : Call) (calls : List Call) → written c ≡ none → IsSaved calls → IsSaved (c ∷ calls)
  IsSaved-other c calls h l = record {
    saved = l.saved;
    is_stored = stored-other e c calls h ∙ l.is_stored;
    is_cancelled = l.is_cancelled;
  }

  called-Steady :
      (c : Call) (s : State) (o : Option Failure)
      → written c ≡ none
      → HasEnded s
      → HasEnded (called s (o, record s.work { calls = c ∷ s.work.calls })).1
  unfolding called
  called-Steady c s none h k =
      (k.0, elim k.1 [ inl x ↦ inl (IsSaved-other c s.work.calls h x) | inr x ↦ inr x ])
  called-Steady c s (some f) h k =
      (k.0, elim k.1 [ inl x ↦ inl (IsSaved-other c s.work.calls h x) | inr x ↦ inr x ])

  Steady-call :
      (c : Request → Call) → ((r : Request) → written (c r) ≡ none) → Keeps Steady (call e c)
  unfolding call perform
  Steady-call c h = record {
    keeps =
        λ s k. called-Steady (c s.request) s (e.outcome s.work.calls (c s.request)) (h s.request) k;
  }

  ruleset steady_rules = (flow_rules, Steady-Laws, Steady-dynamo)

  pub Steady-told : Keeps Steady (call e send_status_update)
  Steady-told = Steady-call send_status_update (λ r. refl)

  Steady-reviewer : (user : String) → Keeps Steady (edit (set_reviewer user))
  unfolding set_reviewer
  Steady-reviewer user = Steady-edit (set_reviewer user) (λ r h. h)

  Steady-status : Keeps Steady (edit (set_status RequestStatus.cancelled))
  unfolding set_status
  Steady-status =
      Steady-edit (set_status RequestStatus.cancelled)
        (λ r h. ap (λ x. (RequestStatus.cancelled, x.1)) h)

  Steady-refresh_role : (user : String) (r : Request) → Keeps Steady (refresh_role e user r)
  unfolding refresh_role
  Steady-refresh_role user r = search (steady_rules, Steady-call) depth 14

  Steady-announce : (user : String) → Keeps Steady (announce e user)
  unfolding announce
  Steady-announce user =
      search (steady_rules, Steady-told, Steady-reviewer, Steady-refresh_role) depth 20

  settled-Steady :
      (user : String) (o : Option RequestStatus)
      → (o ≡ none) ⊎ (o ≡ some RequestStatus.cancelled)
      → Keeps Steady (announce_settled e user o)
  unfolding announce_settled announce_status
  settled-Steady user o (inl h) = rw h (search steady_rules)
  settled-Steady user o (inr h) =
      rw h (search (steady_rules, Steady-status, Steady-announce) depth 12)

  -- What the changes of a request settle, of which nothing is applied.
  settled_status-cases :
      any_applied cs ≡ false
      → (settled_status cs ≡ none) ⊎ (settled_status cs ≡ some RequestStatus.cancelled)
  unfolding settled_status
  settled_status-cases h = elim (Bool-cases (any_pending cs)) [
    | inl p ↦ inl (rw p refl)
    | inr p ↦ elim (Bool-cases (any_cancelled cs)) [
      | inl c ↦ inr (rw (p, h, c) refl)
      | inr c ↦ inl (rw (p, h, c) refl)
    ]
  ]

  pub maybe_approve_reject_request-HasEnded :
      (user : String) (s : State)
      → any_applied cs ≡ false
      → HasEnded s
      → HasEnded (maybe_approve_reject_request e user s).1
  unfolding maybe_approve_reject_request gets ◌>>=◌
  maybe_approve_reject_request-HasEnded user s h k =
      let same : s.request.changes ≡ cs = ap (λ x. x.1) k.0 in
      (settled-Steady user (settled_status s.request.changes)
          (rw same (settled_status-cases h))).keeps
        s k
