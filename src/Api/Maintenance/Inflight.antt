-- ===== src/Api/Maintenance/Inflight.antt =====
-- The counter of writes in progress, and what the gate keeps out.
use dnd_notes.Common.{
  ℕ, zero, suc, ◌+◌, Bool, true, false, not, ◌≡◌, refl, sym, ap, ◌∙◌, Option, none, some, List, [],
  ◌∷◌, ◌++◌, count, if◌then◌else◌, ltb, arith, inl, inr, Bool-cases,
}
use dnd_notes.Api.Maintenance.{
  is_enabled, ControlState, create_control_state, Request, passes_gate, should_track_write, Tenant,
  new_tenant, arrive, settle, settle_request, on_finish, on_close, Field, Wanted, enable, disable,
  invalid_mode, invalid_reason, read_maintenance, apply_wanted, post_maintenance, probe,
}

-- The tracked requests that are in progress.
abbrev pub unsettled : List Bool → ℕ
unsettled flags = count not flags

pub data Step : Tenant → Tenant → Type 0 where
  arrived : {s : Tenant} (r : Request) → Step s (arrive r s)
  finished :
      {s : Tenant} (request status_code now : ℕ) → Step s (on_finish request status_code now s)
  closed : {s : Tenant} (request : ℕ) → Step s (on_close request s)
  posted :
      {s : Tenant} (mode reason : Field) (now : ℕ) → Step s (post_maintenance mode reason now s)
  probed : {s : Tenant} (now : ℕ) → Step s (probe now s)

pub data Steps : Tenant → Tenant → Type 0 where
  stay : {s : Tenant} → Steps s s
  followed : {s t u : Tenant} → Steps s t → Step t u → Steps s u

unsettled-append : (flags : List Bool) → unsettled (flags ++ false ∷ []) ≡ unsettled flags + 1
unsettled-append [] = refl
unsettled-append (b ∷ flags) = ground (arith, unsettled-append flags)

-- `others` are writes in progress elsewhere in the list.
settle-unsettled :
    (wrote : Option ℕ) (request : ℕ) (flags : List Bool) (s : ControlState) (others : ℕ)
    → s.inflight_writes ≡ others + unsettled flags
    → (settle wrote request flags s).1.inflight_writes
      ≡ others + unsettled (settle wrote request flags s).0
unfolding settle
settle-unsettled wrote request [] s others h = h
settle-unsettled wrote zero (true ∷ flags) s others h = h
settle-unsettled none zero (false ∷ flags) s others h = omega (arith, h)
settle-unsettled (some now) zero (false ∷ flags) s others h = omega (arith, h)
settle-unsettled wrote (suc request) (true ∷ flags) s others h =
    let k = settle-unsettled wrote request flags s others (omega (arith, h)) in omega (arith, k)
settle-unsettled wrote (suc request) (false ∷ flags) s others h =
    let k = settle-unsettled wrote request flags s (others + 1) (omega (arith, h)) in
    omega (arith, k)

abbrev Counted : Tenant → Type 0
Counted t = t.control.inflight_writes ≡ unsettled t.settled

settle_request-Counted :
    (wrote : Option ℕ) (request : ℕ) (t : Tenant)
    → Counted t
    → Counted (settle_request wrote request t)
settle_request-Counted wrote request t h =
    let k = settle-unsettled wrote request t.settled t.control 0 (omega (arith, h)) in
    omega (arith, k)

apply_wanted-Counted :
    (w : Wanted) (now : ℕ) (t : Tenant) → Counted t → Counted (apply_wanted w now t)
apply_wanted-Counted invalid_mode now t h = h
apply_wanted-Counted invalid_reason now t h = h
apply_wanted-Counted (enable reason) now t h = h
apply_wanted-Counted (disable reason) now t h = h

Step-Counted : {s t : Tenant} → Step s t → Counted s → Counted t
unfolding arrive on_finish on_close post_maintenance probe
Step-Counted (arrived {s} r) h = elim (Bool-cases (passes_gate r s.control)) [
  | inl e ↦ elim (Bool-cases (should_track_write r)) [
    | inl w ↦ rw (e, w) (ap (λ n. n + 1) h ∙ sym (unsettled-append s.settled))
    | inr w ↦ rw (e, w) h
  ]
  | inr e ↦ rw e h
]
Step-Counted (finished {s} request status_code now) h =
    settle_request-Counted (if ltb status_code 400 then some now else none) request s h
Step-Counted (closed {s} request) h = settle_request-Counted none request s h
Step-Counted (posted {s} mode reason now) h =
    apply_wanted-Counted (read_maintenance mode reason) now s h
Step-Counted (probed {s} now) h = h

-- In whatever order requests arrive, finish, close or change the maintenance mode, inflightWrites is the
-- number of the tracked writes that have neither finished nor closed: none counts twice, and none is forgotten.
pub inflight_writes-unsettled :
    (t : Tenant) → Steps new_tenant t → t.control.inflight_writes ≡ count not t.settled
unfolding create_control_state
inflight_writes-unsettled t steps = by_steps steps refl
  where
    by_steps : {s t : Tenant} → Steps s t → Counted s → Counted t
    by_steps stay h = h
    by_steps (followed steps step) h = Step-Counted step (by_steps steps h)

-- Steps between which the tenant stays in maintenance.
pub data Held : Tenant → Tenant → Type 0 where
  stays : {s : Tenant} → Held s s
  holds :
      {s t u : Tenant}
      → Held s t
      → Step t u
      → is_enabled u.control.maintenance.mode ≡ true
      → Held s u

settle-idle :
    (wrote : Option ℕ) (request : ℕ) (flags : List Bool) (s : ControlState)
    → unsettled flags ≡ 0
    → settle wrote request flags s ≡ (flags, s)
unfolding settle
settle-idle wrote request [] s h = refl
settle-idle wrote zero (true ∷ flags) s h = refl
settle-idle wrote zero (false ∷ flags) s h = absurd (omega (arith, h))
settle-idle wrote (suc request) (true ∷ flags) s h =
    ap (λ (r : List Bool × ControlState). (true ∷ r.0, r.1))
      (settle-idle wrote request flags s (omega (arith, h)))
settle-idle wrote (suc request) (false ∷ flags) s h = absurd (omega (arith, h))

-- No write has come, none has gone, none is recorded.
abbrev pub SameWrites : Tenant → Tenant → Type 0
SameWrites s t =
    (t.settled ≡ s.settled)
    × (t.control.inflight_writes ≡ s.control.inflight_writes)
    × (t.control.last_write_at ≡ s.control.last_write_at)

settle-SameWrites :
    (wrote : Option ℕ) (request : ℕ) (t : Tenant)
    → unsettled t.settled ≡ 0
    → SameWrites t (settle_request wrote request t)
settle-SameWrites wrote request t h =
    let e = settle-idle wrote request t.settled t.control h in
    (
      ap (λ (r : List Bool × ControlState). r.0) e,
      ap (λ (r : List Bool × ControlState). r.1.inflight_writes) e,
      ap (λ (r : List Bool × ControlState). r.1.last_write_at) e,
    )

apply_wanted-SameWrites : (w : Wanted) (now : ℕ) (t : Tenant) → SameWrites t (apply_wanted w now t)
apply_wanted-SameWrites invalid_mode now t = (refl, refl, refl)
apply_wanted-SameWrites invalid_reason now t = (refl, refl, refl)
apply_wanted-SameWrites (enable reason) now t = (refl, refl, refl)
apply_wanted-SameWrites (disable reason) now t = (refl, refl, refl)

gate-shut :
    (r : Request) (s : ControlState)
    → is_enabled s.maintenance.mode ≡ true
    → passes_gate r s ≡ true
    → should_track_write r ≡ false
unfolding passes_gate should_track_write
gate-shut r s on e = ground (arith, on, e)

Step-SameWrites :
    {s t : Tenant}
    → Step s t
    → is_enabled s.control.maintenance.mode ≡ true
    → unsettled s.settled ≡ 0
    → SameWrites s t
unfolding arrive on_finish on_close post_maintenance probe
Step-SameWrites (arrived {s} r) on h = elim (Bool-cases (passes_gate r s.control)) [
  | inl e ↦ rw (e, gate-shut r s.control on e) (refl, refl, refl)
  | inr e ↦ rw e (refl, refl, refl)
]
Step-SameWrites (finished {s} request status_code now) on h =
    settle-SameWrites (if ltb status_code 400 then some now else none) request s h
Step-SameWrites (closed {s} request) on h = settle-SameWrites none request s h
Step-SameWrites (posted {s} mode reason now) on h =
    apply_wanted-SameWrites (read_maintenance mode reason) now s
Step-SameWrites (probed {s} now) on h = (refl, refl, refl)

-- Once a tenant is in maintenance and no write is in progress, no write begins or is recorded as long as
-- it stays in maintenance: the tracked requests, inflightWrites and lastWriteAt stay as they are.
pub Held-SameWrites :
    (s t : Tenant)
    → Steps new_tenant s
    → is_enabled s.control.maintenance.mode ≡ true
    → s.control.inflight_writes ≡ 0
    → Held s t
    → SameWrites s t
Held-SameWrites s t reached on drained held = (by_held held).0
  where
    by_held :
        {t : Tenant} → Held s t → SameWrites s t × (is_enabled t.control.maintenance.mode ≡ true)
    by_held stays = ((refl, refl, refl), on)
    by_held (holds held step still) =
        let ((a, b, c), was_on) = by_held held in
        let idle = ap unsettled a ∙ sym (inflight_writes-unsettled s reached) ∙ drained in
        let (d, e, f) = Step-SameWrites step was_on idle in ((d ∙ a, e ∙ b, f ∙ c), still)
