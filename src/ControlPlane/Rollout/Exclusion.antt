-- ===== src/ControlPlane/Rollout/Exclusion.antt =====
-- startFleetRollout: who may start, and which tenants a rollout takes.
use dnd_notes.Common.{
  ℕ, ◌+◌, ◌-◌, String, Bool, true, false, ◌&&◌, ◌||◌, not, ◌≡◌, refl, ◌≢◌, ◌⊎◌, inl, inr, none,
  List, [], ◌∷◌, map, arith, ◌==◌, eq_iff, =ℕ_iff, Bool-cases, Option-cases,
}
use dnd_notes.Common.Prog.{Result, ok, err}
use dnd_notes.ControlPlane.Rollout.Tables.{Tenant, TenantRow, ProvisionCall, State, await, settle}
use dnd_notes.ControlPlane.Rollout.Start.{
  StartInput, classify, take_lock, start_connected, on_start_error, guarded_start, start_attempt,
  start_fleet_rollout,
}
use dnd_notes.ControlPlane.Rollout.Frame.{IsApart, settle-keeps}

abbrev pub Fails : {A : Type 0} → Result A → Type 0
Fails r = (message : String) × (r ≡ err message)

-- All that a start writes, but for the rollouts' abort flags, which operators write.
abbrev pub owned : State → List ℕ × ℕ × List TenantRow × List Tenant × List ProvisionCall
owned s = (s.lock_holds, s.checked_out, s.rollout_tenants, s.tenants, s.calls)

owned-IsApart : IsApart owned
owned-IsApart s c ts rs = refl

module _ (session : ℕ) (s : State) (holder : ℕ) (holds : List ℕ)
    (held : s.lock_holds ≡ holder ∷ holds) (other : holder ≢ session) where
  take_lock-refused :
      let (r, t) = take_lock session s in (owned t ≡ owned s) × ((r ≡ ok false) ⊎ Fails r)
  unfolding take_lock await
  take_lock-refused =
      let k = settle-keeps owned owned-IsApart s in
      elim (Option-cases (settle s).0) [
        | inl none_yet ↦ (
          ground (arith, k, =ℕ_iff holder session),
          inl (ground (arith, k, =ℕ_iff holder session)),
        )
        | inr (m, e) ↦ (ground (arith, k), inr (m, ground arith))
      ]

  on_start_error-owned :
      (message : String)
      → let (r, t) = on_start_error session message s in
        (r ≡ err message) × (owned t ≡ owned (record s { checked_out = s.checked_out - 1 }))
  unfolding on_start_error await
  on_start_error-owned message =
      ground (arith, settle-keeps owned owned-IsApart s, =ℕ_iff holder session)

guarded_start-refused :
    (i : StartInput) (s : State) (holder : ℕ) (holds : List ℕ)
    → s.lock_holds ≡ holder ∷ holds
    → holder ≢ i.session
    → let (r, t) = guarded_start i s in
      (owned t ≡ owned (record s { checked_out = s.checked_out - 1 })) × ((r ≡ ok none) ⊎ Fails r)
unfolding guarded_start start_attempt start_connected
guarded_start-refused i s holder holds held other =
    let refused = take_lock-refused i.session s holder holds held other in
    let u = (take_lock i.session s).1 in
    elim refused.1 [
      | inl no_lock ↦ (ground (arith, refused.0, no_lock), inl (ground (arith, no_lock)))
      | inr (m, e) ↦
          let k =
            on_start_error-owned i.session u holder holds (ground (arith, refused.0)) other m in
          (ground (arith, refused.0, e, k), inr (m, ground (arith, e, k)))
    ]

-- While another session holds the lock a start fails, whatever the queries do: the lock stays with
-- its holder, the connection goes back to the pool, and no tenant row is written or tenant provisioned.
pub start_fleet_rollout-excluded :
    (i : StartInput) (s : State) (holder : ℕ) (holds : List ℕ)
    → s.lock_holds ≡ holder ∷ holds
    → holder ≢ i.session
    → let (r, t) = start_fleet_rollout i s in Fails r × (owned t ≡ owned s)
unfolding start_fleet_rollout await
start_fleet_rollout-excluded i s holder holds held other =
    let k = settle-keeps owned owned-IsApart s in
    let u : State = record (settle s).1 { checked_out = (settle s).1.checked_out + 1 } in
    let g = guarded_start-refused i u holder holds (ground (arith, k)) other in
    elim (Option-cases (settle s).0) [
      | inr (m, e) ↦ ((m, ground (arith, e)), ground (arith, e, k))
      | inl e ↦ elim g.1 [
        | inl r ↦ (
          ("A fleet rollout is already running.", ground (arith, e, r)),
          ground (arith, e, k, r, g.0),
        )
        | inr (m, r) ↦ ((m, ground (arith, e, r)), ground (arith, e, k, r, g.0))
      ]
    ]

-- The snapshot's rule, in words of its own: ready, or sleeping where sleepers are not skipped.
abbrev pub IsEligible : Bool → Tenant → Type 0
IsEligible skip_sleeping t =
    (t.current_state ≡ "ready") ⊎ ((t.current_state ≡ "sleeping") × (skip_sleeping ≡ false))

-- A fleet in its order, dealt out: the eligible tenants to the one list, all others to the other.
pub data IsDealt (skip_sleeping : Bool) : List Tenant → List String → List String → Type 0 where
  nil : IsDealt skip_sleeping [] [] []
  take :
      {t : Tenant} {ts : List Tenant} {xs ys : List String}
      → IsEligible skip_sleeping t
      → IsDealt skip_sleeping ts xs ys
      → IsDealt skip_sleeping (t ∷ ts) (t.id ∷ xs) ys
  leave :
      {t : Tenant} {ts : List Tenant} {xs ys : List String}
      → ¬ IsEligible skip_sleeping t
      → IsDealt skip_sleeping ts xs ys
      → IsDealt skip_sleeping (t ∷ ts) xs (t.id ∷ ys)

abbrev takes : Bool → Tenant → Bool
takes skip_sleeping t =
    t.current_state == "ready" || (t.current_state == "sleeping" && not skip_sleeping)

takes_sound : (skip : Bool) (t : Tenant) → takes skip t ≡ true → IsEligible skip t
takes_sound skip t e =
    ground (arith, eq_iff t.current_state "ready", eq_iff t.current_state "sleeping")

takes_complete : (skip : Bool) (t : Tenant) → takes skip t ≡ false → ¬ IsEligible skip t
takes_complete skip t e h =
    ground (arith, eq_iff t.current_state "ready", eq_iff t.current_state "sleeping")

abbrev pub names : List (String × String) → List String
names = map (λ e. e.0)

module _ (skip : Bool) (t : Tenant) (ts : List Tenant) where
  classify-taken :
      takes skip t ≡ true
      → ((classify skip (t ∷ ts)).eligible ≡ t.id ∷ (classify skip ts).eligible)
        × (names (classify skip (t ∷ ts)).ineligible ≡ names (classify skip ts).ineligible)
  unfolding classify
  classify-taken e = rw e (refl, refl)

  classify-left :
      takes skip t ≡ false
      → ((classify skip (t ∷ ts)).eligible ≡ (classify skip ts).eligible)
        × (names (classify skip (t ∷ ts)).ineligible ≡ t.id ∷ names (classify skip ts).ineligible)
  unfolding classify
  classify-left e = elim (Bool-cases (t.current_state == "sleeping" && skip)) [
    | inl sleeps ↦ rw (e, sleeps) (refl, refl)
    | inr other ↦ rw (e, other) (refl, refl)
  ]

classify-nil : (skip : Bool) → classify skip [] ≡ record { eligible = []; ineligible = [] }
unfolding classify
classify-nil skip = refl

-- A rollout's snapshot deals out the whole fleet: each tenant is eligible just when it is ready, or
-- sleeping where sleepers are not skipped, and is otherwise recorded as skipped.
pub classify-IsDealt :
    (skip : Bool) (ts : List Tenant)
    → IsDealt skip ts (classify skip ts).eligible (names (classify skip ts).ineligible)
classify-IsDealt skip [] = rw (classify-nil skip) nil
classify-IsDealt skip (t ∷ ts) = elim (Bool-cases (takes skip t)) [
  | inl e ↦
      let (yes_eq, no_eq) = classify-taken skip t ts e in
      rw (yes_eq, no_eq) (take (takes_sound skip t e) (classify-IsDealt skip ts))
  | inr e ↦
      let (yes_eq, no_eq) = classify-left skip t ts e in
      rw (yes_eq, no_eq) (leave (takes_complete skip t e) (classify-IsDealt skip ts))
]
