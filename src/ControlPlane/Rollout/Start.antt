-- ===== src/ControlPlane/Rollout/Start.antt =====
-- startFleetRollout: the lock, the snapshot of the fleet, and the rows of the new rollout.
use Prim.Native.String.{◌++◌ as ◌+++◌}
use dnd_notes.Common.{
  ℕ, ◌+◌, ◌-◌, String, Bool, true, false, ◌&&◌, ◌||◌, not, Option, none, some, List, [], ◌∷◌, ◌++◌,
  ◌==◌, if◌then◌else◌, or_else,
}
use dnd_notes.Common.Prog.{Prog, ◌>>=◌, ◌>>◌, pure, throw, try_catch, modify}
use dnd_notes.ControlPlane.Rollout.Tables.{
  RolloutStatus, TenantStatus, Tenant, State, await, await_update, try_lock, unlock,
}
use dnd_notes.ControlPlane.Rollout.Run.{Params, finalize_rollout, run_rollout}

-- `session` is the connection that the pool hands out, `rollout_id` the generated identifier.
pub record StartInput : Type 0 where
  pub rollout_id : String
  pub target_version : String
  pub triggered_by : String
  pub skip_sleeping : Option Bool
  pub session : ℕ
  pub provision : String → Option String

pub record Started : Type 0 where
  pub id : String
  pub status : RolloutStatus
  pub started_at : ℕ

pub record Snapshot : Type 0 where
  pub eligible : List String
  pub ineligible : List (String × String)

unfoldable pub classify : Bool → List Tenant → Snapshot
classify skip_sleeping [] = record { eligible = []; ineligible = [] }
classify skip_sleeping (t ∷ ts) =
    let rest = classify skip_sleeping ts in
    let is_sleeping = t.current_state == "sleeping" in
    let is_ready = t.current_state == "ready" in
    if is_ready || (is_sleeping && not skip_sleeping)
    then record rest { eligible = t.id ∷ rest.eligible }
    else if is_sleeping && skip_sleeping
    then record rest { ineligible = (t.id, "sleeping (skipped by policy)") ∷ rest.ineligible }
    else record rest {
      ineligible = (t.id, "ineligible state: " +++ t.current_state) ∷ rest.ineligible;
    }

unfoldable pub insert_rollout : StartInput → Prog State ℕ
insert_rollout i = await (λ s. (
  s.clock,
  record s {
    rollouts =
        s.rollouts
        ++ record {
          id = i.rollout_id;
          target_version = i.target_version;
          status = RolloutStatus.running;
          triggered_by = i.triggered_by;
          started_at = s.clock;
          ended_at = none;
          abort_reason = none;
          failed_tenant = none;
          failed_error = none;
        }
          ∷ [];
  },
))

unfoldable pub insert_pending : String → List String → Prog State (Unit {0})
insert_pending rollout_id [] = pure tt
insert_pending rollout_id (t ∷ ts) = do
  await_update (λ s. record s {
    rollout_tenants =
        s.rollout_tenants
        ++ record {
          rollout_id = rollout_id;
          tenant_id = t;
          status = TenantStatus.pending;
          reason = none;
          started_at = none;
          ended_at = none;
        }
          ∷ [];
  })
  insert_pending rollout_id ts

unfoldable pub insert_skipped : String → List (String × String) → Prog State (Unit {0})
insert_skipped rollout_id [] = pure tt
insert_skipped rollout_id ((t, reason) ∷ ts) = do
  await_update (λ s. record s {
    rollout_tenants =
        s.rollout_tenants
        ++ record {
          rollout_id = rollout_id;
          tenant_id = t;
          status = TenantStatus.skipped;
          reason = some reason;
          started_at = none;
          ended_at = some s.clock;
        }
          ∷ [];
  })
  insert_skipped rollout_id ts

abbrev pub release : Prog State (Unit {0})
release = modify (λ s. record s { checked_out = s.checked_out - 1 })

abbrev pub await_unlock : ℕ → Prog State (Unit {0})
await_unlock session = await_update (λ s. record s { lock_holds = unlock session s.lock_holds })

-- The result, with the background task if one is started.
unfoldable pub begin_run : StartInput → Snapshot → ℕ → Prog State (Started × Option Params)
begin_run i snapshot started_at = elim snapshot.eligible [
  | [] ↦ do
    finalize_rollout i.rollout_id RolloutStatus.completed none none
    await_unlock i.session
    release
    pure (
      record { id = i.rollout_id; status = RolloutStatus.completed; started_at = started_at },
      none,
    )
  | t ∷ ts ↦ pure (
    record { id = i.rollout_id; status = RolloutStatus.running; started_at = started_at },
    some (record {
      rollout_id = i.rollout_id;
      target_version = i.target_version;
      triggered_by = i.triggered_by;
      tenant_ids = t ∷ ts;
      session = i.session;
      provision = i.provision;
    }),
  )
]

-- What follows once the lock is held.
unfoldable pub start_locked : StartInput → Prog State (Started × Option Params)
start_locked i = do
  tenants ← await (λ s. (s.tenants, s))
  let snapshot = classify (or_else i.skip_sleeping true) tenants
  started_at ← insert_rollout i
  insert_pending i.rollout_id snapshot.eligible
  insert_skipped i.rollout_id snapshot.ineligible
  begin_run i snapshot started_at

unfoldable pub take_lock : ℕ → Prog State Bool
take_lock session = await (λ s.
    let (locked, holds) = try_lock session s.lock_holds in
    (locked, record s { lock_holds = holds }))

-- `none` is FleetRolloutAlreadyRunningError, which the catch passes on.
unfoldable pub start_connected : StartInput → Bool → Prog State (Option (Started × Option Params))
start_connected i false = do release; pure none
start_connected i true = do started ← start_locked i; pure (some started)

-- catch (error): the lock is given back as far as that works, and the error thrown again.
unfoldable pub on_start_error : ℕ → String → Prog State (Option (Started × Option Params))
on_start_error session message = do
  try_catch (await_unlock session) (λ _. pure tt)
  release
  throw message

abbrev pub or_already_running :
    Option (Started × Option Params) → Prog State (Started × Option Params)
or_already_running none = throw "A fleet rollout is already running."
or_already_running (some started) = pure started

unfoldable pub start_attempt : StartInput → Prog State (Option (Started × Option Params))
start_attempt i = do locked ← take_lock i.session; start_connected i locked

unfoldable pub guarded_start : StartInput → Prog State (Option (Started × Option Params))
guarded_start i = try_catch (start_attempt i) (on_start_error i.session)

abbrev pub connect : Prog State (Unit {0})
connect = await_update (λ s. record s { checked_out = s.checked_out + 1 })

unfoldable pub start_fleet_rollout : StartInput → Prog State (Started × Option Params)
start_fleet_rollout i = do connect; started ← guarded_start i; or_already_running started

abbrev background : Started × Option Params → Prog State Started
background (started, none) = pure started
background (started, some p) = do run_rollout p; pure started

-- A start and its background task, run to the end.
unfoldable pub start_and_run : StartInput → Prog State Started
start_and_run i = do started ← start_fleet_rollout i; background started
