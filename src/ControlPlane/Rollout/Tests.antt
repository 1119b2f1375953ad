-- ===== src/ControlPlane/Rollout/Tests.antt =====
-- A fleet of three tenants, and the theorems on rollouts at work on it.
use dnd_notes.Common.{
  ℕ, String, ◌≡◌, refl, none, some, List, [], ◌∷◌, ◌==◌, unequal, if◌then◌else◌, arith,
}
use dnd_notes.Common.Prog.{ok}
use dnd_notes.ControlPlane.Rollout.Tables.{
  RolloutStatus, TenantStatus, RolloutRow, TenantRow, Tenant, State, Turn, quiet, fault,
  abort_request, settle,
}
use dnd_notes.ControlPlane.Rollout.Run.{Params, guarded_run, run_rollout}
use dnd_notes.ControlPlane.Rollout.Start.{StartInput, start_fleet_rollout}
use dnd_notes.ControlPlane.Rollout.Ending.{Ends}
use dnd_notes.ControlPlane.Rollout.Outcome.{IsReady, run_rollout-Ends}
use dnd_notes.ControlPlane.Rollout.Release.{IsReleased, run_rollout-IsReleased}
use dnd_notes.ControlPlane.Rollout.Exclusion.{Fails, owned, start_fleet_rollout-excluded}

abbrev rollout : String → ℕ → RolloutRow
rollout id started_at = record {
  id = id;
  target_version = "1.4.0";
  status = RolloutStatus.running;
  triggered_by = "ops";
  started_at = started_at;
  ended_at = none;
  abort_reason = none;
  failed_tenant = none;
  failed_error = none;
}

abbrev row : String → TenantRow
row t = record {
  rollout_id = "r1";
  tenant_id = t;
  status = TenantStatus.pending;
  reason = none;
  started_at = none;
  ended_at = none;
}

abbrev rows : List TenantRow
rows = row "ada" ∷ row "bea" ∷ row "cid" ∷ []

abbrev fleet : List Tenant
fleet =
    record { id = "ada"; current_state = "ready" }
    ∷ record { id = "bea"; current_state = "sleeping" }
    ∷ record { id = "cid"; current_state = "failed" }
    ∷ []

abbrev state : List Turn → State
state schedule = record {
  rollouts = rollout "r0" 20 ∷ rollout "r1" 50 ∷ [];
  rollout_tenants = rows;
  tenants = fleet;
  lock_holds = 7 ∷ [];
  checked_out = 1;
  clock = 100000;
  schedule = schedule;
  calls = [];
  current_tenant_id = none;
}

-- Provisioning refuses the second tenant.
abbrev params : Params
params = record {
  rollout_id = "r1";
  target_version = "1.4.0";
  triggered_by = "ops";
  tenant_ids = "ada" ∷ "bea" ∷ "cid" ∷ [];
  session = 7;
  provision = λ t. if t == "bea" then some "image not found" else none;
}

abbrev input : StartInput
input = record {
  rollout_id = "r2";
  target_version = "1.4.0";
  triggered_by = "ops";
  skip_sleeping = none;
  session = 8;
  provision = λ t. none;
}

-- Time passes, and an operator asks for an abort while the first tenant is provisioned.
abbrev busy : List Turn
busy =
    record { elapsed = 5; event = quiet }
    ∷ record { elapsed = 9; event = abort_request "r1" "bad release" }
    ∷ []

abbrev failing : List Turn
failing = record { elapsed = 5; event = fault "connection lost" } ∷ []

ready : IsReady params (state busy)
ready = record {
  distinct = ((unequal _ _ refl, (unequal _ _ refl, tt)), ((unequal _ _ refl, tt), (tt, tt)));
  calm = (tt, (tt, tt));
  there = (rollout "r1" 50, refl);
  pending = ((row "ada", refl, refl), ((row "bea", refl, refl), ((row "cid", refl, refl), tt)));
}

run_rollout-Ends_example : Ends params [] (run_rollout params (state busy)).1
run_rollout-Ends_example = run_rollout-Ends params (state busy) ready

run_rollout-IsReleased_example :
    let (r, t) = run_rollout params (state failing) in
    let g = (guarded_run params (state failing)).1 in
    (r ≡ ok tt) × (t.checked_out ≡ 0) × IsReleased 7 (7 ∷ []) (settle g).0 t
run_rollout-IsReleased_example = run_rollout-IsReleased params (state failing)

start_fleet_rollout-excluded_example :
    let (r, t) = start_fleet_rollout input (state busy) in Fails r × (owned t ≡ owned (state busy))
start_fleet_rollout-excluded_example =
    start_fleet_rollout-excluded input (state busy) 7 [] refl (λ e. omega (arith, e))

abbrev both : List RolloutRow
both = rollout "r0" 20 ∷ rollout "r1" 50 ∷ []
