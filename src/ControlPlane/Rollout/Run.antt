-- ===== src/ControlPlane/Rollout/Run.antt =====
-- runRollout, markRemainingTenantsSkipped and finalizeRollout.
use Prim.Native.String.{◌++◌ as ◌+++◌}
use dnd_notes.Common.{
  ℕ, ◌-◌, String, Bool, true, false, ◌&&◌, Option, none, some, List, [], ◌∷◌, ◌++◌, ◌==◌,
  if◌then◌else◌, coalesce,
}
use dnd_notes.Common.Prog.{ok, Prog, ◌>>=◌, ◌>>◌, pure, throw, try_catch, modify}
use dnd_notes.ControlPlane.Rollout.Tables.{
  RolloutStatus, TenantStatus, RolloutRow, ProvisionCall, State, await, await_update,
  update_rollouts, update_tenant_rows, is_tenant_row, find_rollout, unlock,
}

-- `provision` is the outcome of provisioningService.provisionTenant for a tenant: nothing, or the
-- message of the error it throws. `session` is the connection that holds the lock.
pub record Params : Type 0 where
  pub rollout_id : String
  pub target_version : String
  pub triggered_by : String
  pub tenant_ids : List String
  pub session : ℕ
  pub provision : String → Option String

unfoldable pub finalize_rollout :
    String → RolloutStatus → Option String → Option String → Prog State (Unit {0})
finalize_rollout rollout_id status failed_tenant failed_error = await_update (λ s.
    update_rollouts (λ r. r.id == rollout_id)
      (λ r. record r {
        status = status;
        ended_at = some s.clock;
        failed_tenant = coalesce failed_tenant r.failed_tenant;
        failed_error = coalesce failed_error r.failed_error;
      })
      s)

abbrev pub is_pending : TenantStatus → Bool
is_pending TenantStatus.pending = true
is_pending _ = false

-- allTenantIds.slice(allTenantIds.indexOf(from)), and nothing where it is not there.
unfoldable pub slice_from : String → List String → List String
slice_from tenant_id [] = []
slice_from tenant_id (t ∷ ts) = if t == tenant_id then t ∷ ts else slice_from tenant_id ts

unfoldable pub skip_one : String → String → String → Prog State (Unit {0})
skip_one rollout_id reason t = await_update (λ s.
    update_tenant_rows (λ r. is_tenant_row rollout_id t r && is_pending r.status)
      (λ r. record r {
        status = TenantStatus.skipped;
        reason = some reason;
        ended_at = some s.clock;
      })
      s)

unfoldable pub skip_each : String → String → List String → Prog State (Unit {0})
skip_each rollout_id reason [] = pure tt
skip_each rollout_id reason (t ∷ ts) = do
  skip_one rollout_id reason t
  skip_each rollout_id reason ts

unfoldable pub mark_remaining_tenants_skipped :
    String → String → List String → String → Prog State (Unit {0})
mark_remaining_tenants_skipped rollout_id from_tenant_id all_tenant_ids reason =
    skip_each rollout_id reason (slice_from from_tenant_id all_tenant_ids)

unfoldable pub mark_started : Params → String → Prog State (Unit {0})
mark_started p t = await_update (λ s.
    update_tenant_rows (is_tenant_row p.rollout_id t) (λ r. record r { started_at = some s.clock })
      s)

unfoldable pub mark_failed : Params → String → String → Prog State (Unit {0})
mark_failed p t message = await_update (λ s.
    update_tenant_rows (is_tenant_row p.rollout_id t)
      (λ r. record r {
        status = TenantStatus.failed;
        reason = some message;
        ended_at = some s.clock;
      })
      s)

unfoldable pub mark_succeeded : Params → String → Prog State (Unit {0})
mark_succeeded p t = await_update (λ s.
    update_tenant_rows (is_tenant_row p.rollout_id t)
      (λ r. record r { status = TenantStatus.succeeded; ended_at = some s.clock }) s)

abbrev pub provision_call : Params → String → ProvisionCall
provision_call p t = record {
  tenant_id = t;
  triggered_by = (("fleet-rollout:" +++ p.rollout_id) +++ ":") +++ p.triggered_by;
  reason =
      ((("Fleet rolling update to version " +++ p.target_version) +++ " (rollout ")
        +++ p.rollout_id)
      +++ ")";
  version = p.target_version;
}

-- The awaited provisionTenant: its outcome, with the call on record.
unfoldable pub provision_tenant : Params → String → Prog State (Option String)
provision_tenant p t s =
    (ok (p.provision t), record s { calls = s.calls ++ provision_call p t ∷ [] })

abbrev pub set_current : Option String → Prog State (Unit {0})
set_current t = modify (λ s. record s { current_tenant_id = t })

unfoldable pub select_rollout : String → Prog State (Option RolloutRow)
select_rollout rollout_id = await (λ s. (find_rollout rollout_id s.rollouts, s))

-- The branch of an abort that the loop has read.
unfoldable pub stop_aborted : Params → String → Prog State (Unit {0})
stop_aborted p t = do
  mark_remaining_tenants_skipped p.rollout_id t p.tenant_ids "aborted"
  finalize_rollout p.rollout_id RolloutStatus.aborted none none

-- The branch of a provisioning failure.
unfoldable pub stop_failed : Params → String → String → Prog State (Unit {0})
stop_failed p t message = do
  mark_failed p t message
  finalize_rollout p.rollout_id RolloutStatus.failed (some t) (some message)
  set_current none

abbrev pub disappeared : String → String
disappeared rollout_id = ("Rollout row " +++ rollout_id) +++ " disappeared mid-run"

-- What follows the provisioning call: stop at a failure, or go on with the loop.
unfoldable pub after_provision :
    Params → String → Prog State (Unit {0}) → Option String → Prog State (Unit {0})
after_provision p t loop (some message) = stop_failed p t message
after_provision p t loop none = do mark_succeeded p t; set_current none; loop

unfoldable pub provision_one : Params → String → Prog State (Unit {0}) → Prog State (Unit {0})
provision_one p t loop = do
  mark_started p t
  outcome ← provision_tenant p t
  after_provision p t loop outcome

-- One tenant, with the abort flag that was just read.
unfoldable pub after_flag :
    Params → String → Prog State (Unit {0}) → Option String → Prog State (Unit {0})
after_flag p t loop (some reason) = stop_aborted p t
after_flag p t loop none = do set_current (some t); provision_one p t loop

-- One tenant, with the rollout row that was just read.
unfoldable pub after_check :
    Params → String → Prog State (Unit {0}) → Option RolloutRow → Prog State (Unit {0})
after_check p t loop none = throw (disappeared p.rollout_id)
after_check p t loop (some row) = after_flag p t loop row.abort_reason

-- The loop over the tenants that are left, and the completion that follows it.
unfoldable pub run_tenants : Params → List String → Prog State (Unit {0})
run_tenants p [] = finalize_rollout p.rollout_id RolloutStatus.completed none none
run_tenants p (t ∷ rest) = do
  row ← select_rollout p.rollout_id
  after_check p t (run_tenants p rest) row

-- catch (error): the rollout is finalized as failed, and a second error is only logged.
unfoldable pub on_unexpected_error : Params → String → Prog State (Unit {0})
on_unexpected_error p message =
    try_catch
      (λ s. finalize_rollout p.rollout_id RolloutStatus.failed s.current_tenant_id (some message) s)
      (λ _. pure tt)

-- finally: pg_advisory_unlock, whose error is only logged, and client.release().
unfoldable pub release_client : Params → Prog State (Unit {0})
release_client p = do
  try_catch (await_update (λ s. record s { lock_holds = unlock p.session s.lock_holds }))
      (λ _. pure tt)
  modify (λ s. record s { checked_out = s.checked_out - 1 })

-- The try and the catch.
unfoldable pub guarded_run : Params → Prog State (Unit {0})
guarded_run p = try_catch (run_tenants p p.tenant_ids) (on_unexpected_error p)

unfoldable pub run_rollout : Params → Prog State (Unit {0})
run_rollout p = do set_current none; guarded_run p; release_client p
