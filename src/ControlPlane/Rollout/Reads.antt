-- ===== src/ControlPlane/Rollout/Reads.antt =====
-- The readers of a rollout (getCurrentFleetRollout, getFleetRollout, buildRolloutWithCounts,
-- mapRolloutRow), abortFleetRollout, and markOrphanRunningRolloutsFailed. Times are milliseconds.
use dnd_notes.Common.{
  ℕ, ◌+◌, ◌-◌, ◌*◌, ◌/◌, String, Bool, true, false, ◌&&◌, not, Option, none, some, List, [], ◌∷◌,
  ◌==◌, ltb, if◌then◌else◌, or_else, is_some, keep, find, count, length, update_where,
}
use dnd_notes.Common.Prog.{Prog, ◌>>=◌, ◌>>◌, pure}
use dnd_notes.ControlPlane.Rollout.Tables.{
  RolloutStatus, TenantStatus, RolloutRow, TenantRow, State, await, await_update, is_running,
  find_rollout, set_abort_reason,
}

pub record FleetRollout : Type 0 where
  pub row : RolloutRow
  pub total : ℕ
  pub completed : ℕ
  pub failed : ℕ
  pub skipped : ℕ
  pub pending : ℕ
  pub current_tenant : Option String
  pub elapsed_seconds : ℕ

abbrev pub has_status : TenantStatus → TenantStatus → Bool
has_status TenantStatus.pending TenantStatus.pending = true
has_status TenantStatus.succeeded TenantStatus.succeeded = true
has_status TenantStatus.failed TenantStatus.failed = true
has_status TenantStatus.skipped TenantStatus.skipped = true
has_status _ _ = false

pub record Counts : Type 0 where
  pub total : ℕ
  pub completed : ℕ
  pub failed : ℕ
  pub skipped : ℕ
  pub pending : ℕ

unfoldable pub rows_of : String → List TenantRow → List TenantRow
rows_of rollout_id = keep (λ r. r.rollout_id == rollout_id)

unfoldable pub count_rows : List TenantRow → Counts
count_rows rows = record {
  total = length rows;
  completed = count (λ r. has_status r.status TenantStatus.succeeded) rows;
  failed = count (λ r. has_status r.status TenantStatus.failed) rows;
  skipped = count (λ r. has_status r.status TenantStatus.skipped) rows;
  pending = count (λ r. has_status r.status TenantStatus.pending) rows;
}

abbrev is_under_way : TenantRow → Bool
is_under_way r = is_some r.started_at && not (is_some r.ended_at)

abbrev pub tenant_id_of : Option TenantRow → Option String
tenant_id_of none = none
tenant_id_of (some r) = some r.tenant_id

-- The tenant that is being provisioned, of a rollout's rows.
unfoldable pub current_of : List TenantRow → Option String
current_of rows = tenant_id_of (find is_under_way rows)

-- Math.round of milliseconds over 1000, to the present while the rollout runs.
unfoldable pub map_rollout_row : RolloutRow → Counts → Option String → ℕ → FleetRollout
map_rollout_row row counts current now = record {
  row = row;
  total = counts.total;
  completed = counts.completed;
  failed = counts.failed;
  skipped = counts.skipped;
  pending = counts.pending;
  current_tenant = current;
  elapsed_seconds = (or_else row.ended_at now - row.started_at + 500) / 1000;
}

unfoldable pub build_rollout_with_counts : RolloutRow → Prog State FleetRollout
build_rollout_with_counts row = do
  counts ← await (λ s. (count_rows (rows_of row.id s.rollout_tenants), s))
  current ← await (λ s. (current_of (rows_of row.id s.rollout_tenants), s))
  (λ s. pure (map_rollout_row row counts current s.clock) s)

abbrev build_if_found : Option RolloutRow → Prog State (Option FleetRollout)
build_if_found none = pure none
build_if_found (some row) = do rollout ← build_rollout_with_counts row; pure (some rollout)

abbrev later : RolloutRow → Option RolloutRow → Option RolloutRow
later row none = some row
later row (some best) = if ltb row.started_at best.started_at then some best else some row

-- WHERE status = 'running' ORDER BY started_at DESC LIMIT 1.
unfoldable pub newest_running : List RolloutRow → Option RolloutRow
newest_running [] = none
newest_running (row ∷ rows) =
    let rest = newest_running rows in if is_running row.status then later row rest else rest

unfoldable pub get_current_fleet_rollout : Prog State (Option FleetRollout)
get_current_fleet_rollout = do row ← await (λ s. (newest_running s.rollouts, s)); build_if_found row

unfoldable pub get_fleet_rollout : String → Prog State (Option FleetRollout)
get_fleet_rollout rollout_id = do
  row ← await (λ s. (find_rollout rollout_id s.rollouts, s))
  build_if_found row

pub data AbortOutcome : Type 0 where
  requested not_found already_ended : AbortOutcome

unfoldable pub abort_found : String → Option String → Option RolloutRow → Prog State AbortOutcome
abort_found rollout_id reason none = pure not_found
abort_found rollout_id reason (some row) =
    if is_running row.status
    then (do
      await_update (λ s. record s {
        rollouts = set_abort_reason rollout_id (or_else reason "Aborted by operator") s.rollouts;
      })
      pure requested)
    else pure already_ended

-- The two errors of the source are outcomes.
unfoldable pub abort_fleet_rollout : String → Option String → Prog State AbortOutcome
abort_fleet_rollout rollout_id reason = do
  row ← await (λ s. (find_rollout rollout_id s.rollouts, s))
  abort_found rollout_id reason row

unfoldable pub is_orphan : ℕ → ℕ → RolloutRow → Bool
is_orphan now grace_seconds r = is_running r.status && ltb (r.started_at + grace_seconds * 1000) now

abbrev pub fail_orphan : ℕ → RolloutRow → RolloutRow
fail_orphan now r = record r {
  status = RolloutStatus.failed;
  ended_at = some now;
  failed_error = some "control-plane restart";
}

-- Gives the number of rows that RETURNING reports.
unfoldable pub mark_orphan_running_rollouts_failed : Option ℕ → Prog State ℕ
mark_orphan_running_rollouts_failed grace = await (λ s.
    let orphan = is_orphan s.clock (or_else grace 60) in
    (
      count orphan s.rollouts,
      record s { rollouts = update_where orphan (fail_orphan s.clock) s.rollouts },
    ))
