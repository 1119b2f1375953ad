-- ===== src/ControlPlane/Backup/Tests.antt =====
-- Two tenants' blobs and a schedule, and the theorems on backups at work on them.
use dnd_notes.Common.{
  All, ℕ, ◌+◌, ◌*◌, ◌%◌, ◌≤◌, ◌<◌, true, false, ◌≡◌, refl, ap, if◌then◌else◌, ◌==◌, ◌⊎◌, inl, none,
  some, List, [], ◌∷◌, arith, is_some, In, unequal, codes,
}
use dnd_notes.Common.Prog.{ok, err}
use dnd_notes.ControlPlane.Backup.World.{Tenant, Blob, State, Turn, await, turn}
use dnd_notes.ControlPlane.Backup.Catalog.{list_blobs_older_than}
use dnd_notes.ControlPlane.Backup.Schedule.{
  next_scheduled_time, fields, parse_int_cron_field, parse_int, read_digits, next_at, day, slot,
}
use dnd_notes.ControlPlane.Backup.Schedule.Laws.{Names, next_scheduled_time-bounds}
use dnd_notes.ControlPlane.Backup.Retention.{
  run_retention_sweep, prefix_of, is_fresh, is_retained, newest_by_prefix, sweep_each, sweep_one,
}
use dnd_notes.ControlPlane.Backup.Retention.Sweep.{HasCopy, is_stale, run_retention_sweep-HasCopy}
use dnd_notes.ControlPlane.Backup.Retention.Thorough.{rivals, run_retention_sweep-Clears}
use dnd_notes.ControlPlane.Backup.Run.{Options, backup_one_tenant}
use dnd_notes.ControlPlane.Backup.Run.Laws.{IsRecorded, backup_one_tenant-IsRecorded}

three_o_clock : next_scheduled_time "0 3 * * *" 1_000_000 ≡ some 10_800_000
unfolding next_scheduled_time fields parse_int_cron_field parse_int read_digits next_at
three_o_clock = refl

-- At the very time of the schedule the next run is a day later.
on_time : next_scheduled_time "0 3 * * *" 10_800_000 ≡ some (10_800_000 + day)
unfolding next_scheduled_time fields parse_int_cron_field parse_int read_digits next_at
on_time = refl

-- parseInt reads the hours 3 to 5 as the hour 3.
a_range : next_scheduled_time "0 3-5 * * *" 1_000_000 ≡ some 10_800_000
unfolding next_scheduled_time fields parse_int_cron_field parse_int read_digits next_at
a_range = refl

weekly : next_scheduled_time "0 3 * * 0" 1_000_000 ≡ none
unfolding next_scheduled_time fields
weekly = refl

next_scheduled_time-bounds_example :
    ((minute : ℕ) × (hour : ℕ) × Names "0 3 * * *" minute hour
      × (10_800_000 % day ≡ slot minute hour))
    × (1_000_000 < 10_800_000)
    × (10_800_000 ≤ 1_000_000 + day)
    × (10_800_000 ≤ 10_800_000 + day)
next_scheduled_time-bounds_example =
    next_scheduled_time-bounds "0 3 * * *" 1_000_000 10_800_000 (10_800_000 + day) three_o_clock
      (omega arith) (omega arith)

abbrev ada : Blob
ada = record { name = "ada/1.dump"; last_modified = 1_000 }

abbrev bea : Blob
bea = record { name = "bea/1.dump"; last_modified = 2_000 }

abbrev state : List Turn → State
state turns = record {
  tenants =
      record { id = "ada"; current_state = "ready"; storage_reference = some "db-ada" }
      ∷ record { id = "bea"; current_state = "sleeping"; storage_reference = some "db-bea" }
      ∷ [];
  catalog = [];
  audit = [];
  blobs = ada ∷ bea ∷ [];
  clock = 20 * day;
  stopped = false;
  timer = none;
  turns = turns;
}

run_retention_sweep-HasCopy_example :
    (is_fresh (codes "bea" ∷ []) (prefix_of ada) ≡ true)
    ⊎ HasCopy (run_retention_sweep (codes "bea" ∷ []) 14 (state [])).blobs ada
run_retention_sweep-HasCopy_example =
    run_retention_sweep-HasCopy (codes "bea" ∷ []) 14 (state []) ada
      ((unequal _ _ refl, tt), (tt, tt)) (inl refl)

kept : In (run_retention_sweep [] 14 (state [])).blobs ada
unfolding run_retention_sweep list_blobs_older_than await turn newest_by_prefix sweep_each sweep_one
    is_retained prefix_of
kept = inl refl

run_retention_sweep-Clears_example :
    In (ada ∷ bea ∷ []) ada
    × ((is_stale 14 (20 * day) ada ≡ false)
        ⊎ ((is_fresh [] (prefix_of ada) ≡ false)
            × All
                (λ b. b.last_modified ≤ ada.last_modified)
                (rivals 14 (20 * day) ada (ada ∷ bea ∷ []))))
run_retention_sweep-Clears_example =
    run_retention_sweep-Clears [] 14 (state []) ada refl refl ((unequal _ _ refl, tt), (tt, tt))
      kept

-- The dispatcher writes the dump of each tenant but one.
abbrev options : Options
options = record {
  execute_backup = λ t s. if t.id == "bea" then (err "pg_dump failed", s) else (
    ok (record {
      location = "https://store/ada/2.dump";
      size_bytes = 9;
      sha256 = "f0";
      captured_at = 5;
    }),
    s,
  );
  new_id = λ t. t.id;
  has_store = true;
  schedule_expression = "0 3 * * *";
  retention_days = 14;
}

abbrev tenant : Tenant
tenant = record { id = "ada"; current_state = "ready"; storage_reference = some "db-ada" }

-- The second call of the registry fails, and stop() is called meanwhile.
abbrev flaky : List Turn
flaky =
    record { stop = false; fault = none }
    ∷ record { stop = true; fault = some "connection lost" }
    ∷ []

backup_one_tenant-IsRecorded_example :
    let (succeeded, t) = backup_one_tenant options tenant (state flaky) in
    (succeeded ≡ false) ⊎ ((succeeded ≡ true) × IsRecorded "ada" t)
backup_one_tenant-IsRecorded_example = backup_one_tenant-IsRecorded options tenant (state flaky)

valid : is_some (next_scheduled_time "0 3 * * *" 1_000_000) ≡ true
valid = ap is_some three_o_clock
