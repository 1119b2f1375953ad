-- ===== src/ControlPlane/Backup/Run.antt =====
-- backupOneTenant, the tick and the timer of startBackupScheduler.
pub mod Laws
use dnd_notes.Common.{
  ℕ, ◌+◌, ◌-◌, String, Bool, true, false, ◌&&◌, ◌||◌, not, Option, none, some, List, [], ◌∷◌, ◌++◌,
  ◌==◌, ◌=ℕ◌, ltb, leb, if◌then◌else◌, keep, codes, given, is_some,
}
use dnd_notes.Common.Prog.{Result, ok, err, Prog, ◌>>=◌, ◌>>◌, pure}
use dnd_notes.ControlPlane.Backup.World.{AuditEntry, Tenant, State}
use dnd_notes.ControlPlane.Backup.Catalog.{
  Artifact, create_backup_run, mark_backup_run_running, mark_backup_run_completed,
  mark_backup_run_failed, append_audit_log_entry, list_tenants,
}
use dnd_notes.ControlPlane.Backup.Schedule.{next_scheduled_time}
use dnd_notes.ControlPlane.Backup.Retention.{run_retention_sweep}

-- The options of startBackupScheduler, with the dispatcher that it is given and the identifiers that
-- randomUUID generates. `has_store` is whether there is an artifact store.
pub record Options : Type 0 where
  pub execute_backup : Tenant → Prog State Artifact
  pub new_id : Tenant → String
  pub has_store : Bool
  pub schedule_expression : String
  pub retention_days : ℕ

abbrev pub audit : Tenant → String → (outcome details : String) → AuditEntry
audit tenant id outcome details = record {
  tenant_id = tenant.id;
  actor = "backup-scheduler";
  action = "tenant.backup.create";
  resource_id = id;
  outcome = outcome;
  details = details;
}

-- try { m } catch {}
abbrev pub attempt : {A : Type 0} → Prog State A → State → State
attempt m s = (m s).1

unfoldable pub write_backup : Options → Tenant → String → Prog State (Unit {0})
write_backup o tenant id = do
  mark_backup_run_running id
  artifact ← o.execute_backup tenant
  mark_backup_run_completed id artifact
  (λ s.
      pure tt (attempt (append_audit_log_entry (audit tenant id "succeeded" artifact.location)) s))

unfoldable pub on_backup_error : Tenant → String → String → State → State
on_backup_error tenant id reason s =
    attempt (append_audit_log_entry (audit tenant id "failed" reason))
      (attempt (mark_backup_run_failed id reason) s)

abbrev pub written : Tenant → String → Result (Unit {0}) × State → Bool × State
written tenant id (ok a, s) = (true, s)
written tenant id (err reason, s) = (false, on_backup_error tenant id reason s)

abbrev pub created : Options → Tenant → String → Result (Unit {0}) × State → Bool × State
created o tenant id (err message, s) = (false, s)
created o tenant id (ok a, s) = written tenant id (
    write_backup o tenant id
      (attempt (append_audit_log_entry (audit tenant id "requested" "Scheduled nightly backup")) s))

unfoldable pub backup_one_tenant : Options → Tenant → State → Bool × State
backup_one_tenant o tenant s =
    created o tenant (o.new_id tenant) (
      create_backup_run (o.new_id tenant) tenant.id "backup-scheduler" "Scheduled nightly backup" s)

abbrev is_safe : ℕ → Bool
is_safe c =
    (leb b'A' c && leb c b'Z')
    || (leb b'a' c && leb c b'z')
    || (leb b'0' c && leb c b'9')
    || c =ℕ b'.'
    || c =ℕ b'_'
    || c =ℕ b'-'

abbrev to_lower : ℕ → ℕ
to_lower c = if leb b'A' c && leb c b'Z' then c + 32 else c

-- replace(/[^A-Za-z0-9._-]+/g, '-').toLowerCase(), `run` being whether a replaced run goes on.
unfoldable pub sanitize : Bool → List ℕ → List ℕ
sanitize run [] = []
sanitize run (c ∷ text) =
    let rest = sanitize (not (is_safe c)) text in
    if is_safe c then to_lower c ∷ rest else if run then rest else b'-' ∷ rest

abbrev pub tenant_prefix : Tenant → List ℕ
tenant_prefix tenant = sanitize false (codes tenant.id)

abbrev pub is_backed_up : Tenant → Bool
is_backed_up t =
    (t.current_state == "ready" || t.current_state == "sleeping")
    && is_some (given t.storage_reference)

abbrev pub add_if : Bool → List ℕ → List (List ℕ) → List (List ℕ)
add_if true prefix fresh = prefix ∷ fresh
add_if false prefix fresh = fresh

-- The prefixes whose backup succeeded, or `none` where stop() ends the tick.
unfoldable pub back_up_each :
    Options → List Tenant → List (List ℕ) → State → Option (List (List ℕ)) × State
back_up_each o [] fresh s = (some fresh, s)
back_up_each o (t ∷ rest) fresh s =
    let (succeeded, u) = backup_one_tenant o t s in
    if s.stopped
    then (none, s)
    else back_up_each o rest (add_if succeeded (tenant_prefix t) fresh) u

abbrev pub delay_until : Option ℕ → ℕ → Option ℕ
delay_until none now = none
delay_until (some next) now = some (next - now)

unfoldable pub schedule_next : Options → State → State
schedule_next o s = if s.stopped then s else record s {
  timer = delay_until (next_scheduled_time o.schedule_expression s.clock) s.clock;
}

abbrev pub after_backups : Options → Option (List (List ℕ)) × State → State
after_backups o (none, s) = s
after_backups o (some fresh, s) = schedule_next o (
    if o.has_store && ltb 0 o.retention_days
    then run_retention_sweep fresh o.retention_days s
    else s)

abbrev pub tick_listed : Options → Result (List Tenant) × State → State
tick_listed o (err message, s) = schedule_next o s
tick_listed o (ok tenants, s) = after_backups o (back_up_each o (keep is_backed_up tenants) [] s)

unfoldable pub tick : Options → State → State
tick o s = if s.stopped then s else tick_listed o (list_tenants s)
