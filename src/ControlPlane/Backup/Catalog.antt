-- ===== src/ControlPlane/Backup/Catalog.antt =====
-- The registry's operations on the backup catalog and the audit log, and the blob store's, of
-- tenant-registry-postgres.ts and tenant-backup-azure-blob.ts.
use Prim.Native.String.{◌++◌ as ◌+++◌}
use dnd_notes.Common.{
  ℕ, String, Bool, true, false, ◌&&◌, ◌||◌, not, Option, none, some, List, [], ◌∷◌, ◌++◌, ◌==◌,
  ◌=ℕ◌, ltb, if◌then◌else◌, coalesce, keep, any, count, update_where, codes,
}
use dnd_notes.Common.Prog.{Prog, ◌>>=◌, pure, throw}
use dnd_notes.ControlPlane.Backup.World.{
  BackupStatus, BackupRow, AuditEntry, Tenant, Blob, State, await,
}

pub record Artifact : Type 0 where
  pub location : String
  pub size_bytes : ℕ
  pub sha256 : String
  pub captured_at : ℕ

unfoldable pub create_backup_run :
    (id tenant_id triggered_by reason : String) → Prog State (Unit {0})
create_backup_run id tenant_id triggered_by reason = await (λ s. (
  tt,
  record s {
    catalog =
        s.catalog
        ++ record {
          id = id;
          tenant_id = tenant_id;
          status = BackupStatus.queued;
          triggered_by = triggered_by;
          reason = some reason;
          location = none;
          size_bytes = none;
          checksum = none;
          started_at = none;
          completed_at = none;
          failure_reason = none;
          location_deleted = false;
        }
          ∷ [];
  },
))

abbrev pub has_id : String → BackupRow → Bool
has_id id r = r.id == id

-- assertBackupRunReturned.
abbrev pub assert_returned : String → Bool → Prog State (Unit {0})
assert_returned id true = pure tt
assert_returned id false = throw (("Backup run " +++ id) +++ " not found")

-- UPDATE backup_catalog ... WHERE id RETURNING, and the check that a row came back.
unfoldable pub update_run : String → (ℕ → BackupRow → BackupRow) → Prog State (Unit {0})
update_run id f = do
  found ← await (λ s. (
    any (has_id id) s.catalog,
    record s { catalog = update_where (has_id id) (f s.clock) s.catalog },
  ))
  assert_returned id found

abbrev pub as_running : ℕ → BackupRow → BackupRow
as_running now r = record r {
  status = BackupStatus.running;
  started_at = coalesce r.started_at (some now);
}

unfoldable pub mark_backup_run_running : String → Prog State (Unit {0})
mark_backup_run_running id = update_run id as_running

abbrev pub as_completed : Artifact → ℕ → BackupRow → BackupRow
as_completed a now r = record r {
  status = BackupStatus.completed;
  location = some a.location;
  size_bytes = some a.size_bytes;
  checksum = some a.sha256;
  completed_at = some a.captured_at;
  failure_reason = none;
}

unfoldable pub mark_backup_run_completed : String → Artifact → Prog State (Unit {0})
mark_backup_run_completed id a = update_run id (as_completed a)

abbrev pub as_failed : String → ℕ → BackupRow → BackupRow
as_failed reason now r = record r {
  status = BackupStatus.failed;
  failure_reason = some reason;
  completed_at = some now;
}

unfoldable pub mark_backup_run_failed : String → String → Prog State (Unit {0})
mark_backup_run_failed id reason = update_run id (as_failed reason)

unfoldable pub append_audit_log_entry : AuditEntry → Prog State (Unit {0})
append_audit_log_entry entry = await (λ s. (tt, record s { audit = s.audit ++ entry ∷ [] }))

-- location LIKE '%/' || name, for a name with no metacharacter.
abbrev ends_with : String → String → Bool
ends_with ending String.[] = String.[] == ending
ends_with ending (String.◌∷◌ c text) = String.◌∷◌ c text == ending || ends_with ending text

abbrev is_at : String → Option String → Bool
is_at name none = false
is_at name (some location) = ends_with ("/" +++ name) location

abbrev is_metacharacter : ℕ → Bool
is_metacharacter c = c =ℕ b'%' || c =ℕ b'_' || c =ℕ b'\\'

abbrev is_match : String → BackupRow → Bool
is_match name r = is_at name r.location && not r.location_deleted

-- Gives the number of rows.
unfoldable pub mark_backup_catalog_location_deleted_for_blob : String → Prog State ℕ
mark_backup_catalog_location_deleted_for_blob name =
    if any is_metacharacter (codes name)
    then throw (
        "markBackupCatalogLocationDeletedForBlob: blobName contains a LIKE metacharacter (%, _, or \\): "
        +++ name)
    else await (λ s. (
      count (is_match name) s.catalog,
      record s {
        catalog =
            update_where (is_match name) (λ r. record r { location_deleted = true }) s.catalog;
      },
    ))

unfoldable pub list_tenants : Prog State (List Tenant)
list_tenants = await (λ s. (s.tenants, s))

unfoldable pub list_blobs_older_than : ℕ → Prog State (List Blob)
list_blobs_older_than cutoff = await (λ s. (keep (λ b. ltb b.last_modified cutoff) s.blobs, s))

-- deleteIfExists: a blob that is gone is no error.
unfoldable pub delete_blob : String → Prog State (Unit {0})
delete_blob name = await (λ s. (tt, record s { blobs = keep (λ b. not (b.name == name)) s.blobs }))
