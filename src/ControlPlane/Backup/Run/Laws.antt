-- ===== src/ControlPlane/Backup/Run/Laws.antt =====
-- What a reported success means, and that the scheduler goes on.
use dnd_notes.Common.{
  ℕ, String, Bool, true, false, ◌≡◌, refl, sym, ◌∙◌, ap, subst, ◌≢◌, ◌⊎◌, inl, inr, Option, none,
  some, List, [], ◌∷◌, arith, if◌then◌else◌, find, find-true, any, find-update_where, is_some, keep,
  Bool-cases, Option-cases,
}
use dnd_notes.Common.Prog.{Result, ok, err, Prog, follow, ◌>>◌, pure}
use dnd_notes.ControlPlane.Backup.World.{
  BackupStatus, BackupRow, AuditEntry, Tenant, State, turn, turn-same, await,
}
use dnd_notes.ControlPlane.Backup.Catalog.{
  Artifact, create_backup_run, has_id, update_run, as_completed, mark_backup_run_running,
  mark_backup_run_completed, append_audit_log_entry, list_tenants,
}
use dnd_notes.ControlPlane.Backup.Schedule.{next_scheduled_time}
use dnd_notes.ControlPlane.Backup.Schedule.Laws.{next_scheduled_time-is_some}
use dnd_notes.ControlPlane.Backup.Run.{
  Options, audit, attempt, write_backup, written, created, backup_one_tenant, back_up_each,
  delay_until, schedule_next, after_backups, tick_listed, tick, add_if, tenant_prefix, is_backed_up,
}

-- The catalog's row says that the backup is done, and where it lies.
abbrev pub IsRecorded : String → State → Type 0
IsRecorded id s =
    (r : BackupRow) × (find (has_id id) s.catalog ≡ some r)
    × (r.status ≡ BackupStatus.completed)
    × ((location : String) × (r.location ≡ some location))

any-find :
    (id : String) (rows : List BackupRow)
    → any (has_id id) rows ≡ true
    → (r : BackupRow) × (find (has_id id) rows ≡ some r)
any-find id [] e = absurd (false-ne e)
  where
    false-ne : ◌≢◌ {A = Bool} false true
    false-ne e = cc
any-find id (r ∷ rows) e = elim (Bool-cases (has_id id r)) [
  | inl same ↦ (r, ground (arith, same))
  | inr other ↦
      let (q, f) = any-find id rows (ground (arith, other, e)) in (q, ground (arith, other, f))
]

completed-IsRecorded :
    (id : String) (a : Artifact) (s : State)
    → ((mark_backup_run_completed id a s).0 ≡ ok tt
        → IsRecorded id (mark_backup_run_completed id a s).1)
unfolding mark_backup_run_completed update_run await
completed-IsRecorded id a s done = elim (Option-cases (turn s).0) [
  | inr (m, e) ↦ absurd (ground (arith, e, done))
  | inl e ↦
      let u = (turn s).1 in
      elim (Bool-cases (any (has_id id) u.catalog)) [
        | inr missing ↦ absurd (ground (arith, e, missing, done))
        | inl there ↦
            let (r, found) = any-find id u.catalog there in
            (
              as_completed a u.clock r,
              ground (
                arith,
                e,
                there,
                found,
                find-true (has_id id) u.catalog r found,
                find-update_where (has_id id) (has_id id) (as_completed a u.clock) u.catalog
                    (λ x. refl),
              ),
              refl,
              (a.location, refl),
            )
      ]
]

err-ne : (m : String) → ◌≢◌ {A = Result (Unit {0})} (err m) (ok tt)
err-ne m e = cc

audit-catalog :
    (entry : AuditEntry) (s : State) → (append_audit_log_entry entry s).1.catalog ≡ s.catalog
unfolding append_audit_log_entry await
audit-catalog entry s = ground (arith, turn-same (λ x. x.catalog) (λ s b ts. refl) s)

module _ (o : Options) (tenant : Tenant) (id : String) where
  abbrev complete : Artifact → Prog State (Unit {0})
  complete a = do
    mark_backup_run_completed id a
    (λ s. pure tt (attempt (append_audit_log_entry (audit tenant id "succeeded" a.location)) s))

  complete-IsRecorded :
      (a : Artifact) (s : State) → (complete a s).0 ≡ ok tt → IsRecorded id (complete a s).1
  complete-IsRecorded a s =
      by_result (mark_backup_run_completed id a s) (completed-IsRecorded id a s)
    where
      by_result :
          (r : Result (Unit {0}) × State)
          → (r.0 ≡ ok tt → IsRecorded id r.1)
          → (follow r (λ _ x.
              pure tt
                (attempt (append_audit_log_entry (audit tenant id "succeeded" a.location)) x))).0
            ≡ ok tt
          → IsRecorded id
              (follow r (λ _ x.
                pure tt
                  (attempt (append_audit_log_entry (audit tenant id "succeeded" a.location)) x))).1
      by_result (ok u, x) h e =
          let k = h refl in
          (
            k.0,
            ap (find (has_id id)) (audit-catalog (audit tenant id "succeeded" a.location) x) ∙ k.1,
            k.2,
            k.3,
          )
      by_result (err m, x) h e = absurd (err-ne m e)

  write_backup-IsRecorded :
      (s : State)
      → (write_backup o tenant id s).0 ≡ ok tt
      → IsRecorded id (write_backup o tenant id s).1
  unfolding write_backup
  write_backup-IsRecorded s = by_running (mark_backup_run_running id s)
    where
      by_artifact :
          (r : Result Artifact × State)
          → (follow r complete).0 ≡ ok tt
          → IsRecorded id (follow r complete).1
      by_artifact (ok a, x) e = complete-IsRecorded a x e
      by_artifact (err m, x) e = absurd (err-ne m e)

      by_running :
          (r : Result (Unit {0}) × State)
          → (follow r (λ _ x. follow (o.execute_backup tenant x) complete)).0 ≡ ok tt
          → IsRecorded id (follow r (λ _ x. follow (o.execute_backup tenant x) complete)).1
      by_running (ok u, x) e = by_artifact (o.execute_backup tenant x) e
      by_running (err m, x) e = absurd (err-ne m e)

-- Whatever calls fail and whatever the dispatcher does: a backup is reported as a success only if the
-- row of its identifier in the catalog is completed, with a location; otherwise it is reported as a
-- failure, and nothing is thrown.
pub backup_one_tenant-IsRecorded :
    (o : Options) (tenant : Tenant) (s : State)
    → let (succeeded, t) = backup_one_tenant o tenant s in
      (succeeded ≡ false) ⊎ ((succeeded ≡ true) × IsRecorded (o.new_id tenant) t)
unfolding backup_one_tenant
backup_one_tenant-IsRecorded o tenant s =
    by_created (create_backup_run id tenant.id "backup-scheduler" "Scheduled nightly backup" s)
  where
    id : String
    id = o.new_id tenant

    by_written :
        (r : Result (Unit {0}) × State)
        → (r.0 ≡ ok tt → IsRecorded id r.1)
        → ((written tenant id r).0 ≡ false)
          ⊎ (((written tenant id r).0 ≡ true) × IsRecorded id (written tenant id r).1)
    by_written (ok u, x) h = inr (refl, h refl)
    by_written (err m, x) h = inl refl

    by_created :
        (r : Result (Unit {0}) × State)
        → ((created o tenant id r).0 ≡ false)
          ⊎ (((created o tenant id r).0 ≡ true) × IsRecorded id (created o tenant id r).1)
    by_created (ok u, x) = by_written _ (write_backup-IsRecorded o tenant id _)
    by_created (err m, x) = inl refl

-- After a part of a tick: stopped, or a tick is scheduled.
abbrev pub GoesOn : State → Type 0
GoesOn s = (s.stopped ≡ true) ⊎ (is_some s.timer ≡ true)

schedule_next-GoesOn :
    (o : Options) (now : ℕ) (s : State)
    → is_some (next_scheduled_time o.schedule_expression now) ≡ true
    → GoesOn (schedule_next o s)
unfolding schedule_next
schedule_next-GoesOn o now s valid = elim (Bool-cases s.stopped) [
  | inl halted ↦ inl (ground (arith, halted))
  | inr going ↦
      let v = next_scheduled_time-is_some o.schedule_expression now s.clock valid in
      inr (
        ground
          (arith, going, delayed (next_scheduled_time o.schedule_expression s.clock) s.clock v))
]
  where
    delayed :
        (next : Option ℕ) (now : ℕ) → is_some next ≡ true → is_some (delay_until next now) ≡ true
    delayed none now e = cc
    delayed (some t) now e = refl

back_up_each-stopped :
    (o : Options) (tenants : List Tenant) (fresh : List (List ℕ)) (s : State)
    → let (r, t) = back_up_each o tenants fresh s in (is_some r ≡ true) ⊎ (t.stopped ≡ true)
unfolding back_up_each
back_up_each-stopped o [] fresh s = inl refl
back_up_each-stopped o (t ∷ rest) fresh s = by_test s.stopped _ refl (
    back_up_each-stopped o rest (add_if (backup_one_tenant o t s).0 (tenant_prefix t) fresh)
      (backup_one_tenant o t s).1)
  where
    by_test :
        (b : Bool) (r : Option (List (List ℕ)) × State)
        → s.stopped ≡ b
        → (is_some r.0 ≡ true) ⊎ (r.1.stopped ≡ true)
        → (is_some (if b then (none, s) else r).0 ≡ true)
          ⊎ ((if b then (none, s) else r).1.stopped ≡ true)
    by_test true r e h = inr e
    by_test false r e h = h

-- A tick of a valid schedule never ends the scheduling: afterwards stop() was called, or the next
-- tick is scheduled, whatever calls failed.
pub tick-GoesOn :
    (o : Options) (now : ℕ) (s : State)
    → is_some (next_scheduled_time o.schedule_expression now) ≡ true
    → GoesOn (tick o s)
unfolding tick
tick-GoesOn o now s valid = elim (Bool-cases s.stopped) [
  | inl halted ↦
      subst (λ b. GoesOn (if b then s else tick_listed o (list_tenants s))) (sym halted)
        (inl halted)
  | inr going ↦
      subst (λ b. GoesOn (if b then s else tick_listed o (list_tenants s))) (sym going)
        (by_listed (list_tenants s))
]
  where
    by_backups :
        (r : Option (List (List ℕ)) × State)
        → (is_some r.0 ≡ true) ⊎ (r.1.stopped ≡ true)
        → GoesOn (after_backups o r)
    by_backups (none, x) (inl e) = cc
    by_backups (none, x) (inr e) = inl e
    by_backups (some fresh, x) h = schedule_next-GoesOn o now _ valid

    by_listed : (r : Result (List Tenant) × State) → GoesOn (tick_listed o r)
    by_listed (err m, x) = schedule_next-GoesOn o now x valid
    by_listed (ok tenants, x) =
        by_backups _ (back_up_each-stopped o (keep is_backed_up tenants) [] x)
