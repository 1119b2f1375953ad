-- ===== src/ControlPlane/Backup.antt =====
-- The nightly backups, apps/control-plane/src/backup-scheduler.ts, with the operations on the backup
-- catalog and the blob store that they call.
pub mod World
pub mod Schedule
pub mod Catalog
pub mod Retention
pub mod Run
mod Tests
