-- ===== src/ControlPlane.antt =====
-- The control plane, apps/control-plane/src.
pub mod Subdomain
pub mod Uptime
pub mod Rollout
pub mod RoleSync
pub mod Backup
