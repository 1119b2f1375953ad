-- ===== src/Activator.antt =====
-- The activator, apps/activator/src, which wakes sleeping tenants.
pub mod Resolver
pub mod RequestKind
pub mod Handler
pub mod Watch
pub mod Activity
pub mod IdleScaler
