-- ===== src/Web.antt =====
-- The web client, apps/web/src.
pub mod References
