-- ===== src/Api.antt =====
-- The tenant's API, apps/api/src: the note store, note references, and the maintenance mode.
pub mod References
pub mod Maintenance
pub mod Notes
pub mod Store
pub mod Memberships
pub mod Consolidation
pub mod Campaigns
pub mod OwnerAccounts
pub mod ShareLinks
mod Tests
