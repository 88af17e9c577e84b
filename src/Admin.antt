-- ===== src/Admin.antt =====
-- app/modules/admin: what a tenant's administrators do with users, lessons and assignments, the reports,
-- and the administration of tenants.
mod Schemas
mod Service
mod Tenants
pub mod Rules
pub mod Platform
pub use Schemas.*
unfoldable pub use Service.*
unfoldable pub use Tenants.*
