-- ===== src/Models.antt =====
-- The ORM models: one record for each mapped class, one data type for each enumeration.
mod Tenants
mod Users
mod Catalog
mod Lessons
mod Grading
mod AuditLogs
unfoldable pub use Tenants.*
unfoldable pub use Users.*
pub use Catalog.*
pub use Lessons.*
pub use Grading.*
pub use AuditLogs.*
