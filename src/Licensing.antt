-- ===== src/Licensing.antt =====
-- app/core/licensing: which modules a tenant may use.
mod Service
pub mod Rules
pub mod Entitled
pub mod Access
pub mod Rows
pub mod Toggle
unfoldable pub use Service.*
