-- ===== src/Database.antt =====
-- app/core/database: the policies of row-level security, the models that the repositories work on,
-- and the repositories.
mod Policy
pub mod Constraints
pub mod Model
mod Repository
pub mod Tables
pub mod Outside
pub mod Rules
pub mod Visible
pub mod Written
pub mod Sessions
pub mod Consistent
unfoldable pub use Policy.*
pub use Model.*
unfoldable pub use Repository.*
