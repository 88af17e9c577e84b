-- ===== src/Tests.antt =====
-- The properties at concrete inputs.
pub mod Externals
pub mod Fixtures
mod Requests
mod Components
mod Platform
mod Learners
mod Limits
mod Accounts
pub mod Seeds
