-- ===== src/Shared.antt =====
-- app/shared: the errors that services raise, and the pagination schemas.
pub mod Errors
pub mod Page
pub mod Paging
