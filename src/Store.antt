-- ===== src/Store.antt =====
-- The state that a request works on, and the actions of the services: methods that read and write
-- it and may raise.
mod Worlds
mod Actions
pub mod Relations
pub mod Runs
pub use Worlds.*
unfoldable pub use Actions.*
