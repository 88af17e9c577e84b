-- ===== src/Database/Tables.antt =====
-- The mapped classes as instances of `Model`.
mod Identity
mod Catalog
mod Learning
mod Grading
pub use Identity.*
pub use Catalog.*
pub use Learning.*
pub use Grading.*
