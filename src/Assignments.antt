-- ===== src/Assignments.antt =====
-- app/modules/assignments: submissions and grades.
mod Schemas
mod Scoring
mod Service
pub mod Rules
pub mod Marks
pub use Schemas.*
unfoldable pub use Scoring.*
unfoldable pub use Service.*
