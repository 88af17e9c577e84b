-- ===== src/Courses.antt =====
-- app/modules/courses: the catalog, enrollment, and the administration of courses.
mod Schemas
mod Service
pub mod Rules
pub mod Enrollment
pub mod Cancelled
pub use Schemas.*
unfoldable pub use Service.*
