-- ===== src/Database/Model.antt =====
-- What the repositories know of a mapped class: an interface of operations and laws.
use lms_backend.Base.{Bool, ◌||◌, Option, List, String, ◌≡◌, ◌==◌, nat_eq}
use lms_backend.Models.{
  Uuid, Time, User, Role, UserSession, Course, CourseEnrollment, Lesson, LessonProgress, Assignment,
  Submission, Grade,
}
use lms_backend.Store.{Db}
use lms_backend.Database.Policy.{others}
use lms_backend.Database.Constraints.{IsConsistent, Unique}

-- Two databases with the same rows of the tenants other than `t`, in the ten protected tables
-- of the mapped classes in the model: not `audit_logs`, which only the audit consumer writes, and not the
-- tables of `RLS_TABLES` that the model leaves out.
pub record SameOutside (t : Uuid) (d e : Db) : Type 0 where
  pub users :
      others (λ (r : User). r.tenant_id) t d.users ≡ others (λ (r : User). r.tenant_id) t e.users
  pub roles :
      others (λ (r : Role). r.tenant_id) t d.roles ≡ others (λ (r : Role). r.tenant_id) t e.roles
  pub user_sessions :
      others (λ (r : UserSession). r.tenant_id) t d.user_sessions
      ≡ others (λ (r : UserSession). r.tenant_id) t e.user_sessions
  pub courses :
      others (λ (r : Course). r.tenant_id) t d.courses
      ≡ others (λ (r : Course). r.tenant_id) t e.courses
  pub course_enrollments :
      others (λ (r : CourseEnrollment). r.tenant_id) t d.course_enrollments
      ≡ others (λ (r : CourseEnrollment). r.tenant_id) t e.course_enrollments
  pub lessons :
      others (λ (r : Lesson). r.tenant_id) t d.lessons
      ≡ others (λ (r : Lesson). r.tenant_id) t e.lessons
  pub lesson_progress :
      others (λ (r : LessonProgress). r.tenant_id) t d.lesson_progress
      ≡ others (λ (r : LessonProgress). r.tenant_id) t e.lesson_progress
  pub assignments :
      others (λ (r : Assignment). r.tenant_id) t d.assignments
      ≡ others (λ (r : Assignment). r.tenant_id) t e.assignments
  pub submissions :
      others (λ (r : Submission). r.tenant_id) t d.submissions
      ≡ others (λ (r : Submission). r.tenant_id) t e.submissions
  pub grades :
      others (λ (r : Grade). r.tenant_id) t d.grades
      ≡ others (λ (r : Grade). r.tenant_id) t e.grades

-- The column `deleted_at` of `SoftDeleteMixin`: how to read it, and how to set it.
pub record SoftDelete (Row : Type 0) (tenant_id : Row → Uuid) : Type 0 where
  pub deleted_at : Row → Option Time
  pub mark : Time → Row → Row
  pub tenant_id-mark : (now : Time) (r : Row) → tenant_id (mark now r) ≡ tenant_id r

-- A tenant-scoped class: `UUIDMixin`, `TenantMixin` and perhaps `SoftDeleteMixin`, on a table that
-- `RLS_TABLES` lists.
pub record Model (Row : Type 0) : Type 0 where
  -- the message of `get_or_404`
  pub name : String
  pub id : Row → Uuid
  pub tenant_id : Row → Uuid
  pub soft_delete : Option (SoftDelete Row tenant_id)
  -- two rows that no unique constraint of the table allows beside one another, ids aside
  pub unique_clash : Row → Row → Bool
  pub unique_clash_comm : (a b : Row) → unique_clash a b ≡ unique_clash b a
  pub table : Db → List Row
  pub set_table : Db → List Row → Db
  pub table-set_table : (d : Db) (rows : List Row) → table (set_table d rows) ≡ rows
  pub set_table-outside :
      (t : Uuid) (d : Db) (rows : List Row)
      → others tenant_id t (table d) ≡ others tenant_id t rows
      → SameOutside t d (set_table d rows)
  pub table-Unique :
      (d : Db) → IsConsistent d → Unique (λ a b. id a == id b || unique_clash a b) (table d)
  pub set_table-IsConsistent :
      (d : Db) (rows : List Row)
      → IsConsistent d
      → Unique (λ a b. id a == id b || unique_clash a b) rows
      → IsConsistent (set_table d rows)
