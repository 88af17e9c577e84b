-- ===== src/Database/Constraints.antt =====
-- The unique constraints of the mapped classes: `__table_args__`, `unique=True`, the primary key.
use lms_backend.Base.{
  ◌≡◌, refl, ap₂, Bool, false, ◌&&◌, ◌||◌, List, [], ◌∷◌, any, ◌==◌, nat_eq, string_eq, beq_comm,
}
use lms_backend.Models.{
  User, Role, UserSession, Course, CourseEnrollment, Lesson, LessonProgress, Assignment, Submission,
  Grade,
}
use lms_backend.Store.{Db}

-- No row clashes with a later one.
abbrev pub Unique : {Row : Type 0} → (Row → Row → Bool) → List Row → Type 0
Unique clash [] = Unit
Unique clash (r ∷ rows) = (any (clash r) rows ≡ false) × Unique clash rows

abbrev pub user_clash : User → User → Bool
user_clash a b = a.tenant_id == b.tenant_id && a.email == b.email

pub user_clash_comm : (a b : User) → user_clash a b ≡ user_clash b a
user_clash_comm a b = ap₂ ◌&&◌ (beq_comm a.tenant_id b.tenant_id) (beq_comm a.email b.email)

abbrev pub role_clash : Role → Role → Bool
role_clash a b = a.tenant_id == b.tenant_id && a.code == b.code

pub role_clash_comm : (a b : Role) → role_clash a b ≡ role_clash b a
role_clash_comm a b = ap₂ ◌&&◌ (beq_comm a.tenant_id b.tenant_id) (beq_comm a.code b.code)

abbrev pub user_session_clash : UserSession → UserSession → Bool
user_session_clash a b = a.jti == b.jti

pub user_session_clash_comm : (a b : UserSession) → user_session_clash a b ≡ user_session_clash b a
user_session_clash_comm a b = beq_comm a.jti b.jti

abbrev pub course_clash : Course → Course → Bool
course_clash a b = a.tenant_id == b.tenant_id && a.slug == b.slug

pub course_clash_comm : (a b : Course) → course_clash a b ≡ course_clash b a
course_clash_comm a b = ap₂ ◌&&◌ (beq_comm a.tenant_id b.tenant_id) (beq_comm a.slug b.slug)

abbrev pub course_enrollment_clash : CourseEnrollment → CourseEnrollment → Bool
course_enrollment_clash a b = a.course_id == b.course_id && a.user_id == b.user_id

pub course_enrollment_clash_comm :
    (a b : CourseEnrollment) → course_enrollment_clash a b ≡ course_enrollment_clash b a
course_enrollment_clash_comm a b =
    ap₂ ◌&&◌ (beq_comm a.course_id b.course_id) (beq_comm a.user_id b.user_id)

abbrev pub lesson_clash : Lesson → Lesson → Bool
lesson_clash _ _ = false

pub lesson_clash_comm : (a b : Lesson) → lesson_clash a b ≡ lesson_clash b a
lesson_clash_comm a b = refl

abbrev pub lesson_progress_clash : LessonProgress → LessonProgress → Bool
lesson_progress_clash a b = a.lesson_id == b.lesson_id && a.user_id == b.user_id

pub lesson_progress_clash_comm :
    (a b : LessonProgress) → lesson_progress_clash a b ≡ lesson_progress_clash b a
lesson_progress_clash_comm a b =
    ap₂ ◌&&◌ (beq_comm a.lesson_id b.lesson_id) (beq_comm a.user_id b.user_id)

abbrev pub assignment_clash : Assignment → Assignment → Bool
assignment_clash _ _ = false

pub assignment_clash_comm : (a b : Assignment) → assignment_clash a b ≡ assignment_clash b a
assignment_clash_comm a b = refl

abbrev pub submission_clash : Submission → Submission → Bool
submission_clash _ _ = false

pub submission_clash_comm : (a b : Submission) → submission_clash a b ≡ submission_clash b a
submission_clash_comm a b = refl

abbrev pub grade_clash : Grade → Grade → Bool
grade_clash a b = a.submission_id == b.submission_id

pub grade_clash_comm : (a b : Grade) → grade_clash a b ≡ grade_clash b a
grade_clash_comm a b = beq_comm a.submission_id b.submission_id

-- Every protected table satisfies its constraints.
pub record IsConsistent (d : Db) : Type 0 where
  pub users : Unique (λ a b. a.id == b.id || user_clash a b) d.users
  pub roles : Unique (λ a b. a.id == b.id || role_clash a b) d.roles
  pub user_sessions : Unique (λ a b. a.id == b.id || user_session_clash a b) d.user_sessions
  pub courses : Unique (λ a b. a.id == b.id || course_clash a b) d.courses
  pub course_enrollments :
      Unique (λ a b. a.id == b.id || course_enrollment_clash a b) d.course_enrollments
  pub lessons : Unique (λ a b. a.id == b.id || lesson_clash a b) d.lessons
  pub lesson_progress : Unique (λ a b. a.id == b.id || lesson_progress_clash a b) d.lesson_progress
  pub assignments : Unique (λ a b. a.id == b.id || assignment_clash a b) d.assignments
  pub submissions : Unique (λ a b. a.id == b.id || submission_clash a b) d.submissions
  pub grades : Unique (λ a b. a.id == b.id || grade_clash a b) d.grades
