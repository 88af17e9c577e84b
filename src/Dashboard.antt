-- ===== src/Dashboard.antt =====
-- app/modules/dashboard: `DashboardService.for_user` and its schemas. It has no repository: the
-- policies alone keep its statements to the rows of a tenant.
use lms_backend.Base.{
  ℕ, String, Bool, true, false, ◌&&◌, not, Option, none, some, List, [], ◌∷◌, ◌++◌, map, filter,
  length, contains, take, ◌==◌, nat_eq, is_none,
}
use lms_backend.Shared.Errors.{ok}
use lms_backend.Models.{
  Uuid, Time, CourseEnrollment, EnrollmentStatus, enrollment_status_eq, LessonProgress,
  ProgressStatus, Assignment, Submission, AuditLog,
}
use lms_backend.Store.{World, Action, pure, ◌>>=◌}
use lms_backend.Database.Model.{Model}
use lms_backend.Database.{Ordering, policy, execute}
use lms_backend.Database.Tables.{
  course_enrollment_model, lesson_progress_model, assignment_model, submission_model,
}
pub mod Pending
pub mod Own
pub mod Rules

pub record ActivityItem : Type 0 where
  pub action : String
  pub resource : String
  pub resource_id : Option Uuid
  pub created_at : Time

pub record DashboardOut : Type 0 where
  pub enrolled_courses : ℕ
  pub completed_lessons : ℕ
  pub pending_assignments : ℕ
  pub submissions : ℕ
  pub recent_activity : List ActivityItem

abbrev pub is_completed : ProgressStatus → Bool
is_completed ProgressStatus.completed = true
is_completed _ = false

-- `select(func.count()).where(...)`, executed
unfoldable pub count_where : {Row : Type 0} → ⦃m : Model Row⦄ → (Row → Bool) → Action ℕ
count_where condition = do rows ← execute condition; pure (length rows)

-- The rows of a LEFT OUTER JOIN for one row on the left: its matches, or itself alone.
abbrev pub padded : {A B : Type 0} → A → List B → List (A × Option B)
padded a [] = (a, none) ∷ []
padded a (b ∷ bs) = map (λ c. (a, some c)) (b ∷ bs)

unfoldable pub outer_join : {A B : Type 0} → (A → B → Bool) → List A → List B → List (A × Option B)
outer_join on [] bs = []
outer_join on (a ∷ rows) bs = padded a (filter (on a) bs) ++ outer_join on rows bs

-- `enrolled_courses`, the subquery of the pending assignments
unfoldable pub enrolled_courses : Uuid → Action (List Uuid)
enrolled_courses user_id = do
  rows ←
      execute
        (λ (e : CourseEnrollment). e.user_id == user_id && e.status == EnrollmentStatus.active)
  pure (map (λ e. e.course_id) rows)

abbrev pub is_submission_of : Uuid → Assignment → Submission → Bool
is_submission_of user_id a s = s.assignment_id == a.id && s.user_id == user_id

-- the WHERE clause on a row of the join
abbrev pub is_pending_row : List Uuid → Assignment × Option Submission → Bool
is_pending_row courses (a, s) =
    a.is_published && contains courses a.course_id && is_none s && is_none a.deleted_at

unfoldable pub count_pending : Uuid → Action ℕ
unfolding outer_join
count_pending user_id = do
  courses ← enrolled_courses user_id
  assignments ← execute {Row = Assignment} (λ _. true)
  submissions ← execute {Row = Submission} (λ _. true)
  pure (
      length (
        filter (is_pending_row courses)
          (outer_join (is_submission_of user_id) assignments submissions)))

abbrev pub is_by : Uuid → Option Uuid → Bool
is_by user_id none = false
is_by user_id (some u) = u == user_id

-- the ten last rows of the audit log, which has a policy like the other tables
unfoldable pub recent_audits : Ordering AuditLog → Uuid → Action (List AuditLog)
recent_audits o user_id w = (
  ok (
      take 10 (
        o.order_by "created_at" true (
          filter (λ (a : AuditLog). policy w.gucs a.tenant_id && is_by user_id a.user_id)
            w.audit_logs))),
  w,
)

abbrev pub activity_item : AuditLog → ActivityItem
activity_item a = record {
  action = a.action;
  resource = a.resource;
  resource_id = a.resource_id;
  created_at = a.created_at;
}

unfoldable pub for_user : Ordering AuditLog → Uuid → Action DashboardOut
for_user o user_id = do
  enrolled ← count_where (λ (e : CourseEnrollment).
      e.user_id == user_id && not (e.status == EnrollmentStatus.cancelled))
  completed_lessons ←
      count_where (λ (p : LessonProgress). p.user_id == user_id && is_completed p.status)
  submissions ← count_where (λ (s : Submission). s.user_id == user_id)
  pending ← count_pending user_id
  activity_rows ← recent_audits o user_id
  pure (record {
    enrolled_courses = enrolled;
    completed_lessons = completed_lessons;
    pending_assignments = pending;
    submissions = submissions;
    recent_activity = map activity_item activity_rows;
  })
