-- ===== src/Assignments/Service.antt =====
-- `AssignmentService` of app/modules/assignments/service.py, with repository.py.
use lms_backend.Base.{
  ℤ, pos, ◌*ℤ◌, lt_int, if◌then◌else◌, ℕ, String, Bool, true, false, not, ◌&&◌, Option, none, some,
  List, [], ◌∷◌, length, take, drop, ◌==◌, nat_eq, if◌then◌else◌,
}
use lms_backend.Shared.Errors.{app, validation}
use lms_backend.Shared.Page.{PageParams, offset, limit}
use lms_backend.Models.{
  Uuid, Points, Assignment, Submission, Grade, Quiz, AssignmentType, assignment_type_eq, submitted,
  graded,
}
use lms_backend.Store.{
  Action, pure, get_now, uuid4, raise_if, case_option, require_tenant_id, ◌>>=◌, ◌>>◌,
}
use lms_backend.Database.{Ordering, select_where, select_one, get_or_404, add, create, flush}
use lms_backend.Database.Tables.{assignment_model, submission_model, grade_model}
use lms_backend.Events.{publish, assignment, assignment_submitted, submission_graded}
use lms_backend.Courses.{when_given}
use lms_backend.Assignments.Schemas.{AssignmentFilter, Answers, SubmitRequest, GradeRequest}
use lms_backend.Assignments.Scoring.{quiz_points}

-- `AssignmentRepository.filtered`, what it adds to `_select`
unfoldable pub filtered : AssignmentFilter → Bool → Assignment → Bool
filtered f published_only a =
    when_given f.course_id (λ c. a.course_id == c)
    && when_given f.type (λ t. a.type == t)
    && (if published_only then a.is_published else true)

unfoldable pub list_assignments :
    Ordering Assignment → AssignmentFilter → Bool → Action (List Assignment × ℕ)
list_assignments o f published_only = do
  rows ← select_where (filtered f published_only)
  pure (
    take (limit f.params) (drop (offset f.params) (o.order_by "created_at" true rows)),
    length rows,
  )

unfoldable pub get_assignment : Uuid → Action Assignment
get_assignment assignment_id = get_or_404 {Row = Assignment} assignment_id

unfoldable pub get_by_submission : Uuid → Action (Option Grade)
get_by_submission submission_id = select_one {Row = Grade} (λ g. g.submission_id == submission_id)

-- `feedback if feedback is not None else grade.feedback`
abbrev pub keep_feedback : Option String → Option String → Option String
keep_feedback none old = old
keep_feedback (some f) old = some f

-- `_record_grade`
unfoldable pub record_grade :
    Submission → Points → ℤ → Bool → Option Uuid → Option String → Action Grade
record_grade submission points max_points is_auto graded_by feedback = do
  tenant_id ← require_tenant_id
  now ← get_now
  found ← get_by_submission submission.id
  grade ←
      case_option found
        (do
          id ← uuid4
          add {Row = Grade} (record {
            id = id;
            tenant_id = tenant_id;
            submission_id = submission.id;
            assignment_id = submission.assignment_id;
            user_id = submission.user_id;
            points = points;
            max_points = max_points;
            feedback = feedback;
            is_auto = is_auto;
            graded_by = graded_by;
            graded_at = now;
          }))
        (λ old. do
          let new = record old {
            points = points;
            feedback = keep_feedback feedback old.feedback;
            is_auto = is_auto;
            graded_by = graded_by;
            graded_at = now;
          }
          flush {Row = Grade} new
          pure new)
  flush {Row = Submission} (record submission { status = graded })
  publish (some tenant_id) (some submission.user_id)
      (assignment (submission_graded submission.id points is_auto))
  pure grade

-- `_auto_grade`, for an assignment with a quiz
unfoldable pub auto_grade : Assignment → Quiz → Submission → Answers → Action Grade
auto_grade a quiz submission answers =
    record_grade submission (quiz_points answers quiz a.max_points) a.max_points true none none

abbrev pub given : Option Answers → Answers
given none = []
given (some answers) = answers

-- `{...} or None`
abbrev pub stored : Answers → Option Answers
stored [] = none
stored (a ∷ answers) = some (a ∷ answers)

abbrev pub quiz_of : Assignment → Option Quiz
quiz_of a = if a.type == AssignmentType.quiz then a.quiz else none

-- The submission is returned as the last write of its row left it.
unfoldable pub submit : Uuid → Uuid → SubmitRequest → Action Submission
submit assignment_id user_id request = do
  tenant_id ← require_tenant_id
  a ← get_or_404 {Row = Assignment} assignment_id
  raise_if (not a.is_published) (app validation "Assignment is not open for submission")
  now ← get_now
  submission ← create {Row = Submission} (λ tid id _. record {
    id = id;
    tenant_id = tid;
    assignment_id = assignment_id;
    user_id = user_id;
    content = request.content;
    file_url = request.file_url;
    answers = stored (given request.answers);
    status = submitted;
    submitted_at = now;
  })
  publish (some tenant_id) (some user_id)
      (assignment (assignment_submitted assignment_id submission.id))
  case_option (quiz_of a) (pure submission) (λ quiz. do
    auto_grade a quiz submission (given request.answers)
    pure (record submission { status = graded }))

-- `data.points > Decimal(assignment.max_points)`
abbrev pub exceeds : Points → ℤ → Bool
exceeds p max_points =
    if lt_int p.den (pos 0)
    then lt_int p.num (max_points *ℤ p.den)
    else lt_int (max_points *ℤ p.den) p.num

unfoldable pub grade_submission : Uuid → GradeRequest → Uuid → Action Grade
grade_submission submission_id request grader_id = do
  submission ← get_or_404 {Row = Submission} submission_id
  a ← get_or_404 {Row = Assignment} submission.assignment_id
  raise_if (exceeds request.points a.max_points) (app validation "Points exceed assignment maximum")
  record_grade submission request.points a.max_points false (some grader_id) request.feedback

unfoldable pub list_grades : Ordering Grade → Uuid → PageParams → Action (List Grade × ℕ)
list_grades o user_id params = do
  rows ← select_where {Row = Grade} (λ g. g.user_id == user_id)
  pure (take (limit params) (drop (offset params) (o.order_by "graded_at" true rows)), length rows)

unfoldable pub list_submissions_for_assignment :
    Ordering Submission → Uuid → Action (List Submission)
list_submissions_for_assignment o assignment_id = do
  rows ← select_where {Row = Submission} (λ s. s.assignment_id == assignment_id)
  pure (o.order_by "submitted_at" true rows)
