-- ===== src/Admin/Service.antt =====
-- The services of app/modules/admin/service.py that work in the transaction of the request.
use lms_backend.Base.{
  ℕ, String, Bool, true, false, not, Option, none, some, List, [], ◌∷◌, ◌++◌, length, ◌==◌,
  string_eq, lower, is_none, if◌then◌else◌,
}
use lms_backend.Shared.Errors.{app, conflict, value_error, integrity_error}
use lms_backend.Shared.Page.{PageParams}
use lms_backend.Models.{
  Uuid, Time, User, Role, Course, CourseEnrollment, Lesson, Assignment, AssignmentType, Submission,
  Value, Values, text, flag,
}
use lms_backend.Store.{
  Action, pure, raise_if, or_raise, case_option, require_tenant_id, ◌>>=◌, ◌>>◌,
}
use lms_backend.Database.{Ordering, execute, list_rows, get_or_404, create, flush}
use lms_backend.Database.Model.{Model}
use lms_backend.Database.Tables.{
  user_model, course_model, course_enrollment_model, lesson_model, assignment_model,
  submission_model,
}
use lms_backend.External.{External}
use lms_backend.Security.{hash_password}
use lms_backend.Events.{publish, auth, user_registered, user_updated}
use lms_backend.Auth.{get_by_email, get_by_codes}
use lms_backend.Licensing.{enabled_codes}
use lms_backend.Courses.{get_course, change_required}
use lms_backend.Admin.Schemas.{
  AdminLessonCreate, AdminAssignmentCreate, AdminUserCreate, AdminUserUpdate, ReportOut,
}

unfoldable pub create_lesson : Uuid → AdminLessonCreate → Action Lesson
create_lesson course_id request = do
  get_course course_id false
  create {Row = Lesson} (λ tid id now. record {
    id = id;
    tenant_id = tid;
    course_id = course_id;
    module_id = none;
    title = request.title;
    content_type = request.content_type;
    content = request.content;
    order_index = request.order_index;
    duration_seconds = 0;
    is_preview = request.is_preview;
    deleted_at = none;
  })

-- the keys of `changes` other than `role_codes`, with their values
abbrev pub text_change : Option (Option String) → Values
text_change none = []
text_change (some none) = ("full_name", Value.null) ∷ []
text_change (some (some s)) = ("full_name", text s) ∷ []

abbrev pub flag_change : Option (Option Bool) → Values
flag_change none = []
flag_change (some none) = ("is_active", Value.null) ∷ []
flag_change (some (some b)) = ("is_active", flag b) ∷ []

unfoldable pub count : (Row : Type 0) ⦃m : Model Row⦄ → Action ℕ
count Row = do rows ← execute {Row = Row} (λ _. true); pure (length rows)

-- `get_by_codes(data.role_codes) if data.role_codes else []`
unfoldable pub chosen_roles : List String → Action (List Role)
chosen_roles [] = pure []
chosen_roles (c ∷ codes) = get_by_codes (c ∷ codes)

module _ (x : External) where
  -- `datetime.fromisoformat(data.due_at.replace("Z", "+00:00")) if data.due_at else None`
  unfoldable pub parse_due : Option String → Action (Option Time)
  parse_due due_at = case_option due_at (pure none) (λ s.
      if s == "" then pure none else do t ← or_raise (x.fromisoformat s) value_error; pure (some t))

  unfoldable pub create_assignment : Uuid → AdminAssignmentCreate → Action Assignment
  create_assignment course_id request = do
    get_course course_id false
    due_at ← parse_due request.due_at
    create {Row = Assignment} (λ tid id now. record {
      id = id;
      tenant_id = tid;
      course_id = course_id;
      title = request.title;
      description = request.description;
      type = AssignmentType.assignment;
      max_points = request.max_points;
      pass_points = request.pass_points;
      due_at = due_at;
      is_published = request.is_published;
      quiz = none;
      created_at = now;
      deleted_at = none;
    })

  unfoldable pub list_users :
      (String → User → Bool) → Ordering User → PageParams → Action (List User × ℕ)
  list_users apply_search o params = list_rows apply_search o params

  unfoldable pub create_user : AdminUserCreate → Action User
  create_user request = do
    tenant_id ← require_tenant_id
    existing ← get_by_email (lower request.email)
    raise_if (not (is_none existing)) (app conflict "Email already registered")
    hashed_password ← hash_password x request.password
    user ← create {Row = User} (λ tid id now. record {
      id = id;
      tenant_id = tid;
      email = lower request.email;
      hashed_password = hashed_password;
      full_name = request.full_name;
      is_active = request.is_active;
      is_verified = false;
      is_superuser = false;
      last_login_at = none;
      roles = [];
      created_at = now;
      deleted_at = none;
    })
    roles ← chosen_roles request.role_codes
    let with_roles = record user { roles = roles }
    flush {Row = User} with_roles
    publish (some tenant_id) (some user.id) (auth (user_registered user.email))
    pure with_roles

  unfoldable pub update_user : Uuid → AdminUserUpdate → Action User
  update_user user_id request = do
    user ← get_or_404 {Row = User} user_id
    roles ← case_option request.role_codes (pure user.roles) get_by_codes
    full_name ← or_raise (change_required request.full_name user.full_name) integrity_error
    is_active ← or_raise (change_required request.is_active user.is_active) integrity_error
    let changed = record user { full_name = full_name; is_active = is_active; roles = roles }
    flush {Row = User} changed
    tenant_id ← require_tenant_id
    publish (some tenant_id) (some user.id)
        (auth (user_updated (text_change request.full_name ++ flag_change request.is_active)))
    pure changed

  unfoldable pub tenant_report : Action ReportOut
  tenant_report = do
    tenant_id ← require_tenant_id
    active_modules ← enabled_codes x tenant_id
    users ← count User
    courses ← count Course
    enrollments ← count CourseEnrollment
    submissions ← count Submission
    pure (record {
      users = users;
      courses = courses;
      enrollments = enrollments;
      submissions = submissions;
      active_modules = active_modules;
    })
