-- ===== src/Courses/Service.antt =====
-- app/modules/courses/service.py and repository.py
use lms_backend.Base.{
  ℕ, ◌+◌, String, Bool, true, false, not, ◌&&◌, ◌||◌, Option, none, some, List, length, take, drop,
  ◌==◌, nat_eq, string_eq, if◌then◌else◌,
}
use lms_backend.Shared.Errors.{app, conflict, not_found, validation, integrity_error}
use lms_backend.Shared.Page.{offset, limit}
use lms_backend.Models.{
  Uuid, Time, Course, CourseEnrollment, draft, published, active, cancelled, course_status_eq,
  course_level_eq, enrollment_status_eq,
}
use lms_backend.Store.{
  Action, pure, get_now, raise_if, or_raise, case_option, require_tenant_id, current_user_id, ◌>>=◌,
  ◌>>◌,
}
use lms_backend.Database.{
  Ordering, apply_sort, select_where, select_one, get_or_404, exists, create, flush, delete,
}
use lms_backend.Database.Tables.{course_model, course_enrollment_model}
use lms_backend.Events.{publish, course, course_created, course_enrolled}
use lms_backend.Courses.Schemas.{CourseFilter, CourseCreate, CourseUpdate}

-- `if o:` and `WHERE column = o`, for a filter that may be absent
abbrev pub when_given : {A : Type 0} → Option A → (A → Bool) → Bool
when_given none test = true
when_given (some a) test = test a

-- `if o:` on a text, which is false on the empty one
abbrev pub when_text : Option String → (String → Bool) → Bool
when_text none test = true
when_text (some s) test = s == "" || test s

-- `f.sort or "-created_at"`
abbrev pub sort_or_newest : Option String → Option String
sort_or_newest none = some "-created_at"
sort_or_newest (some s) = if s == "" then some "-created_at" else some s

-- `CourseRepository.filtered`, what it adds to `_select`; `apply_search` is the ILIKE of the database
unfoldable pub filtered : (String → Course → Bool) → CourseFilter → Bool → Course → Bool
filtered apply_search f published_only c =
    when_text f.search (λ t. apply_search t c)
    && when_given f.category_id (λ k. elim c.category_id [ none ↦ false | some j ↦ j == k ])
    && when_given f.level (λ l. c.level == l)
    && when_given f.is_free (λ b. if b then c.is_free else not c.is_free)
    && (if published_only then c.status == published else when_given f.status (λ s. c.status == s))

unfoldable pub list_courses :
    (String → Course → Bool) → Ordering Course → CourseFilter → Bool → Action (List Course × ℕ)
list_courses apply_search o f published_only = do
  rows ← select_where (filtered apply_search f published_only)
  pure (
    take (limit f.params) (drop (offset f.params) (apply_sort o (sort_or_newest f.sort) rows)),
    length rows,
  )

unfoldable pub get_course : Uuid → Bool → Action Course
get_course course_id published_only = do
  c ← get_or_404 {Row = Course} course_id
  raise_if (published_only && not (c.status == published)) (app not_found "Course not found")
  pure c

-- `get_for_user_course`
unfoldable pub get_for_user_course : Uuid → Uuid → Action (Option CourseEnrollment)
get_for_user_course user_id course_id =
    select_one {Row = CourseEnrollment} (λ e. e.user_id == user_id && e.course_id == course_id)

-- `existing and existing.status != EnrollmentStatus.cancelled`
abbrev pub is_enrolled : Option CourseEnrollment → Bool
is_enrolled none = false
is_enrolled (some e) = not (e.status == cancelled)

unfoldable pub enroll : Uuid → Uuid → Action CourseEnrollment
enroll course_id user_id = do
  tenant_id ← require_tenant_id
  c ← get_or_404 {Row = Course} course_id
  raise_if (not (c.status == published)) (app validation "Course is not open for enrollment")
  existing ← get_for_user_course user_id course_id
  raise_if (is_enrolled existing) (app conflict "Already enrolled in this course")
  enrolled_at ← get_now
  enrollment ← create {Row = CourseEnrollment} (λ tid id now. record {
    id = id;
    tenant_id = tid;
    course_id = course_id;
    user_id = user_id;
    status = active;
    progress_pct = 0;
    enrolled_at = enrolled_at;
    completed_at = none;
  })
  flush {Row = Course} (record c { enrollment_count = c.enrollment_count + 1 })
  publish (some tenant_id) (some user_id) (course (course_enrolled course_id enrollment.id))
  pure enrollment

unfoldable pub create_course : CourseCreate → Action Course
create_course request = do
  tenant_id ← require_tenant_id
  taken ← exists {Row = Course} (λ c. c.slug == request.slug)
  raise_if taken (app conflict "Course slug already exists")
  c ← create {Row = Course} (λ tid id now. record {
    id = id;
    tenant_id = tid;
    title = request.title;
    slug = request.slug;
    summary = request.summary;
    description = request.description;
    category_id = request.category_id;
    status = draft;
    level = request.level;
    is_free = request.is_free;
    price = request.price;
    thumbnail_url = request.thumbnail_url;
    enrollment_count = 0;
    published_at = none;
    created_at = now;
    deleted_at = none;
  })
  user_id ← current_user_id
  publish (some tenant_id) user_id (course (course_created c.id c.title))
  pure c

-- `setattr` on a column that may be null, and on one that may not
abbrev pub change : {A : Type 0} → Option A → A → A
change none old = old
change (some new) old = new

abbrev pub change_required : {A : Type 0} → Option (Option A) → A → Option A
change_required none old = some old
change_required (some new) old = new

-- `course.published_at = datetime.now(UTC)`, if the change publishes a course for the first time
abbrev pub publish_date : CourseUpdate → Time → Course → Option Time
publish_date changes now c = elim changes.status [
  | some (some published) ↦ elim c.published_at [ none ↦ some now | some t ↦ some t ]
  | _ ↦ c.published_at
]

-- The changed row; `none` if a column that is NOT NULL would hold null.
unfoldable pub apply_changes : CourseUpdate → Time → Course → Option Course
apply_changes changes now c = case_option (change_required changes.title c.title) none (λ title.
    case_option (change_required changes.level c.level) none (λ level.
      case_option (change_required changes.status c.status) none (λ status.
        case_option (change_required changes.is_free c.is_free) none (λ is_free.
          case_option (change_required changes.price c.price) none (λ price. some (record c {
            title = title;
            summary = change changes.summary c.summary;
            description = change changes.description c.description;
            category_id = change changes.category_id c.category_id;
            level = level;
            status = status;
            is_free = is_free;
            price = price;
            thumbnail_url = change changes.thumbnail_url c.thumbnail_url;
            published_at = publish_date changes now c;
          }))))))

unfoldable pub update_course : Uuid → CourseUpdate → Action Course
update_course course_id changes = do
  c ← get_or_404 {Row = Course} course_id
  now ← get_now
  changed ← or_raise (apply_changes changes now c) integrity_error
  flush {Row = Course} changed
  pure changed

unfoldable pub delete_course : Uuid → Action (Unit {0})
delete_course course_id = do c ← get_or_404 {Row = Course} course_id; delete {Row = Course} c false
