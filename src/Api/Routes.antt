-- ===== src/Api/Routes.antt =====
-- The endpoints of app/api/router.py and of the routers of the modules: what each takes, what it answers,
-- the module that its router is mounted behind, and the permissions that it asks for.
use lms_backend.Base.{ℕ, String, Bool, Option, none, some, List, [], ◌∷◌}
use lms_backend.Shared.Page.{PageParams, Page}
use lms_backend.Models.{
  Uuid, User, Course, CourseEnrollment, Lesson, LessonProgress, Assignment, Submission, Grade,
  ModuleCode, Tenant, AuditLog,
}
use lms_backend.Database.{Ordering}
use lms_backend.Admin.{
  AdminLessonCreate, AdminAssignmentCreate, AdminUserCreate, AdminUserUpdate, ReportOut,
  TenantCreate, TenantModuleOut,
}
use lms_backend.Auth.{RegisterRequest, LoginRequest, TokenResponse}
use lms_backend.Courses.{CourseFilter, CourseCreate, CourseUpdate}
use lms_backend.Assignments.{AssignmentFilter, SubmitRequest, GradeRequest}
use lms_backend.Dashboard.{DashboardOut}

-- What the database does for the queries: its ORDER BY on each table, and its ILIKE.
pub record Queries : Type 0 where
  pub course_order : Ordering Course
  pub course_search : String → Course → Bool
  pub lesson_order : Ordering Lesson
  pub assignment_order : Ordering Assignment
  pub submission_order : Ordering Submission
  pub grade_order : Ordering Grade
  pub user_order : Ordering User
  pub user_search : String → User → Bool
  pub activity_order : Ordering AuditLog

-- the endpoints that take no user
pub data PublicEndpoint : Type 0 where
  post_register : RegisterRequest → PublicEndpoint
  post_login : LoginRequest → Option String → Option String → PublicEndpoint
  post_refresh : String → PublicEndpoint
  post_logout : Option String → PublicEndpoint
  post_forgot_password : String → PublicEndpoint
  post_reset_password : String → String → PublicEndpoint

-- the endpoints of the platform's administrators, on tenants
pub data PlatformEndpoint : Type 0 where
  post_tenant : TenantCreate → PlatformEndpoint
  get_tenants : PlatformEndpoint
  get_tenant_modules : String → PlatformEndpoint
  put_tenant_module : String → ModuleCode → Bool → PlatformEndpoint

-- the endpoints with `CurrentUser`
pub data UserEndpoint : Type 0 where
  get_me : UserEndpoint
  get_courses : CourseFilter → UserEndpoint
  get_course_detail : Uuid → UserEndpoint
  post_enroll : Uuid → UserEndpoint
  get_lessons : Uuid → UserEndpoint
  post_complete : Uuid → ℕ → UserEndpoint
  get_progress : PageParams → UserEndpoint
  get_assignments : AssignmentFilter → UserEndpoint
  get_assignment_detail : Uuid → UserEndpoint
  post_submit : Uuid → SubmitRequest → UserEndpoint
  post_grade : Uuid → GradeRequest → UserEndpoint
  get_submissions : Uuid → UserEndpoint
  get_grades_me : PageParams → UserEndpoint
  get_admin_courses : CourseFilter → UserEndpoint
  get_admin_course : Uuid → UserEndpoint
  post_admin_course : CourseCreate → UserEndpoint
  put_admin_course : Uuid → CourseUpdate → UserEndpoint
  delete_admin_course : Uuid → UserEndpoint
  get_admin_lessons : Uuid → UserEndpoint
  post_admin_lesson : Uuid → AdminLessonCreate → UserEndpoint
  get_admin_assignments : Uuid → UserEndpoint
  post_admin_assignment : Uuid → AdminAssignmentCreate → UserEndpoint
  get_users : PageParams → UserEndpoint
  post_user : AdminUserCreate → UserEndpoint
  put_user : Uuid → AdminUserUpdate → UserEndpoint
  get_reports : UserEndpoint
  get_dashboard : UserEndpoint
  manage : PlatformEndpoint → UserEndpoint

pub data Endpoint : Type 0 where
  open_to_all : PublicEndpoint → Endpoint
  for_user : UserEndpoint → Endpoint

pub data Response : Type 0 where
  user_out : User → Response
  me_out : User → List String → Response
  token_out : TokenResponse → Response
  message : String → Response
  reset_token : String → Response
  course_page : Page Course → Response
  course_out : Course → Response
  enrollment_out : CourseEnrollment → Response
  lesson_list : List Lesson → Response
  progress_out : LessonProgress → Response
  progress_page : Page LessonProgress → Response
  assignment_page : Page Assignment → Response
  assignment_out : Assignment → Response
  submission_out : Submission → Response
  submission_list : List Submission → Response
  grade_out : Grade → Response
  grade_page : Page Grade → Response
  lesson_out : Lesson → Response
  assignment_list : List Assignment → Response
  user_page : Page User → Response
  report_out : ReportOut → Response
  dashboard_out : DashboardOut → Response
  tenant_out : Tenant → Response
  tenant_list : List Tenant → Response
  tenant_module_list : List TenantModuleOut → Response

-- The module that the router of the endpoint is mounted behind; auth is behind none.
abbrev pub module_of : Endpoint → Option ModuleCode
module_of (open_to_all e) = none
module_of (for_user get_me) = none
module_of (for_user (get_courses f)) = some ModuleCode.courses
module_of (for_user (get_course_detail id)) = some ModuleCode.courses
module_of (for_user (post_enroll id)) = some ModuleCode.courses
module_of (for_user (get_lessons id)) = some ModuleCode.learning
module_of (for_user (post_complete id n)) = some ModuleCode.learning
module_of (for_user (get_progress p)) = some ModuleCode.learning
module_of (for_user (get_assignments f)) = some ModuleCode.assignments
module_of (for_user (get_assignment_detail id)) = some ModuleCode.assignments
module_of (for_user (post_submit id r)) = some ModuleCode.assignments
module_of (for_user (post_grade id r)) = some ModuleCode.assignments
module_of (for_user (get_submissions id)) = some ModuleCode.assignments
module_of (for_user (get_grades_me p)) = some ModuleCode.assignments
module_of (for_user (get_admin_courses f)) = some ModuleCode.admin
module_of (for_user (get_admin_course id)) = some ModuleCode.admin
module_of (for_user (post_admin_course r)) = some ModuleCode.admin
module_of (for_user (put_admin_course id r)) = some ModuleCode.admin
module_of (for_user (delete_admin_course id)) = some ModuleCode.admin
module_of (for_user (get_admin_lessons id)) = some ModuleCode.admin
module_of (for_user (post_admin_lesson id r)) = some ModuleCode.admin
module_of (for_user (get_admin_assignments id)) = some ModuleCode.admin
module_of (for_user (post_admin_assignment id r)) = some ModuleCode.admin
module_of (for_user (get_users p)) = some ModuleCode.admin
module_of (for_user (post_user r)) = some ModuleCode.admin
module_of (for_user (put_user id r)) = some ModuleCode.admin
module_of (for_user get_reports) = some ModuleCode.admin
module_of (for_user get_dashboard) = some ModuleCode.dashboard
module_of (for_user (manage p)) = some ModuleCode.admin

-- the codes of `require_permission`; none where the endpoint does not depend on it
abbrev pub permissions_of : UserEndpoint → List String
permissions_of get_me = []
permissions_of (get_courses f) = []
permissions_of (get_course_detail id) = []
permissions_of (post_enroll id) = "course:enroll" ∷ []
permissions_of (get_lessons id) = "lesson:read" ∷ []
permissions_of (post_complete id n) = []
permissions_of (get_progress p) = "progress:read" ∷ []
permissions_of (get_assignments f) = "assignment:read" ∷ []
permissions_of (get_assignment_detail id) = "assignment:read" ∷ []
permissions_of (post_submit id r) = "assignment:submit" ∷ []
permissions_of (post_grade id r) = "grade:write" ∷ []
permissions_of (get_submissions id) = "grade:write" ∷ []
permissions_of (get_grades_me p) = "grade:read" ∷ []
permissions_of (get_admin_courses f) = "course:read" ∷ []
permissions_of (get_admin_course id) = "course:read" ∷ []
permissions_of (post_admin_course r) = "course:create" ∷ []
permissions_of (put_admin_course id r) = "course:update" ∷ []
permissions_of (delete_admin_course id) = "course:delete" ∷ []
permissions_of (get_admin_lessons id) = "course:read" ∷ []
permissions_of (post_admin_lesson id r) = "course:update" ∷ []
permissions_of (get_admin_assignments id) = "course:read" ∷ []
permissions_of (post_admin_assignment id r) = "course:update" ∷ []
permissions_of (get_users p) = "user:read" ∷ []
permissions_of (post_user r) = "user:create" ∷ []
permissions_of (put_user id r) = "user:update" ∷ []
permissions_of get_reports = "report:read" ∷ []
permissions_of get_dashboard = []
permissions_of (manage p) = "tenant:manage" ∷ []
