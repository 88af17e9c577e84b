-- ===== src/Api/Endpoints.antt =====
-- The handlers of the endpoints, their guards, and a request.
use Prim.Native.String.{◌++◌}
use lms_backend.Base.{
  String, Bool, true, false, not, ◌&&◌, ◌==◌, string_eq, Option, none, some, List, if◌then◌else◌,
}
use lms_backend.Shared.Errors.{app, not_found}
use lms_backend.Shared.Page.{PageParams, create_page}
use lms_backend.Models.{Uuid, User, ModuleCode, module_value, permission_codes}
use lms_backend.Store.{Action, pure, lift, gets, or_raise, case_option, ◌>>=◌, ◌>>◌}
use lms_backend.Database.{list_rows}
use lms_backend.Database.Tables.{assignment_model}
use lms_backend.Admin.{
  create_lesson, create_assignment, list_users, create_user, update_user, tenant_report,
  create_tenant, list_tenants, list_modules, set_tenant_module,
}
use lms_backend.Database.Sessions.{get_db}
use lms_backend.Config.{is_production}
use lms_backend.External.{External}
use lms_backend.Auth.{register, login, refresh, logout, forgot_password, reset_password}
use lms_backend.Auth.Dependencies.{get_current_user, require_permission}
use lms_backend.Licensing.{require_module}
use lms_backend.Tenancy.{resolve_tenant_id}
use lms_backend.Courses.{
  list_courses, get_course, enroll, create_course, update_course, delete_course,
}
use lms_backend.Learning.{list_lessons, complete_lesson, my_progress}
use lms_backend.Assignments.{
  list_assignments, get_assignment, submit, grade_submission, list_grades,
  list_submissions_for_assignment,
}
use lms_backend.Dashboard.{for_user as figures_for}
use lms_backend.RateLimit.{new_limiter, limit}
use lms_backend.Api.Routes.{
  Queries, PublicEndpoint, PlatformEndpoint, UserEndpoint, Endpoint, Response, module_of,
  permissions_of, post_register, post_login, post_refresh, post_logout, post_forgot_password,
  post_reset_password, post_tenant, get_tenants, get_tenant_modules, put_tenant_module, get_me,
  get_courses, get_course_detail, post_enroll, get_lessons, post_complete, get_progress,
  get_assignments, get_assignment_detail, post_submit, post_grade, get_submissions, get_grades_me,
  get_admin_courses, get_admin_course, post_admin_course, put_admin_course, delete_admin_course,
  get_admin_lessons, post_admin_lesson, get_admin_assignments, post_admin_assignment, get_users,
  post_user, put_user, get_reports, get_dashboard, manage, open_to_all, for_user, user_out, me_out,
  token_out, message, reset_token, course_page, course_out, enrollment_out, lesson_list,
  progress_out, progress_page, assignment_page, assignment_out, submission_out, submission_list,
  grade_out, grade_page, lesson_out, assignment_list, user_page, report_out, dashboard_out,
  tenant_out, tenant_list, tenant_module_list,
}

-- `if token and not settings.is_production`
abbrev pub shows_token : Bool → String → Bool
shows_token production token = not (token == "") && not production

-- `PageParams()`
abbrev pub default_params : PageParams
default_params = record { page = 1; size = 20; search = none; sort = none }

abbrev pub sent : Response
sent = message "If the email exists, a reset link has been sent"

module _ (x : External) (q : Queries) where
  unfoldable pub handle_public : PublicEndpoint → Action Response
  handle_public (post_register r) = do user ← register x r; pure (user_out user)
  handle_public (post_login r user_agent ip) = do t ← login x r user_agent ip; pure (token_out t)
  handle_public (post_refresh token) = do t ← refresh x token; pure (token_out t)
  handle_public (post_logout token) = do logout x token; pure (message "Logged out")
  handle_public (post_forgot_password email) = do
    found ← forgot_password x email
    production ← gets (λ w. is_production w.settings)
    pure (case_option found sent (λ t. if shows_token production t then reset_token t else sent))
  handle_public (post_reset_password token new_password) = do
    reset_password x token new_password
    pure (message "Password reset successful")

  -- A name that is resolved to no tenant.
  unfoldable pub resolve_or_404 : String → Action Uuid
  resolve_or_404 name = do
    resolved ← resolve_tenant_id x name
    or_raise resolved (app not_found "Tenant not found")

  unfoldable pub toggled : ModuleCode → Bool → Response
  unfolding module_value
  toggled code enabled =
      let state = if enabled then "enabled" else "disabled" in
      message ("Module " ++ module_value code ++ " " ++ state ++ " for tenant")

  -- the handlers of the platform's administrators
  unfoldable pub handle_platform : PlatformEndpoint → Action Response
  unfolding resolve_or_404
  handle_platform (post_tenant r) = do t ← create_tenant x r; pure (tenant_out t)
  handle_platform get_tenants = do ts ← list_tenants x; pure (tenant_list ts)
  handle_platform (get_tenant_modules name) = do
    resolved ← resolve_or_404 name
    outs ← list_modules x resolved
    pure (tenant_module_list outs)
  handle_platform (put_tenant_module name code enabled) = do
    resolved ← resolve_or_404 name
    set_tenant_module x resolved code enabled
    pure (toggled code enabled)

  unfoldable pub handle : UserEndpoint → User → Action Response
  unfolding permission_codes
  handle get_me user = pure (me_out user (permission_codes user))
  handle (get_courses f) user = do
    (items, total) ← list_courses q.course_search q.course_order f true
    pure (course_page (create_page items total f.params))
  handle (get_course_detail id) user = do c ← get_course id true; pure (course_out c)
  handle (post_enroll id) user = do e ← enroll id user.id; pure (enrollment_out e)
  handle (get_lessons id) user = do ls ← list_lessons q.lesson_order id; pure (lesson_list ls)
  handle (post_complete id position) user = do
    p ← complete_lesson id user.id position
    pure (progress_out p)
  handle (get_progress p) user = do
    (items, total) ← my_progress user.id p
    pure (progress_page (create_page items total p))
  handle (get_assignments f) user = do
    (items, total) ← list_assignments q.assignment_order f true
    pure (assignment_page (create_page items total f.params))
  handle (get_assignment_detail id) user = do a ← get_assignment id; pure (assignment_out a)
  handle (post_submit id r) user = do s ← submit id user.id r; pure (submission_out s)
  handle (post_grade id r) user = do g ← grade_submission id r user.id; pure (grade_out g)
  handle (get_submissions id) user = do
    ss ← list_submissions_for_assignment q.submission_order id
    pure (submission_list ss)
  handle (get_grades_me p) user = do
    (items, total) ← list_grades q.grade_order user.id p
    pure (grade_page (create_page items total p))
  handle (get_admin_courses f) user = do
    (items, total) ← list_courses q.course_search q.course_order f false
    pure (course_page (create_page items total f.params))
  handle (get_admin_course id) user = do c ← get_course id false; pure (course_out c)
  handle (post_admin_course r) user = do c ← create_course r; pure (course_out c)
  handle (put_admin_course id r) user = do c ← update_course id r; pure (course_out c)
  handle (delete_admin_course id) user = do delete_course id; pure (message "Course deleted")
  handle (get_admin_lessons id) user = do ls ← list_lessons q.lesson_order id; pure (lesson_list ls)
  handle (post_admin_lesson id r) user = do l ← create_lesson id r; pure (lesson_out l)
  -- The repository's `list` reads no `course_id`.
  handle (get_admin_assignments id) user = do
    (items, total) ← list_rows (λ _ _. true) q.assignment_order default_params
    pure (assignment_list items)
  handle (post_admin_assignment id r) user = do
    a ← create_assignment x id r
    pure (assignment_out a)
  handle (get_users p) user = do
    (items, total) ← list_users x q.user_search q.user_order p
    pure (user_page (create_page items total p))
  handle (post_user r) user = do u ← create_user x r; pure (user_out u)
  handle (put_user id r) user = do u ← update_user x id r; pure (user_out u)
  handle get_reports user = do r ← tenant_report x; pure (report_out r)
  handle get_dashboard user = do d ← figures_for q.activity_order user.id; pure (dashboard_out d)
  handle (manage p) user = handle_platform p

  -- the dependency `require_module` of the mounted router
  unfoldable pub guard_module : Option ModuleCode → Action (Unit {0})
  guard_module none = pure tt
  guard_module (some code) = require_module x code

  -- `CurrentUser` and `require_permission`, which share one call of `get_current_user`
  unfoldable pub guard_user : List String → Option String → Action User
  guard_user codes credentials = do
    user ← get_current_user x credentials
    lift (require_permission codes user)

  -- `_auth_limit` on its three routes: their paths, without the prefix that all have
  unfoldable pub limited_path : PublicEndpoint → Option String
  limited_path (post_register r) = some "/auth/register"
  limited_path (post_login r user_agent ip) = some "/auth/login"
  limited_path (post_refresh token) = none
  limited_path (post_logout token) = none
  limited_path (post_forgot_password email) = some "/auth/forgot-password"
  limited_path (post_reset_password token new_password) = none

  -- The limiter is built once, when the program is loaded.
  unfoldable pub guard_rate : Option String → Action (Unit {0})
  guard_rate none = pure tt
  guard_rate (some path) = do
    settings ← gets (λ w. w.settings)
    rate ← lift (new_limiter settings (some settings.rate_limit_auth))
    limit x rate path

  unfoldable pub run_endpoint : Endpoint → Option String → Action Response
  unfolding limited_path
  run_endpoint (open_to_all e) credentials = do
    guard_rate (limited_path e)
    guard_module (module_of (open_to_all e))
    handle_public e
  run_endpoint (for_user e) credentials = do
    guard_module (module_of (for_user e))
    user ← guard_user (permissions_of e) credentials
    handle e user

  -- One request: its guards and its handler in one transaction.
  unfoldable pub serve : Endpoint → Option String → Action Response
  serve e credentials = get_db (run_endpoint e credentials)
