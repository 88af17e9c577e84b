-- ===== src/Api/Isolation.antt =====
-- What every endpoint keeps: the rows of the other tenants, and the unique constraints.
use lms_backend.Base.{◌≡◌, refl, String, Bool, arith, true, false, Option, none, some}
use lms_backend.Shared.Errors.{Result, ok, err}
use lms_backend.Models.{Uuid, User, ModuleCode}
use lms_backend.Store.{World, Action, tenant_of}
use lms_backend.Store.Relations.{Obeys, Obeys-bind}
use lms_backend.Database.{SameOutside, bind_rls}
use lms_backend.Database.Constraints.{IsConsistent}
use lms_backend.Database.Outside.{Confines, scoped_to, SameOutside-refl}
use lms_backend.Database.Consistent.{KeepsConsistent}
use lms_backend.Database.Rules.{IsStoreRelation, store_rules, Confines-store, consistent_store}
use lms_backend.Database.Sessions.{
  settle, transaction, request_gucs, bypass_of, get_db, get_db-KeepsConsistent,
}
use lms_backend.External.{External}
use lms_backend.Licensing.Rules.{Obeys-require_module}
use lms_backend.Auth.Rules.{auth_rules}
use lms_backend.Admin.Rules.{admin_rules}
use lms_backend.Courses.Rules.{course_rules}
use lms_backend.Learning.{learning_rules}
use lms_backend.Assignments.Rules.{assignment_rules}
use lms_backend.RateLimit.Rules.{Obeys-limit}
use lms_backend.Dashboard.Rules.{Obeys-for_user}
use lms_backend.Admin.Platform.{platform_rules}
use lms_backend.Api.Routes.{
  module_of, permissions_of, Queries, PublicEndpoint, PlatformEndpoint, UserEndpoint, Endpoint,
  open_to_all, for_user, post_register, post_login, post_refresh, post_logout, post_forgot_password,
  post_reset_password, get_me, get_courses, get_course_detail, post_enroll, get_lessons,
  post_complete, get_progress, get_assignments, get_assignment_detail, post_submit, post_grade,
  get_submissions, get_grades_me, get_admin_courses, get_admin_course, post_admin_course,
  put_admin_course, delete_admin_course, get_admin_lessons, post_admin_lesson,
  get_admin_assignments, post_admin_assignment, get_users, post_user, put_user, get_reports,
  get_dashboard, manage, post_tenant, get_tenants, get_tenant_modules, put_tenant_module,
}
use lms_backend.Api.Endpoints.{
  handle_public, handle_platform, handle, guard_rate, guard_module, resolve_or_404, guard_user,
  run_endpoint, serve,
}

-- The endpoint is one of the platform's administrators, who work on every tenant.
abbrev pub is_platform : Endpoint → Bool
is_platform (for_user (manage p)) = true
is_platform _ = false

module _ {R : World → World → Type 0} (s : IsStoreRelation R) (x : External) (q : Queries) where
  Obeys-handle_public : (e : PublicEndpoint) → Obeys R (handle_public x q e)
  unfolding handle_public
  Obeys-handle_public (post_register r) = search (store_rules, auth_rules)
  Obeys-handle_public (post_login r user_agent ip) = search (store_rules, auth_rules)
  Obeys-handle_public (post_refresh token) = search (store_rules, auth_rules)
  Obeys-handle_public (post_logout token) = search (store_rules, auth_rules)
  Obeys-handle_public (post_forgot_password email) = search (store_rules, auth_rules)
  Obeys-handle_public (post_reset_password token new_password) = search (store_rules, auth_rules)

  Obeys-handle :
      (e : UserEndpoint) (user : User)
      → (is_platform (for_user e) ≡ true → (p : PlatformEndpoint) → Obeys R (handle_platform x q p))
      → Obeys R (handle x q e user)
  unfolding handle
  Obeys-handle get_me user _ = search store_rules
  Obeys-handle (get_courses f) user _ = search (store_rules, course_rules)
  Obeys-handle (get_course_detail id) user _ = search (store_rules, course_rules)
  Obeys-handle (post_enroll id) user _ = search (store_rules, course_rules)
  Obeys-handle (get_lessons id) user _ = search (store_rules, learning_rules)
  Obeys-handle (post_complete id n) user _ = search (store_rules, learning_rules)
  Obeys-handle (get_progress p) user _ = search (store_rules, learning_rules)
  Obeys-handle (get_assignments f) user _ = search (store_rules, assignment_rules)
  Obeys-handle (get_assignment_detail id) user _ = search (store_rules, assignment_rules)
  Obeys-handle (post_submit id r) user _ = search (store_rules, assignment_rules)
  Obeys-handle (post_grade id r) user _ = search (store_rules, assignment_rules)
  Obeys-handle (get_submissions id) user _ = search (store_rules, assignment_rules)
  Obeys-handle (get_grades_me p) user _ = search (store_rules, assignment_rules)
  Obeys-handle (get_admin_courses f) user _ = search (store_rules, course_rules)
  Obeys-handle (get_admin_course id) user _ = search (store_rules, course_rules)
  Obeys-handle (post_admin_course r) user _ = search (store_rules, course_rules)
  Obeys-handle (put_admin_course id r) user _ = search (store_rules, course_rules)
  Obeys-handle (delete_admin_course id) user _ = search (store_rules, course_rules)
  Obeys-handle (get_admin_lessons id) user _ = search (store_rules, learning_rules)
  Obeys-handle (post_admin_lesson id r) user _ = search (store_rules, admin_rules)
  Obeys-handle (get_admin_assignments id) user _ = search store_rules
  Obeys-handle (post_admin_assignment id r) user _ = search (store_rules, admin_rules)
  Obeys-handle (get_users p) user _ = search (store_rules, admin_rules)
  Obeys-handle (post_user r) user _ = search (store_rules, admin_rules)
  Obeys-handle (put_user id r) user _ = search (store_rules, admin_rules)
  Obeys-handle get_reports user _ = search (store_rules, admin_rules)
  Obeys-handle get_dashboard user _ = search (store_rules, Obeys-for_user)
  Obeys-handle (manage p) user platform = platform refl p

  Obeys-guard_module : (code : Option ModuleCode) → Obeys R (guard_module x q code)
  unfolding guard_module
  Obeys-guard_module none = search store_rules
  Obeys-guard_module (some code) = Obeys-require_module s x code

  Obeys-guard_rate : (path : Option String) → Obeys R (guard_rate x q path)
  unfolding guard_rate
  Obeys-guard_rate none = search store_rules
  Obeys-guard_rate (some path) = search (store_rules, Obeys-limit) depth 12

  Obeys-guard_user :
      (codes : _) (credentials : Option String) → Obeys R (guard_user x q codes credentials)
  unfolding guard_user
  Obeys-guard_user codes credentials = search (store_rules, auth_rules)

  Obeys-run_endpoint :
      (e : Endpoint) (credentials : Option String)
      → (is_platform e ≡ true → (p : PlatformEndpoint) → Obeys R (handle_platform x q p))
      → Obeys R (run_endpoint x q e credentials)
  unfolding run_endpoint
  Obeys-run_endpoint (open_to_all e) credentials platform =
      search (store_rules, Obeys-guard_rate, Obeys-guard_module, Obeys-handle_public) depth 12
  Obeys-run_endpoint (for_user e) credentials platform =
      Obeys-bind s.preorder (guard_module x q (module_of (for_user e))) _
        (Obeys-guard_module (module_of (for_user e)))
        (λ _.
          Obeys-bind s.preorder (guard_user x q (permissions_of e) credentials) _
            (Obeys-guard_user (permissions_of e) credentials)
            (λ user. Obeys-handle e user platform))

settle-SameOutside :
    {A : Type 0} (t : Uuid) (before : World) (r : Result A) (w : World)
    → SameOutside t before.db w.db
    → SameOutside t before.db (settle before r w).1.db
settle-SameOutside t before (ok a) w h = h
settle-SameOutside t before (err e) w h = SameOutside-refl t before.db

get_db-SameOutside :
    {A : Type 0} (m : Action A) (w : World) (t : Uuid)
    → Obeys Confines m
    → w.settings.enable_row_level_security ≡ true
    → tenant_of w.ctx ≡ some t
    → bypass_of w.ctx ≡ false
    → SameOutside t w.db (get_db m w).1.db
unfolding get_db transaction bind_rls
get_db-SameOutside m w t h rls tenant bypass =
    let w0 = record w { gucs = request_gucs w } in
    let g : request_gucs w ≡ scoped_to t = rw (rls, tenant, bypass) refl in
    let (r, w') = m w0 in settle-SameOutside t w r w' ((h.at w0).at t g).1

not_both : (b : Bool) → b ≡ true → b ≡ false → ⊥
not_both b p q = ground arith

module _ (x : External) (q : Queries) where
  handle_platform-KeepsConsistent :
      (p : PlatformEndpoint) → Obeys KeepsConsistent (handle_platform x q p)
  unfolding handle_platform resolve_or_404
  handle_platform-KeepsConsistent (post_tenant r) =
      search (store_rules, consistent_store, platform_rules)
  handle_platform-KeepsConsistent get_tenants =
      search (store_rules, consistent_store, platform_rules)
  handle_platform-KeepsConsistent (get_tenant_modules name) =
      search (store_rules, consistent_store, platform_rules) depth 12
  handle_platform-KeepsConsistent (put_tenant_module name code enabled) =
      search (store_rules, consistent_store, platform_rules) depth 12

  -- A request in the context of a tenant to an endpoint other than those of the platform's administrators, with row-level security enabled and no super-administrator in
  -- the context when its transaction begins, leaves the rows of every other tenant as they are in each
  -- of the ten protected tables that the model holds, whether it succeeds or fails.
  pub serve-SameOutside :
      (e : Endpoint) (credentials : Option String) (w : World) (t : Uuid)
      → is_platform e ≡ false
      → w.settings.enable_row_level_security ≡ true
      → tenant_of w.ctx ≡ some t
      → bypass_of w.ctx ≡ false
      → SameOutside t w.db (serve x q e credentials w).1.db
  unfolding serve
  serve-SameOutside e credentials w t tenant_only =
      get_db-SameOutside (run_endpoint x q e credentials) w t (
        Obeys-run_endpoint Confines-store x q e credentials
          (λ platform p. absurd (not_both (is_platform e) platform tenant_only)))

  -- No request breaks a unique constraint or a primary key of the protected tables.
  pub serve-IsConsistent :
      (e : Endpoint) (credentials : Option String) (w : World)
      → IsConsistent w.db
      → IsConsistent (serve x q e credentials w).1.db
  unfolding serve
  serve-IsConsistent e credentials w =
      (((get_db-KeepsConsistent (run_endpoint x q e credentials) (
          Obeys-run_endpoint consistent_store x q e credentials
            (λ _. handle_platform-KeepsConsistent))).at
        w).at)
