-- ===== src/Seed/Catalog.antt =====
-- The catalogues that scripts/seed.py fills the database from: the PERMISSIONS of app/modules/*/permissions.py,
-- the role matrix, and the MODULE_CATALOG of app/core/licensing/constants.py.
use lms_backend.Base.{String, not, List, [], ◌∷◌, ◌++◌, map, filter, ◌==◌, string_eq}
use lms_backend.Models.{RoleCode, ModuleCode}

abbrev pub auth_permissions : List (String × String)
auth_permissions =
    ("user:read", "View users")
    ∷ ("user:create", "Create users")
    ∷ ("user:update", "Update users")
    ∷ ("user:delete", "Delete users")
    ∷ ("role:read", "View roles")
    ∷ ("role:assign", "Assign roles to users")
    ∷ ("tenant:read", "View tenant settings")
    ∷ ("tenant:manage", "Manage tenants & module licensing")
    ∷ []

abbrev pub courses_permissions : List (String × String)
courses_permissions =
    ("course:read", "View courses")
    ∷ ("course:create", "Create courses")
    ∷ ("course:update", "Update courses")
    ∷ ("course:delete", "Delete courses")
    ∷ ("course:enroll", "Enroll in courses")
    ∷ ("category:manage", "Manage categories")
    ∷ []

abbrev pub learning_permissions : List (String × String)
learning_permissions =
    ("lesson:read", "View lessons")
    ∷ ("lesson:create", "Create lessons")
    ∷ ("lesson:update", "Update lessons")
    ∷ ("lesson:delete", "Delete lessons")
    ∷ ("progress:read", "View own progress")
    ∷ []

abbrev pub assignments_permissions : List (String × String)
assignments_permissions =
    ("assignment:read", "View assignments")
    ∷ ("assignment:create", "Create assignments")
    ∷ ("assignment:update", "Update assignments")
    ∷ ("assignment:delete", "Delete assignments")
    ∷ ("assignment:submit", "Submit assignments")
    ∷ ("grade:read", "View grades")
    ∷ ("grade:write", "Grade submissions")
    ∷ []

abbrev pub admin_permissions : List (String × String)
admin_permissions =
    ("report:read", "View reports & analytics") ∷ ("admin:access", "Access the admin module") ∷ []

-- `ALL_PERMISSIONS`
abbrev pub all_permissions : List (String × String)
all_permissions =
    auth_permissions ++ courses_permissions ++ learning_permissions ++ assignments_permissions
    ++ admin_permissions

-- `ALL_CODES`; a set is the list of its elements
abbrev pub all_codes : List String
all_codes = map (λ p. p.0) all_permissions

-- `ROLE_MATRIX`
unfoldable pub role_matrix : RoleCode → List String
role_matrix RoleCode.super_admin = all_codes
role_matrix RoleCode.tenant_admin = filter (λ c. not (c == "tenant:manage")) all_codes
role_matrix RoleCode.instructor =
    "course:read" ∷ "course:create" ∷ "course:update" ∷ "lesson:read" ∷ "lesson:create"
    ∷ "lesson:update" ∷ "lesson:delete" ∷ "assignment:read" ∷ "assignment:create"
    ∷ "assignment:update" ∷ "grade:read" ∷ "grade:write" ∷ "progress:read" ∷ "report:read"
    ∷ "admin:access" ∷ "user:read" ∷ []
role_matrix RoleCode.student =
    "course:read" ∷ "course:enroll" ∷ "lesson:read" ∷ "progress:read" ∷ "assignment:read"
    ∷ "assignment:submit" ∷ "grade:read" ∷ []

-- `MODULE_CATALOG`, in its order
abbrev pub module_catalog : List (ModuleCode × String)
module_catalog =
    (ModuleCode.auth, "Authentication & identity")
    ∷ (ModuleCode.courses, "Course catalog & enrollment")
    ∷ (ModuleCode.learning, "Lessons, content & progress")
    ∷ (ModuleCode.assignments, "Assignments, quizzes & grading")
    ∷ (ModuleCode.dashboard, "Learner & instructor dashboards")
    ∷ (ModuleCode.admin, "Administration, reports & analytics")
    ∷ []
