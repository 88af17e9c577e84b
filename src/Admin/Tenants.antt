-- ===== src/Admin/Tenants.antt =====
-- `TenantAdminService` of app/modules/admin/service.py: each method in a session of its own, which
-- bypasses row-level security.
use lms_backend.Base.{
  String, Bool, true, false, not, ◌&&◌, Option, none, some, List, [], ◌∷◌, map, contains, ◌==◌,
  string_eq, lower, is_none, if◌then◌else◌,
}
use lms_backend.Shared.Errors.{app, conflict, not_found, validation, value_error}
use lms_backend.Models.{Uuid, Tenant, User, Module, ModuleCode, module_value}
use lms_backend.Store.{
  Action, pure, case_option, gets, get_now, uuid4, raise_if, or_raise, ◌>>=◌, ◌>>◌,
}
use lms_backend.Database.{add}
use lms_backend.Database.Sessions.{tenant_session}
use lms_backend.Database.Tables.{user_model}
use lms_backend.External.{External}
use lms_backend.Security.{hash_password}
use lms_backend.Licensing.{all_module_codes, set_module, enabled_codes}
use lms_backend.Tenancy.{get_tenant, get_by_slug, create_tenant_row, list_all}
use lms_backend.Admin.Schemas.{TenantCreate, TenantModuleOut}

-- a set of codes, given by a list
unfoldable pub to_set : List String → List String
to_set [] = []
to_set (c ∷ codes) = let rest = to_set codes in if contains rest c then rest else c ∷ rest

-- `MODULE_CATALOG`
unfoldable pub catalog_name : ModuleCode → String
catalog_name ModuleCode.auth = "Authentication & identity"
catalog_name ModuleCode.courses = "Course catalog & enrollment"
catalog_name ModuleCode.learning = "Lessons, content & progress"
catalog_name ModuleCode.assignments = "Assignments, quizzes & grading"
catalog_name ModuleCode.dashboard = "Learner & instructor dashboards"
catalog_name ModuleCode.admin = "Administration, reports & analytics"

-- `ModuleCode(code)`, which raises on any other text
unfoldable pub find_code : String → List ModuleCode → Option ModuleCode
unfolding module_value
find_code code [] = none
find_code code (m ∷ ms) = if module_value m == code then some m else find_code code ms

unfoldable pub module_outs : List String → List Module → Option (List TenantModuleOut)
unfolding find_code catalog_name
module_outs enabled [] = some []
module_outs enabled (m ∷ modules) = case_option (find_code m.code all_module_codes) none (λ code.
    case_option (module_outs enabled modules) none (λ outs. some (
      record { code = m.code; name = catalog_name code; enabled = contains enabled m.code }
      ∷ outs)))

abbrev pub bypassing : {A : Type 0} → Action A → Action A
bypassing m = tenant_session none true m

module _ (x : External) where
  -- the loop over the codes
  unfoldable pub enable_all : Uuid → List String → Action (Unit {0})
  enable_all tenant_id [] = pure tt
  enable_all tenant_id (c ∷ codes) =
      set_module x tenant_id c true >>= λ _. enable_all tenant_id codes

  unfoldable pub create_tenant : TenantCreate → Action Tenant
  unfolding to_set
  create_tenant request = bypassing (do
    existing ← get_by_slug request.slug
    raise_if (not (is_none existing)) (app conflict "Tenant slug already exists")
    t ← create_tenant_row request.name request.slug
    enable_all t.id (to_set (module_value ModuleCode.auth ∷ map module_value request.modules))
    hashed_password ← hash_password x request.admin_password
    id ← uuid4
    now ← get_now
    add {Row = User} (record {
      id = id;
      tenant_id = t.id;
      email = lower request.admin_email;
      hashed_password = hashed_password;
      full_name = "Tenant Admin";
      is_active = true;
      is_verified = false;
      is_superuser = true;
      last_login_at = none;
      roles = [];
      created_at = now;
      deleted_at = none;
    })
    pure t)

  unfoldable pub list_modules : Uuid → Action (List TenantModuleOut)
  list_modules tenant_id = bypassing (do
    enabled ← enabled_codes x tenant_id
    modules ← gets (λ w. w.db.modules)
    or_raise (module_outs enabled modules) value_error)

  unfoldable pub list_tenants : Action (List Tenant)
  list_tenants = bypassing list_all

  unfoldable pub set_tenant_module : Uuid → ModuleCode → Bool → Action (Unit {0})
  set_tenant_module tenant_id code enabled = do
    raise_if (module_value code == module_value ModuleCode.auth && not enabled)
        (app validation "AUTH is a core module and cannot be disabled")
    bypassing (do
      t ← get_tenant tenant_id
      raise_if (is_none t) (app not_found "Tenant not found")
      set_module x tenant_id (module_value code) enabled
      pure tt)
