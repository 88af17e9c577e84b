-- ===== src/Licensing/Service.antt =====
-- `LicensingService` of app/core/licensing/service.py, and the guard of guard.py. The tables
-- `modules` and `tenant_modules` are under no policy.
use lms_backend.Base.{
  ℕ, String, Bool, true, false, not, ◌&&◌, Option, none, some, List, [], ◌∷◌, ◌++◌, map, filter,
  any, contains, ◌==◌, nat_eq, string_eq, ltb, if◌then◌else◌,
}
use lms_backend.Shared.Errors.{
  ok, err, app, not_found, module_not_enabled, tenant_resolution, integrity_error,
}
use lms_backend.Models.{
  Uuid, Time, Module, TenantModule, ModuleCode, module_value, auth, courses, learning, assignments,
  dashboard, admin,
}
use lms_backend.Store.{
  Db, Action, CacheValue, set, delete, enabled_modules, codes, pure, lift, gets, get_now, uuid4,
  raise_if, or_raise, case_option, scalar_one_or_none, current_tenant_id, ◌>>=◌, ◌>>◌,
}
use lms_backend.External.{External}

-- `CORE_MODULE_CODES`
abbrev pub core_module_codes : List ModuleCode
core_module_codes = auth ∷ []

-- `ALL_MODULE_CODES`
abbrev pub all_module_codes : List ModuleCode
all_module_codes = auth ∷ courses ∷ learning ∷ assignments ∷ dashboard ∷ admin ∷ []

unfoldable pub core_codes : List String
unfolding module_value
core_codes = map module_value core_module_codes

abbrev pub cache_ttl : ℕ
cache_ttl = 60

-- `select(Module.code).join(TenantModule, ...).where(...)`
unfoldable pub codes_of : (TenantModule → Module → Bool) → TenantModule → List Module → List String
codes_of test tm [] = []
codes_of test tm (m ∷ modules) =
    let rest = codes_of test tm modules in
    if tm.module_id == m.id && test tm m then m.code ∷ rest else rest

unfoldable pub join_codes :
    (TenantModule → Module → Bool) → List TenantModule → List Module → List String
unfolding codes_of
join_codes test [] modules = []
join_codes test (tm ∷ tms) modules = codes_of test tm modules ++ join_codes test tms modules

-- The WHERE clauses of the two queries of `_compute_enabled`.
abbrev pub is_enabled_for : Uuid → TenantModule → Module → Bool
is_enabled_for tenant_id tm m = tm.tenant_id == tenant_id && tm.enabled && m.is_active

abbrev pub has_expired : Option Time → Time → Bool
has_expired none now = false
has_expired (some t) now = ltb t now

abbrev pub is_expired_for : Uuid → Time → TenantModule → Module → Bool
is_expired_for tenant_id now tm m = tm.tenant_id == tenant_id && has_expired tm.expires_at now

-- `_compute_enabled`, on the tables; a set is the list of its elements
unfoldable pub enabled_in : Db → Time → Uuid → List String
unfolding join_codes
enabled_in d now tenant_id =
    let licensed = join_codes (is_enabled_for tenant_id) d.tenant_modules d.modules in
    let expired = join_codes (is_expired_for tenant_id now) d.tenant_modules d.modules in
    filter (λ c. not (contains expired c)) licensed ++ core_codes

unfoldable pub compute_enabled : Uuid → Action (List String)
compute_enabled tenant_id w = (ok (enabled_in w.db w.now tenant_id), w)

abbrev cached_codes : Option CacheValue → Option (List String)
cached_codes (some (codes cs)) = some cs
cached_codes _ = none

module _ (x : External) where
  unfoldable pub enabled_codes : Uuid → Action (List String)
  unfolding compute_enabled
  enabled_codes tenant_id w = case_option w.redis (compute_enabled tenant_id w) (λ log.
      case_option (cached_codes (x.redis_get log w.now (enabled_modules tenant_id)))
        (let cs = enabled_in w.db w.now tenant_id in
          (
            ok cs,
            record w {
              redis = some (set w.now (enabled_modules tenant_id) (codes cs) cache_ttl ∷ log);
            },
          ))
        (λ cs. (ok cs, w)))

  unfoldable pub tenant_has_module : Uuid → String → Action Bool
  tenant_has_module tenant_id code =
      if contains core_codes code
      then pure true
      else do enabled ← enabled_codes tenant_id; pure (contains enabled code)

  unfoldable pub invalidate : Uuid → Action (Unit {0})
  invalidate tenant_id w =
      case_option w.redis (ok tt, w)
        (λ log. (ok tt, record w { redis = some (delete w.now (enabled_modules tenant_id) ∷ log) }))

  -- the two rows that a request for one module of one tenant concerns
  abbrev pub is_licence : Uuid → Uuid → TenantModule → Bool
  is_licence tenant_id module_id tm = tm.tenant_id == tenant_id && tm.module_id == module_id

  unfoldable pub find_module : String → Action (Option Module)
  find_module code = do
    rows ← gets (λ w. filter (λ (m : Module). m.code == code) w.db.modules)
    lift (scalar_one_or_none rows)

  unfoldable pub find_licence : Uuid → Uuid → Action (Option TenantModule)
  find_licence tenant_id module_id = do
    rows ← gets (λ w. filter (is_licence tenant_id module_id) w.db.tenant_modules)
    lift (scalar_one_or_none rows)

  -- the INSERT and the UPDATE of a row of `tenant_modules`
  unfoldable pub add_licence : TenantModule → Action TenantModule
  add_licence tm w =
      if any (is_licence tm.tenant_id tm.module_id) w.db.tenant_modules
      then (err integrity_error, w)
      else (
        ok tm,
        record w { db = record w.db { tenant_modules = w.db.tenant_modules ++ tm ∷ [] } },
      )

  unfoldable pub update_licence : TenantModule → Action TenantModule
  update_licence tm w = (
    ok tm,
    record w {
      db = record w.db {
        tenant_modules =
            map (λ (r : TenantModule). if r.id == tm.id then tm else r) w.db.tenant_modules;
      };
    },
  )

  unfoldable pub set_module : Uuid → String → Bool → Action TenantModule
  set_module tenant_id code enabled = do
    found ← find_module code
    m ← or_raise found (app not_found "Module not in catalog")
    licence ← find_licence tenant_id m.id
    now ← get_now
    tm ←
        case_option licence
          (do
            id ← uuid4
            add_licence (record {
              id = id;
              tenant_id = tenant_id;
              module_id = m.id;
              enabled = enabled;
              enabled_at = if enabled then some now else none;
              expires_at = none;
            }))
          (λ old. update_licence (record old {
            enabled = enabled;
            enabled_at = if enabled then some now else old.enabled_at;
          }))
    invalidate tenant_id
    pure tm

  -- the guard of `require_module`
  unfoldable pub require_module : ModuleCode → Action (Unit {0})
  require_module code = do
    tenant ← current_tenant_id
    tenant_id ← or_raise tenant (app tenant_resolution "Tenant could not be resolved")
    has ← tenant_has_module tenant_id (module_value code)
    raise_if (not has) (app module_not_enabled "Module not enabled for tenant")
