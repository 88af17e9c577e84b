-- ===== src/Api/Entitlement.antt =====
-- Which tenants get an answer from the endpoints behind a licensed module.
use lms_backend.Base.{
  ◌≡◌, refl, sym, ap, ◌∙◌, String, true, false, not, Option, some, List, contains, string_eq,
  nat_eq, Bool-cases, Option-cases, arith, inl, inr,
}
use lms_backend.Shared.Errors.{ok, app, module_not_enabled}
use lms_backend.Models.{Uuid, Time, ModuleCode, module_value}
use lms_backend.Store.{
  World, Action, Db, RedisCommand, CacheValue, enabled_modules, codes, tenant_of, pure, case_option,
  raise_if, or_raise, current_tenant_id, ◌>>=◌,
}
use lms_backend.Store.Runs.{bind-ok, Passes-ok, raise_if-ok, pure_same}
use lms_backend.Database.Sessions.{request_gucs, get_db-value}
use lms_backend.External.{External}
use lms_backend.Licensing.{
  core_codes, enabled_in, enabled_codes, compute_enabled, tenant_has_module, require_module,
}
use lms_backend.Api.Routes.{Queries, UserEndpoint, Response, for_user, module_of}
use lms_backend.Api.Endpoints.{guard_module, run_endpoint, serve}

module _ (x : External) where
  -- Why a tenant has a module at the time `now`: it is a core one, the tables grant it, or Redis still
  -- keeps a set of codes with it.
  pub data Entitled (d : Db) (now : Time) (redis : Option (List RedisCommand)) (t : Uuid)
      (code : String) : Type 0 where
    by_core : contains core_codes code ≡ true → Entitled d now redis t code
    by_tables : contains (enabled_in d now t) code ≡ true → Entitled d now redis t code
    by_cache :
        (log : List RedisCommand) (cs : List String)
        → redis ≡ some log
        → x.redis_get log now (enabled_modules t) ≡ some (codes cs)
        → contains cs code ≡ true
        → Entitled d now redis t code

  -- Redis has something under the key of the tenant.
  hit-Entitled :
      (t : Uuid) (code : String) (w : World) (log : List RedisCommand) (value : CacheValue)
      → contains core_codes code ≡ false
      → w.redis ≡ some log
      → x.redis_get log w.now (enabled_modules t) ≡ some value
      → (tenant_has_module x t code w).0 ≡ ok true
      → Entitled w.db w.now w.redis t code
  unfolding tenant_has_module enabled_codes case_option pure ◌>>=◌
  hit-Entitled t code w log (codes cs) e there hit h =
      by_cache log cs there hit (pure_same (contains cs code) true (rw (e, there, hit) at h))
  hit-Entitled t code w log (CacheValue.tenant _) e there hit h =
      by_tables (pure_same (contains (enabled_in w.db w.now t) code) true (rw (e, there, hit) at h))
  hit-Entitled t code w log (CacheValue.reset _ _) e there hit h =
      by_tables (pure_same (contains (enabled_in w.db w.now t) code) true (rw (e, there, hit) at h))

  tenant_has_module-Entitled :
      (t : Uuid) (code : String) (w : World)
      → (tenant_has_module x t code w).0 ≡ ok true
      → Entitled w.db w.now w.redis t code
  unfolding tenant_has_module enabled_codes compute_enabled case_option pure ◌>>=◌
  tenant_has_module-Entitled t code w h = elim (Bool-cases (contains core_codes code)) [
    | inl e ↦ by_core e
    | inr e ↦
        (let answer = contains (enabled_in w.db w.now t) code in
          elim (Option-cases w.redis) [
            | inl gone ↦ by_tables (pure_same answer true (rw (e, gone) at h))
            | inr (log, there) ↦ elim (Option-cases (x.redis_get log w.now (enabled_modules t))) [
              | inl miss ↦ by_tables (pure_same answer true (rw (e, there, miss) at h))
              | inr (value, hit) ↦ hit-Entitled t code w log value e there hit h
            ]
          ])
  ]

  -- the guard, for a tenant that the context names
  guard_of : Uuid → ModuleCode → Action (Unit {0})
  guard_of t code = tenant_has_module x t (module_value code) >>= λ has.
      raise_if (not has) (app module_not_enabled "Module not enabled for tenant")

  require_module-guard_of :
      (t : Uuid) (code : ModuleCode) (w : World)
      → tenant_of w.ctx ≡ some t
      → require_module x code w ≡ guard_of t code w
  unfolding require_module current_tenant_id or_raise ◌>>=◌ guard_of
  require_module-guard_of t code w tenant = rw tenant refl

  require_module-Entitled :
      (t : Uuid) (code : ModuleCode) (w : World)
      → tenant_of w.ctx ≡ some t
      → (require_module x code w).0 ≡ ok tt
      → Entitled w.db w.now w.redis t (module_value code)
  unfolding guard_of
  require_module-Entitled t code w tenant h =
      let m = tenant_has_module x t (module_value code) in
      let h' = ap (λ r. r.0) (sym (require_module-guard_of t code w tenant)) ∙ h in
      let passed = bind-ok m _ w tt h' in
      let has = (raise_if-ok (not passed.value) _ (m w).1 tt (Passes-ok _ _ w passed tt h')).0 in
      let yes : passed.value ≡ true = ground (arith, has) in
      tenant_has_module-Entitled t (module_value code) w (passed.first ∙ ap ok yes)

module _ (x : External) (q : Queries) where
  -- In the context of a tenant, an endpoint behind a module answers only if, at that time, the module is a
  -- core one, the tables grant it to the tenant, or Redis still keeps a set of the tenant's codes with it.
  pub serve-Entitled :
      (e : UserEndpoint) (code : ModuleCode) (credentials : Option String) (w : World) (t : Uuid)
      (r : Response)
      → tenant_of w.ctx ≡ some t
      → module_of (for_user e) ≡ some code
      → (serve x q (for_user e) credentials w).0 ≡ ok r
      → Entitled x w.db w.now w.redis t (module_value code)
  unfolding serve run_endpoint guard_module
  serve-Entitled e code credentials w t r tenant behind h =
      let w0 = record w { gucs = request_gucs w } in
      let ran = sym (get_db-value (run_endpoint x q (for_user e) credentials) w) ∙ h in
      let passed = bind-ok (guard_module x q (module_of (for_user e))) _ w0 r ran in
      let guard : (require_module x code w0).0 ≡ ok tt = rw behind at (passed.first) in
      require_module-Entitled x t code w0 tenant guard
