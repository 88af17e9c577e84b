-- ===== src/Licensing/Toggle.antt =====
-- What `set_module` does to the modules that a tenant has.
use lms_backend.Base.{
  ◌≡◌, refl, suc, sym, ap, ap₂, ◌∙◌, String, Bool, not, ◌&&◌, ◌||◌, Option, none, some, [], ◌∷◌,
  ◌++◌, filter, filter-append, All-filter_mem, any, contains, nat_eq, string_eq, beq_refl,
  Bool-cases, inl, inr, arith, if◌then◌else◌,
}
use lms_backend.Shared.Errors.{ok, err, app, not_found, integrity_error}
use lms_backend.Models.{Uuid, Time, Module, TenantModule}
use lms_backend.Store.{
  World, Action, pure, gets, lift, get_now, or_raise, case_option, uuid4, scalar_one_or_none, ◌>>=◌,
}
use lms_backend.Store.Runs.{
  bind-Reads, Reads-ok, bind-ok, Passes-ok, or_raise-ok, or_raise_still, pure-ok, now_still,
  scalar_one_or_none-none, scalar_one_or_none-some,
}
use lms_backend.External.{External}
use lms_backend.Licensing.Service.{
  is_licence, has_expired, core_codes, tenant_has_module, add_licence, update_licence, set_module,
  find_module, find_licence, invalidate,
}
use lms_backend.Licensing.Access.{tenant_has_module-invalidate}
use lms_backend.Licensing.Rows.{has_code, DistinctIds, put, put_licence, enabled_one}

module _ (x : External) (t : Uuid) (code : String) (enabled : Bool) where
  -- the new licence, and the old one as it is changed
  new_licence : Module → Time → Uuid → TenantModule
  new_licence m now id = record {
    id = id;
    tenant_id = t;
    module_id = m.id;
    enabled = enabled;
    enabled_at = if enabled then some now else none;
    expires_at = none;
  }

  changed : Time → TenantModule → TenantModule
  changed now old = record old {
    enabled = enabled;
    enabled_at = if enabled then some now else old.enabled_at;
  }

  save : Module → Option TenantModule → Time → Action TenantModule
  unfolding new_licence changed
  save m licence now =
      case_option licence (uuid4 >>= λ id. add_licence x (new_licence m now id))
        (λ old. update_licence x (changed now old))

  -- What saving leaves.
  pub record Saved (m : Module) (w : World) (o : World) (tm : TenantModule) : Type 0 where
    pub licences : filter (is_licence x t m.id) o.db.tenant_modules ≡ tm ∷ []
    pub modules : o.db.modules ≡ w.db.modules
    pub now_lem : o.now ≡ w.now
    pub enabled_lem : tm.enabled ≡ enabled

  add_licence-ok :
      (tm r : TenantModule) (w : World)
      → (add_licence x tm w).0 ≡ ok r
      → (tm ≡ r)
        × ((add_licence x tm w).1
            ≡ record w { db = record w.db { tenant_modules = w.db.tenant_modules ++ tm ∷ [] } })
  unfolding add_licence
  add_licence-ok tm r w h =
      elim (Bool-cases (any (is_licence x tm.tenant_id tm.module_id) w.db.tenant_modules)) [
        | inl e ↦ let bad : err integrity_error ≡ ok r = rw e at h in ground arith
        | inr e ↦ let good : ok tm ≡ ok r = rw e at h in (ground arith, rw e refl)
      ]

  ok_same : (a b : TenantModule) → ok a ≡ ok b → a ≡ b
  ok_same a b h = ground arith

  save-Saved :
      (m : Module) (licence : Option TenantModule) (now : Time) (w : World) (tm : TenantModule)
      → DistinctIds w.db.tenant_modules
      → scalar_one_or_none (filter (is_licence x t m.id) w.db.tenant_modules) ≡ ok licence
      → (save m licence now w).0 ≡ ok tm
      → Saved m w (save m licence now w).1 tm
  unfolding save case_option uuid4 ◌>>=◌ new_licence changed update_licence put
  save-Saved m none now w tm distinct found h =
      let v = record w { next_id = suc w.next_id } in
      let obj = new_licence m now w.next_id in
      let (same, after) = add_licence-ok obj tm v h in
      let rows = w.db.tenant_modules in
      let empty = scalar_one_or_none-none (filter (is_licence x t m.id) rows) found in
      let one : filter (is_licence x t m.id) (rows ++ obj ∷ []) ≡ tm ∷ [] =
        filter-append (is_licence x t m.id) rows (obj ∷ [])
        ∙ (rw (empty, beq_refl t, beq_refl m.id) (ap (λ o. o ∷ []) same)) in
      rw after (record {
        licences = one;
        modules = refl;
        now_lem = refl;
        enabled_lem = ap (λ (r : TenantModule). r.enabled) (sym same);
      })
  save-Saved m (some old) now w tm distinct found h =
      let same : changed now old ≡ tm = ok_same _ _ h in
      let rows = w.db.tenant_modules in
      let one = scalar_one_or_none-some (filter (is_licence x t m.id) rows) old found in
      let fits = (rw one at (All-filter_mem (is_licence x t m.id) rows)).0.1 in
      record {
        licences =
            put_licence x t m.id (changed now old) old rows distinct refl fits one
            ∙ ap (λ o. o ∷ []) same;
        modules = refl;
        now_lem = refl;
        enabled_lem = ap (λ (r : TenantModule). r.enabled) (sym same);
      }

  finish : TenantModule → Action TenantModule
  finish tm = invalidate x t >>= λ _. pure tm

  save_and_finish : Module → Option TenantModule → Time → Action TenantModule
  save_and_finish m licence now = save m licence now >>= finish

  -- What `set_module` has done when it returns.
  pub record Toggled (w w' : World) (tm : TenantModule) : Type 0 where
    pub m : Module
    pub one_module : filter (has_code code) w.db.modules ≡ m ∷ []
    pub before : World
    pub saved : Saved m w before tm
    pub state : w' ≡ (invalidate x t before).1

  save_and_finish-Toggled :
      (m : Module) (licence : Option TenantModule) (now : Time) (w : World) (tm : TenantModule)
      → filter (has_code code) w.db.modules ≡ m ∷ []
      → DistinctIds w.db.tenant_modules
      → scalar_one_or_none (filter (is_licence x t m.id) w.db.tenant_modules) ≡ ok licence
      → (save_and_finish m licence now w).0 ≡ ok tm
      → Toggled w (save_and_finish m licence now w).1 tm
  unfolding save_and_finish finish pure
  save_and_finish-Toggled m licence now w tm one distinct found h =
      let a = bind-ok (save m licence now) finish w tm h in
      let v = (save m licence now w).1 in
      let b =
        bind-ok (invalidate x t) (λ _. pure a.value) v tm
          (Passes-ok (save m licence now) finish w a tm h) in
      let same : a.value ≡ tm = pure-ok a.value tm (invalidate x t v).1 (
        Passes-ok (invalidate x t) (λ _. pure a.value) v b tm
          (Passes-ok (save m licence now) finish w a tm h)) in
      record {
        m = m;
        one_module = one;
        before = v;
        saved = save-Saved m licence now w tm distinct found (a.first ∙ ap ok same);
        state = ap (λ o. o.1) (a.rest ∙ b.rest);
      }

  set_module-Toggled :
      (w : World) (tm : TenantModule)
      → DistinctIds w.db.tenant_modules
      → (set_module x t code enabled w).0 ≡ ok tm
      → Toggled w (set_module x t code enabled w).1 tm
  unfolding set_module save_and_finish save finish new_licence changed find_module find_licence gets
      lift ◌>>=◌
  set_module-Toggled w tm distinct h =
      let rest = λ (m : Module).
        find_licence x t m.id >>= λ licence. get_now >>= save_and_finish m licence in
      let a =
        bind-Reads (find_module x code)
          (λ found. or_raise found (app not_found "Module not in catalog") >>= rest) w tm h refl in
      let h1 =
        Reads-ok (find_module x code)
          (λ found. or_raise found (app not_found "Module not in catalog") >>= rest) w a tm h in
      let b =
        bind-Reads (or_raise a.value (app not_found "Module not in catalog")) rest w tm h1
          (or_raise_still _ _ w) in
      let h2 = Reads-ok (or_raise a.value (app not_found "Module not in catalog")) rest w b tm h1 in
      let c =
        bind-Reads (find_licence x t b.value.id)
          (λ licence. get_now >>= save_and_finish b.value licence) w tm h2 refl in
      let h3 =
        Reads-ok (find_licence x t b.value.id)
          (λ licence. get_now >>= save_and_finish b.value licence) w c tm h2 in
      let d = bind-Reads get_now (save_and_finish b.value c.value) w tm h3 (now_still w) in
      let h4 = Reads-ok get_now (save_and_finish b.value c.value) w d tm h3 in
      let there = (or_raise-ok a.value _ w b.value b.first).0 in
      let one =
        scalar_one_or_none-some (filter (has_code code) w.db.modules) b.value
          (a.first ∙ ap ok there) in
      rw (a.rest ∙ (b.rest ∙ (c.rest ∙ d.rest)))
        (save_and_finish-Toggled b.value c.value d.value w tm one distinct c.first h4)

  head_same : (a b : Module) → a ∷ [] ≡ b ∷ [] → a ≡ b
  head_same a b h = ground arith

  answer : (core exp on : Bool) → (core || (not exp && on || core)) ≡ (core || not exp && on)
  answer core exp on = ground arith

  -- Right after `set_module` has set a module of the catalogue for a tenant, the tenant has it exactly if it
  -- is a core module, or it was enabled, the module is active and the licence has not expired, whatever
  -- Redis held before; the rows of the licences have distinct ids and one module has the code.
  pub set_module_has :
      (w : World) (tm : TenantModule) (m : Module)
      → DistinctIds w.db.tenant_modules
      → filter (has_code code) w.db.modules ≡ m ∷ []
      → (set_module x t code enabled w).0 ≡ ok tm
      → (tenant_has_module x t code (set_module x t code enabled w).1).0
        ≡ ok (
            contains core_codes code
            || not (has_expired tm.expires_at w.now) && (enabled && m.is_active))
  set_module_has w tm m distinct one h =
      let g = set_module-Toggled w tm distinct h in
      let v = g.before in
      let same : g.m ≡ m = head_same _ _ (sym g.one_module ∙ one) in
      let said =
        enabled_one x t code g.m tm v.db v.now
          (ap (filter (has_code code)) g.saved.modules ∙ g.one_module) g.saved.licences in
      let at_once =
        ap (λ b. contains core_codes code || b) said
        ∙ answer (contains core_codes code) (has_expired tm.expires_at v.now)
            (tm.enabled && g.m.is_active) in
      let now = ap (has_expired tm.expires_at) g.saved.now_lem in
      let on = ap₂ ◌&&◌ g.saved.enabled_lem (ap (λ (n : Module). n.is_active) same) in
      rw (g.state) (
        tenant_has_module-invalidate x t code v
        ∙ ap ok (at_once ∙ ap₂ (λ e o. contains core_codes code || not e && o) now on))
