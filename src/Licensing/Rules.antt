-- ===== src/Licensing/Rules.antt =====
-- The licensing service under any relation that the writes of the repositories obey.
use lms_backend.Base.{String, Bool, any, Bool-cases, arith, inl, inr}
use lms_backend.Models.{Uuid, TenantModule, ModuleCode}
use lms_backend.Store.{World, case_option}
use lms_backend.Store.Relations.{Obeys}
use lms_backend.Database.Rules.{IsStoreRelation, store_rules}
use lms_backend.External.{External}
use lms_backend.Licensing.Service.{
  enabled_codes, tenant_has_module, invalidate, is_licence, find_module, find_licence, add_licence,
  update_licence, set_module, require_module,
}

module _ {R : World → World → Type 0} (s : IsStoreRelation R) (x : External) where
  pub Obeys-enabled_codes : (t : Uuid) → Obeys R (enabled_codes x t)
  unfolding enabled_codes case_option
  Obeys-enabled_codes t = record { at = λ w. s.aside w _ (ground arith) (ground arith) }

  Obeys-tenant_has_module : (t : Uuid) (c : String) → Obeys R (tenant_has_module x t c)
  unfolding tenant_has_module
  Obeys-tenant_has_module t c = search (store_rules, Obeys-enabled_codes)

  Obeys-invalidate : (t : Uuid) → Obeys R (invalidate x t)
  unfolding invalidate case_option
  Obeys-invalidate t = record { at = λ w. s.aside w _ (ground arith) (ground arith) }

  Obeys-find_module : (c : String) → Obeys R (find_module x c)
  unfolding find_module
  Obeys-find_module c = search store_rules

  Obeys-find_licence : (t m : Uuid) → Obeys R (find_licence x t m)
  unfolding find_licence
  Obeys-find_licence t m = search store_rules

  Obeys-add_licence : (tm : TenantModule) → Obeys R (add_licence x tm)
  unfolding add_licence
  Obeys-add_licence tm = record {
    at = λ w. elim (Bool-cases (any (is_licence x tm.tenant_id tm.module_id) w.db.tenant_modules)) [
      | inl e ↦ rw e (s.preorder.refl_lem w)
      | inr e ↦ rw e (s.licences w _)
    ];
  }

  Obeys-update_licence : (tm : TenantModule) → Obeys R (update_licence x tm)
  unfolding update_licence
  Obeys-update_licence tm = record { at = λ w. s.licences w _ }

  pub Obeys-set_module : (t : Uuid) (c : String) (e : Bool) → Obeys R (set_module x t c e)
  unfolding set_module
  Obeys-set_module t c e =
      search
        (
          store_rules, Obeys-find_module, Obeys-find_licence, Obeys-add_licence,
          Obeys-update_licence, Obeys-invalidate,
        )
        depth 20

  pub Obeys-require_module : (c : ModuleCode) → Obeys R (require_module x c)
  unfolding require_module
  Obeys-require_module c = search (store_rules, Obeys-tenant_has_module) depth 12
