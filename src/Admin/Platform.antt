-- ===== src/Admin/Platform.antt =====
-- The administration of tenants keeps the unique constraints, in sessions that no policy confines.
use lms_backend.Base.{String, Bool, true, List, [], ◌∷◌}
use lms_backend.Models.{Uuid, ModuleCode}
use lms_backend.Store.Relations.{Obeys, Obeys-bind}
use lms_backend.Database.Rules.{consistent_store, store_rules}
use lms_backend.Database.Consistent.{KeepsConsistent}
use lms_backend.Database.Sessions.{tenant_session-KeepsConsistent}
use lms_backend.External.{External}
use lms_backend.Security.{security_rules}
use lms_backend.Licensing.{set_module}
use lms_backend.Licensing.Rules.{Obeys-set_module, Obeys-enabled_codes}
use lms_backend.Tenancy.{resolve_tenant_id}
use lms_backend.Tenancy.Rules.{tenancy_rules}
use lms_backend.Admin.Schemas.{TenantCreate}
use lms_backend.Admin.Tenants.{
  enable_all, create_tenant, list_modules, list_tenants, set_tenant_module,
}

module _ (x : External) where
  pub resolve_tenant_id-KeepsConsistent :
      (name : String) → Obeys KeepsConsistent (resolve_tenant_id x name)
  unfolding resolve_tenant_id
  resolve_tenant_id-KeepsConsistent name =
      search (store_rules, consistent_store, tenancy_rules, tenant_session-KeepsConsistent) depth 12

  enable_all-KeepsConsistent :
      (t : Uuid) (codes : List String) → Obeys KeepsConsistent (enable_all x t codes)
  unfolding enable_all
  enable_all-KeepsConsistent t [] = search (store_rules, consistent_store)
  enable_all-KeepsConsistent t (c ∷ codes) =
      Obeys-bind consistent_store.preorder (set_module x t c true) _
        (Obeys-set_module consistent_store x t c true) (λ _. enable_all-KeepsConsistent t codes)

  pub create_tenant-KeepsConsistent : (r : TenantCreate) → Obeys KeepsConsistent (create_tenant x r)
  unfolding create_tenant
  create_tenant-KeepsConsistent r =
      search
        (
          security_rules, consistent_store, tenancy_rules, tenant_session-KeepsConsistent,
          enable_all-KeepsConsistent,
        )
        depth 20

  pub list_modules-KeepsConsistent : (t : Uuid) → Obeys KeepsConsistent (list_modules x t)
  unfolding list_modules
  list_modules-KeepsConsistent t =
      search (store_rules, consistent_store, Obeys-enabled_codes, tenant_session-KeepsConsistent)
        depth 12

  pub list_tenants-KeepsConsistent : Obeys KeepsConsistent (list_tenants x)
  unfolding list_tenants
  list_tenants-KeepsConsistent =
      search (store_rules, consistent_store, tenancy_rules, tenant_session-KeepsConsistent)

  pub set_tenant_module-KeepsConsistent :
      (t : Uuid) (code : ModuleCode) (enabled : Bool)
      → Obeys KeepsConsistent (set_tenant_module x t code enabled)
  unfolding set_tenant_module
  set_tenant_module-KeepsConsistent t code enabled =
      search
        (
          store_rules, consistent_store, tenancy_rules, tenant_session-KeepsConsistent,
          Obeys-set_module,
        )
        depth 20

pub ruleset platform_rules = (
  resolve_tenant_id-KeepsConsistent, create_tenant-KeepsConsistent, list_modules-KeepsConsistent,
  list_tenants-KeepsConsistent, set_tenant_module-KeepsConsistent,
)
