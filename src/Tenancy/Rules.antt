-- ===== src/Tenancy/Rules.antt =====
-- The methods on tenants under any relation that the writes of the repositories obey.
use lms_backend.Base.{String, ◌||◌, Bool-cases, inl, inr, any, ◌==◌, nat_eq, string_eq, arith}
use lms_backend.Models.{Uuid, Tenant}
use lms_backend.Store.{World, case_option}
use lms_backend.Store.Relations.{Obeys}
use lms_backend.Database.Rules.{IsStoreRelation, store_rules}
use lms_backend.External.{External}
use lms_backend.Tenancy.{
  get_tenant, get_by_slug, add_tenant, create_tenant_row, list_all, read_slug, write_slug, look_up,
}

module _ {R : World → World → Type 0} (s : IsStoreRelation R) where
  pub Obeys-get_tenant : (t : Uuid) → Obeys R (get_tenant t)
  unfolding get_tenant
  Obeys-get_tenant t = search store_rules

  pub Obeys-get_by_slug : (slug : String) → Obeys R (get_by_slug slug)
  unfolding get_by_slug
  Obeys-get_by_slug slug = search store_rules

  Obeys-add_tenant : (t : Tenant) → Obeys R (add_tenant t)
  unfolding add_tenant
  Obeys-add_tenant t = record {
    at = λ w.
        elim (Bool-cases (any (λ (r : Tenant). t.id == r.id || t.slug == r.slug) w.db.tenants)) [
          | inl e ↦ rw e (s.preorder.refl_lem w)
          | inr e ↦ rw e (s.tenants w _)
        ];
  }

  pub Obeys-create_tenant_row : (name slug : String) → Obeys R (create_tenant_row name slug)
  unfolding create_tenant_row
  Obeys-create_tenant_row name slug = search (store_rules, Obeys-add_tenant)

  pub Obeys-list_all : Obeys R list_all
  unfolding list_all
  Obeys-list_all = search store_rules

  module _ (x : External) where
    pub Obeys-read_slug : (slug : String) → Obeys R (read_slug x slug)
    unfolding read_slug
    Obeys-read_slug slug = record { at = λ w. s.preorder.refl_lem w }

    Obeys-write_slug : (slug : String) (t : Uuid) → Obeys R (write_slug x slug t)
    unfolding write_slug case_option
    Obeys-write_slug slug t = record { at = λ w. s.aside w _ (ground arith) (ground arith) }

    pub Obeys-look_up : (slug : String) → Obeys R (look_up x slug)
    unfolding look_up
    Obeys-look_up slug = search (store_rules, Obeys-get_by_slug, Obeys-write_slug) depth 12

pub ruleset tenancy_rules = (
  Obeys-get_tenant, Obeys-get_by_slug, Obeys-create_tenant_row, Obeys-list_all, Obeys-read_slug,
  Obeys-look_up,
)
