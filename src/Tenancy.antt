-- ===== src/Tenancy.antt =====
-- `TenantService` and `resolve_tenant_id` of app/core/tenancy/service.py. The table `tenants` is under no
-- policy; its settings are left out.
use lms_backend.Base.{
  ℕ, String, Bool, true, false, not, ◌&&◌, ◌||◌, Option, none, some, List, [], ◌∷◌, ◌++◌, filter,
  any, ◌==◌, nat_eq, string_eq, is_none, if◌then◌else◌,
}
use lms_backend.Shared.Errors.{ok, err, app, not_found, integrity_error}
use lms_backend.Models.{Uuid, Tenant, IsolationMode}
use lms_backend.Store.{
  World, Action, Key, CacheValue, RedisCommand, set, tenant_slug, tenant, pure, lift, gets, get_now,
  uuid4, or_raise, case_option, scalar_one_or_none, ◌>>=◌, ◌>>◌,
}
use lms_backend.Database.Sessions.{tenant_session}
use lms_backend.External.{External}
pub mod Resolution
pub mod Rules

-- `session.get(Tenant, tenant_id)`, which finds a deleted tenant too
unfoldable pub get_tenant : Uuid → Action (Option Tenant)
get_tenant tenant_id = do
  rows ← gets (λ w. filter (λ (t : Tenant). t.id == tenant_id) w.db.tenants)
  lift (scalar_one_or_none rows)

abbrev pub has_slug : String → Tenant → Bool
has_slug slug t = t.slug == slug && is_none t.deleted_at

unfoldable pub get_by_slug : String → Action (Option Tenant)
get_by_slug slug = do
  rows ← gets (λ w. filter (has_slug slug) w.db.tenants)
  lift (scalar_one_or_none rows)

unfoldable pub get_tenant_or_404 : Uuid → Action Tenant
get_tenant_or_404 tenant_id = do
  t ← get_tenant tenant_id
  or_raise t (app not_found "Tenant not found")

-- the INSERT of a row of `tenants`
unfoldable pub add_tenant : Tenant → Action Tenant
add_tenant t w =
    if any (λ (r : Tenant). t.id == r.id || t.slug == r.slug) w.db.tenants
    then (err integrity_error, w)
    else (ok t, record w { db = record w.db { tenants = w.db.tenants ++ t ∷ [] } })

unfoldable pub create_tenant_row : String → String → Action Tenant
create_tenant_row name slug = do
  id ← uuid4
  now ← get_now
  add_tenant (record {
    id = id;
    name = name;
    slug = slug;
    is_active = true;
    isolation_mode = IsolationMode.shared;
    created_at = now;
    deleted_at = none;
  })

unfoldable pub list_all : Action (List Tenant)
list_all = gets (λ w. filter (λ (t : Tenant). is_none t.deleted_at) w.db.tenants)

abbrev pub slug_ttl : ℕ
slug_ttl = 300

abbrev pub cached_tenant : Option CacheValue → Option Uuid
cached_tenant (some (tenant t)) = some t
cached_tenant _ = none

module _ (x : External) where
  -- `redis.get`, where there is a Redis
  unfoldable pub read_slug : String → Action (Option Uuid)
  read_slug slug w = (
    ok (case_option w.redis none (λ log. cached_tenant (x.redis_get log w.now (tenant_slug slug)))),
    w,
  )

  unfoldable pub write_slug : String → Uuid → Action (Unit {0})
  write_slug slug t w =
      case_option w.redis (ok tt, w)
        (λ log. (
          ok tt,
          record w { redis = some (set w.now (tenant_slug slug) (tenant t) slug_ttl ∷ log) },
        ))

  -- the part within the session
  unfoldable pub look_up : String → Action (Option Uuid)
  look_up slug = do
    found ← get_by_slug slug
    case_option found (pure none)
        (λ t. if not t.is_active then pure none else do write_slug slug t.id; pure (some t.id))

  unfoldable pub resolve_tenant_id : String → Action (Option Uuid)
  resolve_tenant_id identifier =
      case_option (x.parse_uuid identifier)
        (do
          cached ← read_slug identifier
          case_option cached (tenant_session none true (look_up identifier)) (λ t. pure (some t)))
        (λ t. pure (some t))
