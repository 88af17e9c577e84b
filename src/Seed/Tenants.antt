-- ===== src/Seed/Tenants.antt =====
-- `seed_tenant` and `_seed_user` of scripts/seed.py, which run in a session that bypasses row-level security.
use lms_backend.Base.{
  String, Bool, true, false, ◌&&◌, none, List, [], ◌∷◌, map, filter, ◌==◌, string_eq, nat_eq,
  if◌then◌else◌,
}
use Prim.Native.String.{◌++◌}
use lms_backend.Shared.Errors.{ok}
use lms_backend.Models.{
  Uuid, Tenant, User, Role, Permission, RoleCode, role_value, ModuleCode, module_value,
}
use lms_backend.Store.{
  Action, pure, gets, lift, get_now, uuid4, case_option, scalar_one_or_none, ◌>>=◌, ◌>>◌,
}
use lms_backend.Database.{add, flush, execute}
use lms_backend.Database.Tables.{user_model, role_model}
use lms_backend.External.{External}
use lms_backend.Security.{hash_password}
use lms_backend.Tenancy.{create_tenant_row}
use lms_backend.Admin.{enable_all}
use lms_backend.Seed.Catalog.{role_matrix}
use lms_backend.Seed.Script.{granted}

-- `ROLE_NAMES`
unfoldable pub role_name : RoleCode → String
role_name RoleCode.super_admin = "Super Admin"
role_name RoleCode.tenant_admin = "Tenant Admin"
role_name RoleCode.instructor = "Instructor"
role_name RoleCode.student = "Student"

-- the tenant of a slug, deleted or not, or a new one
unfoldable pub ensure_tenant : String → String → Action Tenant
ensure_tenant slug name = do
  rows ← gets (λ w. filter (λ (t : Tenant). t.slug == slug) w.db.tenants)
  found ← lift (scalar_one_or_none rows)
  case_option found (create_tenant_row name slug) pure

-- A user shows the roles that its row is joined with, so a change of a role is a change of what users show.
unfoldable pub show_role : Role → Action (Unit {0})
show_role role w = (
  ok tt,
  record w {
    db = record w.db {
      users =
          map
            (λ (u : User). record u {
              roles = map (λ (r : Role). if r.id == role.id then role else r) u.roles;
            })
            w.db.users;
    };
  },
)

-- one round of the loop over the roles
unfoldable pub seed_role : Uuid → List Permission → RoleCode → Action Role
unfolding granted role_matrix role_name show_role
seed_role tenant_id perms rc = do
  let permissions = granted perms (role_matrix rc)
  rows ← execute {Row = Role} (λ r. r.tenant_id == tenant_id && r.code == role_value rc)
  found ← lift (scalar_one_or_none rows)
  case_option found
      (do
        id ← uuid4
        add {Row = Role} (record {
          id = id;
          tenant_id = tenant_id;
          code = role_value rc;
          name = role_name rc;
          description = none;
          is_system = true;
          permissions = permissions;
        }))
      (λ old. do
        let role : Role = record old { permissions = permissions }
        flush {Row = Role} role
        show_role role
        pure role)

module _ (x : External) where
  unfoldable pub seed_user : Uuid → String → String → List Role → String → Bool → Action User
  seed_user tenant_id email full_name roles password is_superuser = do
    rows ← execute {Row = User} (λ u. u.tenant_id == tenant_id && u.email == email)
    found ← lift (scalar_one_or_none rows)
    case_option found
        (do
          hashed_password ← hash_password x password
          id ← uuid4
          now ← get_now
          add {Row = User} (record {
            id = id;
            tenant_id = tenant_id;
            email = email;
            hashed_password = hashed_password;
            full_name = full_name;
            is_active = true;
            is_verified = true;
            is_superuser = is_superuser;
            last_login_at = none;
            roles = roles;
            created_at = now;
            deleted_at = none;
          }))
        (λ old. do
          let user : User = record old { roles = roles }
          flush {Row = User} user
          pure user)

  -- The loop over the four roles is written out.
  unfoldable pub seed_tenant : String → String → List ModuleCode → List Permission → Action Tenant
  unfolding ensure_tenant seed_role seed_user
  seed_tenant slug name modules perms = do
    tenant ← ensure_tenant slug name
    enable_all x tenant.id (map module_value modules)
    super_admin ← seed_role tenant.id perms RoleCode.super_admin
    tenant_admin ← seed_role tenant.id perms RoleCode.tenant_admin
    instructor ← seed_role tenant.id perms RoleCode.instructor
    student ← seed_role tenant.id perms RoleCode.student
    let domain = slug ++ ".com"
    seed_user tenant.id ("admin@" ++ domain) "Tenant Admin" (tenant_admin ∷ []) "Admin123!" false
    seed_user tenant.id ("instructor@" ++ domain) "Jane Instructor" (instructor ∷ []) "Teach123!"
        false
    seed_user tenant.id ("student@" ++ domain) "Sam Student" (student ∷ []) "Learn123!" false
    (if slug == "full-lms"
        then (do
          seed_user tenant.id "root@platform.com" "Platform Root" (super_admin ∷ []) "Root123!" true
          pure tt)
        else pure tt)
    pure tenant
