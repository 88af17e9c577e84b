-- ===== src/Tests/Seeds.antt =====
-- The properties of the seed script at small states.
use lms_backend.Base.{◌≡◌, ◌↔◌, refl, true, false, none, [], ◌∷◌, contains, string_eq}
use lms_backend.Shared.Errors.{ok}
use lms_backend.Models.{User, Role, RoleCode, module_value}
use lms_backend.Auth.Dependencies.{require_permission}
use lms_backend.Api.{get_reports}
use lms_backend.Seed.Catalog.{role_matrix}
use lms_backend.Seed.Script.{granted, seed_modules, seed_permissions}
use lms_backend.Seed.Modules.{module_codes, seed_modules_twice}
use lms_backend.Seed.Permissions.{permission_keys, seed_permissions_twice}
use lms_backend.Seed.Grants.{require_permission-seeded}
use lms_backend.Tests.Fixtures.{world}

seed_modules_twice_example :
    ((seed_modules world).0 ≡ ok tt)
    × ((contains (module_codes (seed_modules world).1) "ADMIN" ≡ true)
        × (seed_modules (seed_modules world).1 ≡ (ok tt, (seed_modules world).1)))
unfolding module_value
seed_modules_twice_example = seed_modules_twice "ADMIN" world

seed_permissions_twice_example :
    ((seed_permissions world).0 ≡ ok (seed_permissions world).1.db.permissions)
    × ((contains (permission_keys (seed_permissions world).1.db.permissions) "grade:write" ≡ true)
        × (seed_permissions (seed_permissions world).1
            ≡ (ok (seed_permissions world).1.db.permissions, (seed_permissions world).1)))
seed_permissions_twice_example = seed_permissions_twice "grade:write" world

abbrev instructor_role : Role
instructor_role = record {
  id = 31;
  tenant_id = 1;
  code = "instructor";
  name = "Instructor";
  description = none;
  is_system = true;
  permissions = granted (seed_permissions world).1.db.permissions (role_matrix RoleCode.instructor);
}

abbrev teacher : User
teacher = record {
  id = 30;
  tenant_id = 1;
  email = "t@x";
  hashed_password = "h";
  full_name = "Teacher";
  is_active = true;
  is_verified = true;
  is_superuser = false;
  last_login_at = none;
  roles = instructor_role ∷ [];
  created_at = 0;
  deleted_at = none;
}

require_permission-seeded_example :
    (require_permission ("report:read" ∷ []) teacher ≡ ok teacher) ↔ (true ≡ true)
require_permission-seeded_example =
    require_permission-seeded RoleCode.instructor get_reports teacher world
      (record { role = instructor_role; superuser = refl; roles = refl; permissions = refl })
