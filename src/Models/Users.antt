-- ===== src/Models/Users.antt =====
-- app/modules/auth/models.py and the role codes of permissions.py. The relationships `User.roles`
-- and `Role.permissions` are held in the row, as the ORM loads them.
use mathlib.Core.List.{flat_map}
use lms_backend.Base.{String, Bool, Option, List, map, is_none}
use lms_backend.Models.Tenants.{Uuid, Time}

pub record Permission : Type 0 where
  pub id : Uuid
  pub code : String
  pub description : Option String

pub record Role : Type 0 where
  pub id : Uuid
  pub tenant_id : Uuid
  pub code : String
  pub name : String
  pub description : Option String
  pub is_system : Bool
  pub permissions : List Permission

pub data RoleCode : Type 0 where
  super_admin tenant_admin instructor student : RoleCode

unfoldable pub role_value : RoleCode → String
role_value super_admin = "super_admin"
role_value tenant_admin = "tenant_admin"
role_value instructor = "instructor"
role_value student = "student"

pub record User : Type 0 where
  pub id : Uuid
  pub tenant_id : Uuid
  pub email : String
  pub hashed_password : String
  pub full_name : String
  pub is_active : Bool
  pub is_verified : Bool
  pub is_superuser : Bool
  pub last_login_at : Option Time
  pub roles : List Role
  pub created_at : Time
  pub deleted_at : Option Time

-- The two properties are sets; the model lists their elements, perhaps more than once.
unfoldable pub permission_codes : User → List String
permission_codes u = flat_map (λ (r : Role). map (λ (p : Permission). p.code) r.permissions) u.roles

unfoldable pub role_codes : User → List String
role_codes u = map (λ (r : Role). r.code) u.roles

pub record UserSession : Type 0 where
  pub id : Uuid
  pub tenant_id : Uuid
  pub user_id : Uuid
  pub jti : Uuid
  pub user_agent : Option String
  pub ip_address : Option String
  pub expires_at : Time
  pub revoked_at : Option Time

-- `UserSession.is_active`
unfoldable pub session_is_active : UserSession → Bool
session_is_active s = is_none s.revoked_at
