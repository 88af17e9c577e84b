-- ===== src/Models/Tenants.antt =====
-- app/core/tenancy/models.py, app/core/licensing/models.py and constants.py. An id is a number, and
-- so is a point in time, in seconds. `updated_at`, `settings` and `schema_name`, which no code reads,
-- are left out.
use lms_backend.Base.{ℕ, String, Bool, Option}

abbrev pub Uuid : Type 0
Uuid = ℕ

abbrev pub Time : Type 0
Time = ℕ

pub data IsolationMode : Type 0 where
  shared schema database : IsolationMode

pub record Tenant : Type 0 where
  pub id : Uuid
  pub name : String
  pub slug : String
  pub is_active : Bool
  pub isolation_mode : IsolationMode
  pub created_at : Time
  pub deleted_at : Option Time

pub data ModuleCode : Type 0 where
  auth courses learning assignments dashboard admin : ModuleCode

-- `ModuleCode.X.value`
unfoldable pub module_value : ModuleCode → String
module_value auth = "AUTH"
module_value courses = "COURSES"
module_value learning = "LEARNING"
module_value assignments = "ASSIGNMENTS"
module_value dashboard = "DASHBOARD"
module_value admin = "ADMIN"

pub record Module : Type 0 where
  pub id : Uuid
  pub code : String
  pub name : String
  pub description : Option String
  pub is_active : Bool
  pub is_core : Bool

pub record TenantModule : Type 0 where
  pub id : Uuid
  pub tenant_id : Uuid
  pub module_id : Uuid
  pub enabled : Bool
  pub enabled_at : Option Time
  pub expires_at : Option Time
