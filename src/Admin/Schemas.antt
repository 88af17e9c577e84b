-- ===== src/Admin/Schemas.antt =====
-- app/modules/admin/schemas.py. A number of points is a number of hundredths.
use lms_backend.Base.{ℤ, ℕ, String, Bool, Option, List}
use lms_backend.Models.{LessonType, ModuleCode}

pub record AdminLessonCreate : Type 0 where
  pub title : String
  pub content_type : LessonType
  pub content : Option String
  pub is_preview : Bool
  pub order_index : ℕ

pub record AdminAssignmentCreate : Type 0 where
  pub title : String
  pub description : Option String
  pub max_points : ℤ
  pub pass_points : ℤ
  pub due_at : Option String
  pub is_published : Bool

pub record AdminUserCreate : Type 0 where
  pub email : String
  pub password : String
  pub full_name : String
  pub role_codes : List String
  pub is_active : Bool

-- A field that the request leaves out is `none`; one that it sets to null is `some none`.
pub record AdminUserUpdate : Type 0 where
  pub full_name : Option (Option String)
  pub is_active : Option (Option Bool)
  pub role_codes : Option (List String)

pub record TenantCreate : Type 0 where
  pub name : String
  pub slug : String
  pub modules : List ModuleCode
  pub admin_email : String
  pub admin_password : String

pub record TenantModuleOut : Type 0 where
  pub code : String
  pub name : String
  pub enabled : Bool

-- The names of the active modules are sorted by the program; the model leaves them in any order.
pub record ReportOut : Type 0 where
  pub users : ℕ
  pub courses : ℕ
  pub enrollments : ℕ
  pub submissions : ℕ
  pub active_modules : List String
