-- ===== src/Store/Worlds.antt =====
-- app/core/context.py, the tables of the database, and the other state of the process.
use lms_backend.Base.{ℕ, String, Bool, Option, List}
use lms_backend.Models.{
  Uuid, Time, Tenant, Module, TenantModule, User, Role, Permission, UserSession, Course,
  CourseEnrollment, Lesson, LessonProgress, Assignment, Submission, Grade, AuditLog,
}

pub record RequestContext : Type 0 where
  pub request_id : String
  pub tenant_id : Option Uuid
  pub user_id : Option Uuid
  pub roles : List String
  pub permissions : List String
  pub ip_address : Option String
  pub is_superadmin : Bool

-- The transaction-local settings `app.tenant_id` and `app.bypass_rls`, which the policies read.
pub record Gucs : Type 0 where
  pub tenant_id : Option Uuid
  pub bypass_rls : Bool

-- The rows of each table, in the order of insertion.
pub record Db : Type 0 where
  pub tenants : List Tenant
  pub modules : List Module
  pub tenant_modules : List TenantModule
  pub users : List User
  pub roles : List Role
  pub user_sessions : List UserSession
  pub courses : List Course
  pub course_enrollments : List CourseEnrollment
  pub lessons : List Lesson
  pub lesson_progress : List LessonProgress
  pub assignments : List Assignment
  pub submissions : List Submission
  pub grades : List Grade
  pub permissions : List Permission

-- The keys of the program in Redis: a prefix, and what follows it.
pub data Key : Type 0 where
  enabled_modules : Uuid → Key
  tenant_slug : String → Key
  password_reset : String → Key
  rate_limit : String → String → Key

-- What the program stores there. The text "tenant:user" of a reset token is kept as the pair.
pub data CacheValue : Type 0 where
  codes : List String → CacheValue
  tenant : Uuid → CacheValue
  reset : Uuid → Uuid → CacheValue

-- A command that changes what Redis holds, with the time at which it was given.
pub data RedisCommand : Type 0 where
  set : Time → Key → CacheValue → ℕ → RedisCommand
  delete : Time → Key → RedisCommand
  incr : Time → Key → RedisCommand
  expire : Time → Key → ℕ → RedisCommand

-- An entry of `_reset_store`.
pub record ResetEntry : Type 0 where
  pub token : String
  pub tenant_part : Uuid
  pub user_part : Uuid
  pub expires : Time

-- `Settings` of app/core/config.py: what the modelled code reads.
pub record Settings : Type 0 where
  pub environment : String
  pub debug : Bool
  pub redis_url : Option String
  pub database_url : String
  pub database_sync_url : Option String
  pub cors_origins : String
  pub jwt_secret_key : String
  pub access_token_ttl_seconds : ℕ
  pub refresh_token_ttl_seconds : ℕ
  pub password_reset_ttl_seconds : ℕ
  pub rate_limit_enabled : Bool
  pub rate_limit_default : String
  pub rate_limit_auth : String
  pub enable_row_level_security : Bool

pub record World : Type 0 where
  pub settings : Settings
  pub ctx : Option RequestContext
  pub gucs : Gucs
  pub db : Db
  -- written in transactions of their own, so outside `db`
  pub audit_logs : List AuditLog
  pub now : Time
  -- the next value of `uuid.uuid4()`
  pub next_id : Uuid
  -- the commands given so far, the last one first; `none` if REDIS_URL is not set
  pub redis : Option (List RedisCommand)
  pub reset_store : List ResetEntry
