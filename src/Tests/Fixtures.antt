-- ===== src/Tests/Fixtures.antt =====
-- Two tenants, a student and a course in each, one session, and the licences of the first tenant.
use lms_backend.Base.{pos, String, true, false, none, some, [], ◌∷◌, refl}
use lms_backend.Models.{
  Uuid, Tenant, IsolationMode, Module, TenantModule, User, Role, UserSession, Course, CourseStatus,
  CourseLevel, Lesson, LessonType,
}
use lms_backend.Store.{World, Db, RequestContext}
use lms_backend.Database.{Ordering, no_gucs}
use lms_backend.Database.Constraints.{IsConsistent}
use lms_backend.External.{TokenPayload}
use lms_backend.Api.{Queries}

abbrev pub any_order : {Row : Type 0} → Ordering Row
any_order = record { has_column = λ s. false; order_by = λ s desc rows. rows }

abbrev pub queries : Queries
queries = record {
  course_order = any_order;
  course_search = λ s c. true;
  lesson_order = any_order;
  assignment_order = any_order;
  submission_order = any_order;
  grade_order = any_order;
  user_order = any_order;
  user_search = λ s u. true;
  activity_order = any_order;
}

abbrev pub student_role : Role
student_role = record {
  id = 5;
  tenant_id = 1;
  code = "student";
  name = "Student";
  description = none;
  is_system = true;
  permissions = record { id = 6; code = "course:enroll"; description = none } ∷ [];
}

abbrev user_of_tenant : Uuid → Uuid → String → User
user_of_tenant id tenant email = record {
  id = id;
  tenant_id = tenant;
  email = email;
  hashed_password = "pw";
  full_name = "A student";
  is_active = true;
  is_verified = true;
  is_superuser = false;
  last_login_at = none;
  roles = student_role ∷ [];
  created_at = 0;
  deleted_at = none;
}

abbrev pub alice : User
alice = user_of_tenant 2 1 "a@x"

abbrev bob : User
bob = user_of_tenant 3 2 "a@x"

abbrev course_of_tenant : Uuid → Uuid → Course
course_of_tenant id tenant = record {
  id = id;
  tenant_id = tenant;
  title = "Logic";
  slug = "logic";
  summary = none;
  description = none;
  category_id = none;
  status = CourseStatus.published;
  level = CourseLevel.beginner;
  is_free = true;
  price = pos 0;
  thumbnail_url = none;
  enrollment_count = 0;
  published_at = some 1;
  created_at = 0;
  deleted_at = none;
}

abbrev pub logic : Course
logic = course_of_tenant 4 1

abbrev pub first_lesson : Lesson
first_lesson = record {
  id = 9;
  tenant_id = 1;
  course_id = 4;
  module_id = none;
  title = "Modus ponens";
  content_type = LessonType.text;
  content = none;
  order_index = 0;
  duration_seconds = 0;
  is_preview = false;
  deleted_at = none;
}

abbrev pub session : UserSession
session = record {
  id = 7;
  tenant_id = 1;
  user_id = 2;
  jti = 1;
  user_agent = none;
  ip_address = none;
  expires_at = 9;
  revoked_at = none;
}

abbrev pub courses_licence : TenantModule
courses_licence = record {
  id = 1;
  tenant_id = 1;
  module_id = 1;
  enabled = true;
  enabled_at = some 0;
  expires_at = none;
}

abbrev pub courses_module : Module
courses_module = record {
  id = 1;
  code = "COURSES";
  name = "Courses";
  description = none;
  is_active = true;
  is_core = false;
}

abbrev pub acme : Tenant
acme = record {
  id = 1;
  name = "Acme";
  slug = "acme";
  is_active = true;
  isolation_mode = IsolationMode.shared;
  created_at = 0;
  deleted_at = none;
}

abbrev pub tables : Db
tables = record {
  tenants = acme ∷ [];
  modules = courses_module ∷ [];
  tenant_modules = courses_licence ∷ [];
  users = alice ∷ bob ∷ [];
  roles = student_role ∷ [];
  user_sessions = session ∷ [];
  courses = logic ∷ course_of_tenant 5 2 ∷ [];
  course_enrollments = [];
  lessons = first_lesson ∷ [];
  lesson_progress = [];
  assignments = [];
  submissions = [];
  grades = [];
  permissions = [];
}

pub tables-IsConsistent : IsConsistent tables
tables-IsConsistent = record {
  users = (refl, (refl, tt));
  roles = (refl, tt);
  user_sessions = (refl, tt);
  courses = (refl, (refl, tt));
  course_enrollments = tt;
  lessons = (refl, tt);
  lesson_progress = tt;
  assignments = tt;
  submissions = tt;
  grades = tt;
}

abbrev pub context : RequestContext
context = record {
  request_id = "r";
  tenant_id = some 1;
  user_id = none;
  roles = [];
  permissions = [];
  ip_address = none;
  is_superadmin = false;
}

-- the state in which a request of the first tenant begins, at time 3
abbrev pub world : World
world = record {
  settings = record {
    environment = "test";
    debug = false;
    redis_url = none;
    database_url = "postgresql+asyncpg://localhost/lms";
    database_sync_url = none;
    cors_origins = "http://a, http://b";
    jwt_secret_key = "k";
    access_token_ttl_seconds = 2;
    refresh_token_ttl_seconds = 4;
    password_reset_ttl_seconds = 2;
    rate_limit_enabled = false;
    rate_limit_default = "100/minute";
    rate_limit_auth = "10/minute";
    enable_row_level_security = true;
  };
  ctx = some context;
  gucs = no_gucs;
  db = tables;
  audit_logs = [];
  now = 3;
  next_id = 20;
  redis = none;
  reset_store = [];
}

-- the same within the request's transaction
abbrev pub scoped : World
scoped = record world { gucs = record { tenant_id = some 1; bypass_rls = false } }

abbrev pub access_claims : TokenPayload
access_claims = record { sub = 2; tid = 1; type = "access"; jti = 0; exp = 5; iat = 3 }

abbrev pub refresh_claims : TokenPayload
refresh_claims = record { sub = 2; tid = 1; type = "refresh"; jti = 1; exp = 7; iat = 3 }
