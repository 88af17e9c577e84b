-- ===== src/Database/Tables/Identity.antt =====
-- User, Role and UserSession as instances of `Model`.
use lms_backend.Base.{refl, ◌≡◌, ◌||◌, none, some, List, ◌==◌, nat_eq, string_eq}
use lms_backend.Models.{Uuid, User, Role, UserSession}
use lms_backend.Store.{Db}
use lms_backend.Database.Policy.{others}
use lms_backend.Database.Constraints.{
  IsConsistent, Unique, user_clash, user_clash_comm, role_clash, role_clash_comm,
  user_session_clash, user_session_clash_comm,
}
use lms_backend.Database.Model.{Model, SoftDelete, SameOutside}

pub set_users-outside :
    (t : Uuid) (d : Db) (rows : List User)
    → others (λ (r : User). r.tenant_id) t d.users ≡ others (λ (r : User). r.tenant_id) t rows
    → SameOutside t d (record d { users = rows })
set_users-outside t d rows h = record {
  users = h;
  roles = refl;
  user_sessions = refl;
  courses = refl;
  course_enrollments = refl;
  lessons = refl;
  lesson_progress = refl;
  assignments = refl;
  submissions = refl;
  grades = refl;
}

pub set_users-IsConsistent :
    (d : Db) (rows : List User)
    → IsConsistent d
    → Unique (λ a b. a.id == b.id || user_clash a b) rows
    → IsConsistent (record d { users = rows })
set_users-IsConsistent d rows c h = record {
  users = h;
  roles = c.roles;
  user_sessions = c.user_sessions;
  courses = c.courses;
  course_enrollments = c.course_enrollments;
  lessons = c.lessons;
  lesson_progress = c.lesson_progress;
  assignments = c.assignments;
  submissions = c.submissions;
  grades = c.grades;
}

abbrev pub user_soft_delete : SoftDelete User (λ r. r.tenant_id)
user_soft_delete = record {
  deleted_at = λ r. r.deleted_at;
  mark = λ now r. record r { deleted_at = some now };
  tenant_id-mark = λ now r. refl;
}

instance abbrev pub user_model : Model User
user_model = record {
  name = "User not found";
  id = λ r. r.id;
  tenant_id = λ r. r.tenant_id;
  soft_delete = some user_soft_delete;
  unique_clash = user_clash;
  unique_clash_comm = user_clash_comm;
  table = λ d. d.users;
  set_table = λ d rows. record d { users = rows };
  table-set_table = λ d rows. refl;
  set_table-outside = set_users-outside;
  table-Unique = λ d c. c.users;
  set_table-IsConsistent = set_users-IsConsistent;
}

pub set_roles-outside :
    (t : Uuid) (d : Db) (rows : List Role)
    → others (λ (r : Role). r.tenant_id) t d.roles ≡ others (λ (r : Role). r.tenant_id) t rows
    → SameOutside t d (record d { roles = rows })
set_roles-outside t d rows h = record {
  users = refl;
  roles = h;
  user_sessions = refl;
  courses = refl;
  course_enrollments = refl;
  lessons = refl;
  lesson_progress = refl;
  assignments = refl;
  submissions = refl;
  grades = refl;
}

pub set_roles-IsConsistent :
    (d : Db) (rows : List Role)
    → IsConsistent d
    → Unique (λ a b. a.id == b.id || role_clash a b) rows
    → IsConsistent (record d { roles = rows })
set_roles-IsConsistent d rows c h = record {
  users = c.users;
  roles = h;
  user_sessions = c.user_sessions;
  courses = c.courses;
  course_enrollments = c.course_enrollments;
  lessons = c.lessons;
  lesson_progress = c.lesson_progress;
  assignments = c.assignments;
  submissions = c.submissions;
  grades = c.grades;
}

instance abbrev pub role_model : Model Role
role_model = record {
  name = "Role not found";
  id = λ r. r.id;
  tenant_id = λ r. r.tenant_id;
  soft_delete = none;
  unique_clash = role_clash;
  unique_clash_comm = role_clash_comm;
  table = λ d. d.roles;
  set_table = λ d rows. record d { roles = rows };
  table-set_table = λ d rows. refl;
  set_table-outside = set_roles-outside;
  table-Unique = λ d c. c.roles;
  set_table-IsConsistent = set_roles-IsConsistent;
}

pub set_user_sessions-outside :
    (t : Uuid) (d : Db) (rows : List UserSession)
    → others (λ (r : UserSession). r.tenant_id) t d.user_sessions
      ≡ others (λ (r : UserSession). r.tenant_id) t rows
    → SameOutside t d (record d { user_sessions = rows })
set_user_sessions-outside t d rows h = record {
  users = refl;
  roles = refl;
  user_sessions = h;
  courses = refl;
  course_enrollments = refl;
  lessons = refl;
  lesson_progress = refl;
  assignments = refl;
  submissions = refl;
  grades = refl;
}

pub set_user_sessions-IsConsistent :
    (d : Db) (rows : List UserSession)
    → IsConsistent d
    → Unique (λ a b. a.id == b.id || user_session_clash a b) rows
    → IsConsistent (record d { user_sessions = rows })
set_user_sessions-IsConsistent d rows c h = record {
  users = c.users;
  roles = c.roles;
  user_sessions = h;
  courses = c.courses;
  course_enrollments = c.course_enrollments;
  lessons = c.lessons;
  lesson_progress = c.lesson_progress;
  assignments = c.assignments;
  submissions = c.submissions;
  grades = c.grades;
}

instance abbrev pub user_session_model : Model UserSession
user_session_model = record {
  name = "UserSession not found";
  id = λ r. r.id;
  tenant_id = λ r. r.tenant_id;
  soft_delete = none;
  unique_clash = user_session_clash;
  unique_clash_comm = user_session_clash_comm;
  table = λ d. d.user_sessions;
  set_table = λ d rows. record d { user_sessions = rows };
  table-set_table = λ d rows. refl;
  set_table-outside = set_user_sessions-outside;
  table-Unique = λ d c. c.user_sessions;
  set_table-IsConsistent = set_user_sessions-IsConsistent;
}
