-- ===== src/Database/Tables/Catalog.antt =====
-- Course and CourseEnrollment as instances of `Model`.
use lms_backend.Base.{refl, ◌≡◌, ◌||◌, none, some, List, ◌==◌, nat_eq, string_eq}
use lms_backend.Models.{Uuid, Course, CourseEnrollment}
use lms_backend.Store.{Db}
use lms_backend.Database.Policy.{others}
use lms_backend.Database.Constraints.{
  IsConsistent, Unique, course_clash, course_clash_comm, course_enrollment_clash,
  course_enrollment_clash_comm,
}
use lms_backend.Database.Model.{Model, SoftDelete, SameOutside}

pub set_courses-outside :
    (t : Uuid) (d : Db) (rows : List Course)
    → others (λ (r : Course). r.tenant_id) t d.courses ≡ others (λ (r : Course). r.tenant_id) t rows
    → SameOutside t d (record d { courses = rows })
set_courses-outside t d rows h = record {
  users = refl;
  roles = refl;
  user_sessions = refl;
  courses = h;
  course_enrollments = refl;
  lessons = refl;
  lesson_progress = refl;
  assignments = refl;
  submissions = refl;
  grades = refl;
}

pub set_courses-IsConsistent :
    (d : Db) (rows : List Course)
    → IsConsistent d
    → Unique (λ a b. a.id == b.id || course_clash a b) rows
    → IsConsistent (record d { courses = rows })
set_courses-IsConsistent d rows c h = record {
  users = c.users;
  roles = c.roles;
  user_sessions = c.user_sessions;
  courses = h;
  course_enrollments = c.course_enrollments;
  lessons = c.lessons;
  lesson_progress = c.lesson_progress;
  assignments = c.assignments;
  submissions = c.submissions;
  grades = c.grades;
}

abbrev pub course_soft_delete : SoftDelete Course (λ r. r.tenant_id)
course_soft_delete = record {
  deleted_at = λ r. r.deleted_at;
  mark = λ now r. record r { deleted_at = some now };
  tenant_id-mark = λ now r. refl;
}

instance abbrev pub course_model : Model Course
course_model = record {
  name = "Course not found";
  id = λ r. r.id;
  tenant_id = λ r. r.tenant_id;
  soft_delete = some course_soft_delete;
  unique_clash = course_clash;
  unique_clash_comm = course_clash_comm;
  table = λ d. d.courses;
  set_table = λ d rows. record d { courses = rows };
  table-set_table = λ d rows. refl;
  set_table-outside = set_courses-outside;
  table-Unique = λ d c. c.courses;
  set_table-IsConsistent = set_courses-IsConsistent;
}

pub set_course_enrollments-outside :
    (t : Uuid) (d : Db) (rows : List CourseEnrollment)
    → others (λ (r : CourseEnrollment). r.tenant_id) t d.course_enrollments
      ≡ others (λ (r : CourseEnrollment). r.tenant_id) t rows
    → SameOutside t d (record d { course_enrollments = rows })
set_course_enrollments-outside t d rows h = record {
  users = refl;
  roles = refl;
  user_sessions = refl;
  courses = refl;
  course_enrollments = h;
  lessons = refl;
  lesson_progress = refl;
  assignments = refl;
  submissions = refl;
  grades = refl;
}

pub set_course_enrollments-IsConsistent :
    (d : Db) (rows : List CourseEnrollment)
    → IsConsistent d
    → Unique (λ a b. a.id == b.id || course_enrollment_clash a b) rows
    → IsConsistent (record d { course_enrollments = rows })
set_course_enrollments-IsConsistent d rows c h = record {
  users = c.users;
  roles = c.roles;
  user_sessions = c.user_sessions;
  courses = c.courses;
  course_enrollments = h;
  lessons = c.lessons;
  lesson_progress = c.lesson_progress;
  assignments = c.assignments;
  submissions = c.submissions;
  grades = c.grades;
}

instance abbrev pub course_enrollment_model : Model CourseEnrollment
course_enrollment_model = record {
  name = "CourseEnrollment not found";
  id = λ r. r.id;
  tenant_id = λ r. r.tenant_id;
  soft_delete = none;
  unique_clash = course_enrollment_clash;
  unique_clash_comm = course_enrollment_clash_comm;
  table = λ d. d.course_enrollments;
  set_table = λ d rows. record d { course_enrollments = rows };
  table-set_table = λ d rows. refl;
  set_table-outside = set_course_enrollments-outside;
  table-Unique = λ d c. c.course_enrollments;
  set_table-IsConsistent = set_course_enrollments-IsConsistent;
}
