-- ===== src/Database/Tables/Learning.antt =====
-- Lesson and LessonProgress as instances of `Model`.
use lms_backend.Base.{refl, ◌≡◌, ◌||◌, none, some, List, ◌==◌, nat_eq, string_eq}
use lms_backend.Models.{Uuid, Lesson, LessonProgress}
use lms_backend.Store.{Db}
use lms_backend.Database.Policy.{others}
use lms_backend.Database.Constraints.{
  IsConsistent, Unique, lesson_clash, lesson_clash_comm, lesson_progress_clash,
  lesson_progress_clash_comm,
}
use lms_backend.Database.Model.{Model, SoftDelete, SameOutside}

pub set_lessons-outside :
    (t : Uuid) (d : Db) (rows : List Lesson)
    → others (λ (r : Lesson). r.tenant_id) t d.lessons ≡ others (λ (r : Lesson). r.tenant_id) t rows
    → SameOutside t d (record d { lessons = rows })
set_lessons-outside t d rows h = record {
  users = refl;
  roles = refl;
  user_sessions = refl;
  courses = refl;
  course_enrollments = refl;
  lessons = h;
  lesson_progress = refl;
  assignments = refl;
  submissions = refl;
  grades = refl;
}

pub set_lessons-IsConsistent :
    (d : Db) (rows : List Lesson)
    → IsConsistent d
    → Unique (λ a b. a.id == b.id || lesson_clash a b) rows
    → IsConsistent (record d { lessons = rows })
set_lessons-IsConsistent d rows c h = record {
  users = c.users;
  roles = c.roles;
  user_sessions = c.user_sessions;
  courses = c.courses;
  course_enrollments = c.course_enrollments;
  lessons = h;
  lesson_progress = c.lesson_progress;
  assignments = c.assignments;
  submissions = c.submissions;
  grades = c.grades;
}

abbrev pub lesson_soft_delete : SoftDelete Lesson (λ r. r.tenant_id)
lesson_soft_delete = record {
  deleted_at = λ r. r.deleted_at;
  mark = λ now r. record r { deleted_at = some now };
  tenant_id-mark = λ now r. refl;
}

instance abbrev pub lesson_model : Model Lesson
lesson_model = record {
  name = "Lesson not found";
  id = λ r. r.id;
  tenant_id = λ r. r.tenant_id;
  soft_delete = some lesson_soft_delete;
  unique_clash = lesson_clash;
  unique_clash_comm = lesson_clash_comm;
  table = λ d. d.lessons;
  set_table = λ d rows. record d { lessons = rows };
  table-set_table = λ d rows. refl;
  set_table-outside = set_lessons-outside;
  table-Unique = λ d c. c.lessons;
  set_table-IsConsistent = set_lessons-IsConsistent;
}

pub set_lesson_progress-outside :
    (t : Uuid) (d : Db) (rows : List LessonProgress)
    → others (λ (r : LessonProgress). r.tenant_id) t d.lesson_progress
      ≡ others (λ (r : LessonProgress). r.tenant_id) t rows
    → SameOutside t d (record d { lesson_progress = rows })
set_lesson_progress-outside t d rows h = record {
  users = refl;
  roles = refl;
  user_sessions = refl;
  courses = refl;
  course_enrollments = refl;
  lessons = refl;
  lesson_progress = h;
  assignments = refl;
  submissions = refl;
  grades = refl;
}

pub set_lesson_progress-IsConsistent :
    (d : Db) (rows : List LessonProgress)
    → IsConsistent d
    → Unique (λ a b. a.id == b.id || lesson_progress_clash a b) rows
    → IsConsistent (record d { lesson_progress = rows })
set_lesson_progress-IsConsistent d rows c h = record {
  users = c.users;
  roles = c.roles;
  user_sessions = c.user_sessions;
  courses = c.courses;
  course_enrollments = c.course_enrollments;
  lessons = c.lessons;
  lesson_progress = h;
  assignments = c.assignments;
  submissions = c.submissions;
  grades = c.grades;
}

instance abbrev pub lesson_progress_model : Model LessonProgress
lesson_progress_model = record {
  name = "LessonProgress not found";
  id = λ r. r.id;
  tenant_id = λ r. r.tenant_id;
  soft_delete = none;
  unique_clash = lesson_progress_clash;
  unique_clash_comm = lesson_progress_clash_comm;
  table = λ d. d.lesson_progress;
  set_table = λ d rows. record d { lesson_progress = rows };
  table-set_table = λ d rows. refl;
  set_table-outside = set_lesson_progress-outside;
  table-Unique = λ d c. c.lesson_progress;
  set_table-IsConsistent = set_lesson_progress-IsConsistent;
}
