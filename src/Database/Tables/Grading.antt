-- ===== src/Database/Tables/Grading.antt =====
-- Assignment, Submission and Grade as instances of `Model`.
use lms_backend.Base.{refl, ◌≡◌, ◌||◌, none, some, List, ◌==◌, nat_eq, string_eq}
use lms_backend.Models.{Uuid, Assignment, Submission, Grade}
use lms_backend.Store.{Db}
use lms_backend.Database.Policy.{others}
use lms_backend.Database.Constraints.{
  IsConsistent, Unique, assignment_clash, assignment_clash_comm, submission_clash,
  submission_clash_comm, grade_clash, grade_clash_comm,
}
use lms_backend.Database.Model.{Model, SoftDelete, SameOutside}

pub set_assignments-outside :
    (t : Uuid) (d : Db) (rows : List Assignment)
    → others (λ (r : Assignment). r.tenant_id) t d.assignments
      ≡ others (λ (r : Assignment). r.tenant_id) t rows
    → SameOutside t d (record d { assignments = rows })
set_assignments-outside t d rows h = record {
  users = refl;
  roles = refl;
  user_sessions = refl;
  courses = refl;
  course_enrollments = refl;
  lessons = refl;
  lesson_progress = refl;
  assignments = h;
  submissions = refl;
  grades = refl;
}

pub set_assignments-IsConsistent :
    (d : Db) (rows : List Assignment)
    → IsConsistent d
    → Unique (λ a b. a.id == b.id || assignment_clash a b) rows
    → IsConsistent (record d { assignments = rows })
set_assignments-IsConsistent d rows c h = record {
  users = c.users;
  roles = c.roles;
  user_sessions = c.user_sessions;
  courses = c.courses;
  course_enrollments = c.course_enrollments;
  lessons = c.lessons;
  lesson_progress = c.lesson_progress;
  assignments = h;
  submissions = c.submissions;
  grades = c.grades;
}

abbrev pub assignment_soft_delete : SoftDelete Assignment (λ r. r.tenant_id)
assignment_soft_delete = record {
  deleted_at = λ r. r.deleted_at;
  mark = λ now r. record r { deleted_at = some now };
  tenant_id-mark = λ now r. refl;
}

instance abbrev pub assignment_model : Model Assignment
assignment_model = record {
  name = "Assignment not found";
  id = λ r. r.id;
  tenant_id = λ r. r.tenant_id;
  soft_delete = some assignment_soft_delete;
  unique_clash = assignment_clash;
  unique_clash_comm = assignment_clash_comm;
  table = λ d. d.assignments;
  set_table = λ d rows. record d { assignments = rows };
  table-set_table = λ d rows. refl;
  set_table-outside = set_assignments-outside;
  table-Unique = λ d c. c.assignments;
  set_table-IsConsistent = set_assignments-IsConsistent;
}

pub set_submissions-outside :
    (t : Uuid) (d : Db) (rows : List Submission)
    → others (λ (r : Submission). r.tenant_id) t d.submissions
      ≡ others (λ (r : Submission). r.tenant_id) t rows
    → SameOutside t d (record d { submissions = rows })
set_submissions-outside t d rows h = record {
  users = refl;
  roles = refl;
  user_sessions = refl;
  courses = refl;
  course_enrollments = refl;
  lessons = refl;
  lesson_progress = refl;
  assignments = refl;
  submissions = h;
  grades = refl;
}

pub set_submissions-IsConsistent :
    (d : Db) (rows : List Submission)
    → IsConsistent d
    → Unique (λ a b. a.id == b.id || submission_clash a b) rows
    → IsConsistent (record d { submissions = rows })
set_submissions-IsConsistent d rows c h = record {
  users = c.users;
  roles = c.roles;
  user_sessions = c.user_sessions;
  courses = c.courses;
  course_enrollments = c.course_enrollments;
  lessons = c.lessons;
  lesson_progress = c.lesson_progress;
  assignments = c.assignments;
  submissions = h;
  grades = c.grades;
}

instance abbrev pub submission_model : Model Submission
submission_model = record {
  name = "Submission not found";
  id = λ r. r.id;
  tenant_id = λ r. r.tenant_id;
  soft_delete = none;
  unique_clash = submission_clash;
  unique_clash_comm = submission_clash_comm;
  table = λ d. d.submissions;
  set_table = λ d rows. record d { submissions = rows };
  table-set_table = λ d rows. refl;
  set_table-outside = set_submissions-outside;
  table-Unique = λ d c. c.submissions;
  set_table-IsConsistent = set_submissions-IsConsistent;
}

pub set_grades-outside :
    (t : Uuid) (d : Db) (rows : List Grade)
    → others (λ (r : Grade). r.tenant_id) t d.grades ≡ others (λ (r : Grade). r.tenant_id) t rows
    → SameOutside t d (record d { grades = rows })
set_grades-outside t d rows h = record {
  users = refl;
  roles = refl;
  user_sessions = refl;
  courses = refl;
  course_enrollments = refl;
  lessons = refl;
  lesson_progress = refl;
  assignments = refl;
  submissions = refl;
  grades = h;
}

pub set_grades-IsConsistent :
    (d : Db) (rows : List Grade)
    → IsConsistent d
    → Unique (λ a b. a.id == b.id || grade_clash a b) rows
    → IsConsistent (record d { grades = rows })
set_grades-IsConsistent d rows c h = record {
  users = c.users;
  roles = c.roles;
  user_sessions = c.user_sessions;
  courses = c.courses;
  course_enrollments = c.course_enrollments;
  lessons = c.lessons;
  lesson_progress = c.lesson_progress;
  assignments = c.assignments;
  submissions = c.submissions;
  grades = h;
}

instance abbrev pub grade_model : Model Grade
grade_model = record {
  name = "Grade not found";
  id = λ r. r.id;
  tenant_id = λ r. r.tenant_id;
  soft_delete = none;
  unique_clash = grade_clash;
  unique_clash_comm = grade_clash_comm;
  table = λ d. d.grades;
  set_table = λ d rows. record d { grades = rows };
  table-set_table = λ d rows. refl;
  set_table-outside = set_grades-outside;
  table-Unique = λ d c. c.grades;
  set_table-IsConsistent = set_grades-IsConsistent;
}
