-- ===== src/Assignments/Rules.antt =====
-- The use-cases of assignments under any relation that the writes of the repositories obey.
use lms_backend.Base.{ℤ, String, Bool, Option}
use lms_backend.Shared.Page.{PageParams}
use lms_backend.Models.{Uuid, Points, Assignment, Submission, Grade, Quiz}
use lms_backend.Store.{World}
use lms_backend.Store.Relations.{Obeys}
use lms_backend.Database.{Ordering}
use lms_backend.Database.Rules.{IsStoreRelation, store_rules}
use lms_backend.Events.{Obeys-publish}
use lms_backend.Assignments.Schemas.{AssignmentFilter, Answers, SubmitRequest, GradeRequest}
use lms_backend.Assignments.Service.{
  list_assignments, get_assignment, get_by_submission, record_grade, auto_grade, submit,
  grade_submission, list_grades, list_submissions_for_assignment,
}

module _ {R : World → World → Type 0} (s : IsStoreRelation R) where
  pub Obeys-list_assignments :
      (o : Ordering Assignment) (f : AssignmentFilter) (p : Bool) → Obeys R (list_assignments o f p)
  unfolding list_assignments
  Obeys-list_assignments o f p = search store_rules

  pub Obeys-get_assignment : (id : Uuid) → Obeys R (get_assignment id)
  unfolding get_assignment
  Obeys-get_assignment id = search store_rules

  Obeys-get_by_submission : (id : Uuid) → Obeys R (get_by_submission id)
  unfolding get_by_submission
  Obeys-get_by_submission id = search store_rules

  Obeys-record_grade :
      (sub : Submission) (p : Points) (m : ℤ) (a : Bool) (g : Option Uuid) (f : Option String)
      → Obeys R (record_grade sub p m a g f)
  unfolding record_grade
  Obeys-record_grade sub p m a g f =
      search (store_rules, Obeys-get_by_submission, Obeys-publish) depth 20

  Obeys-auto_grade :
      (a : Assignment) (q : Quiz) (sub : Submission) (answers : Answers)
      → Obeys R (auto_grade a q sub answers)
  unfolding auto_grade
  Obeys-auto_grade a q sub answers = Obeys-record_grade sub _ _ _ _ _

  pub Obeys-submit : (a u : Uuid) (request : SubmitRequest) → Obeys R (submit a u request)
  unfolding submit
  Obeys-submit a u request = search (store_rules, Obeys-auto_grade, Obeys-publish) depth 20

  pub Obeys-grade_submission :
      (id : Uuid) (request : GradeRequest) (g : Uuid) → Obeys R (grade_submission id request g)
  unfolding grade_submission
  Obeys-grade_submission id request g = search (store_rules, Obeys-record_grade) depth 20

  pub Obeys-list_grades :
      (o : Ordering Grade) (u : Uuid) (params : PageParams) → Obeys R (list_grades o u params)
  unfolding list_grades
  Obeys-list_grades o u params = search store_rules

  pub Obeys-list_submissions_for_assignment :
      (o : Ordering Submission) (id : Uuid) → Obeys R (list_submissions_for_assignment o id)
  unfolding list_submissions_for_assignment
  Obeys-list_submissions_for_assignment o id = search store_rules

pub ruleset assignment_rules = (
  Obeys-list_assignments, Obeys-get_assignment, Obeys-submit, Obeys-grade_submission,
  Obeys-list_grades, Obeys-list_submissions_for_assignment,
)
