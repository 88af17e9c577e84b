-- ===== src/Models/Grading.antt =====
-- app/modules/assignments/models.py. A column `Numeric(6, 2)` holds a number of hundredths. What the
-- service computes from such numbers by `Decimal` is a fraction of them: `Decimal` rounds to 28
-- digits and the column to two, which is not modelled. A quiz is held in its assignment's row, as the
-- ORM loads it.
use lms_backend.Base.{
  ℤ, pos, ℕ, String, Bool, true, false, Option, List, ◌≡◌, ◌↔◌, arith, Comparable,
}
use lms_backend.Models.Tenants.{Uuid, Time}

-- `num / den` hundredths of a point; `den` is not 0, but it may be negative.
pub record Points : Type 0 where
  pub num : ℤ
  pub den : ℤ

abbrev pub hundredths : ℤ → Points
hundredths n = record { num = n; den = pos 1 }

pub data AssignmentType : Type 0 where
  assignment quiz : AssignmentType

abbrev assignment_type_beq : AssignmentType → AssignmentType → Bool
assignment_type_beq assignment assignment = true
assignment_type_beq quiz quiz = true
assignment_type_beq _ _ = false

pub assignment_type_beq_iff : (a b : AssignmentType) → (assignment_type_beq a b ≡ true) ↔ (a ≡ b)
assignment_type_beq_iff a b = ground arith

instance abbrev pub assignment_type_eq : Comparable AssignmentType
assignment_type_eq = record { equals = assignment_type_beq; equals-iff = assignment_type_beq_iff }

pub data SubmissionStatus : Type 0 where
  submitted graded returned : SubmissionStatus

pub data QuestionType : Type 0 where
  single multiple boolean : QuestionType

pub record QuizAnswer : Type 0 where
  pub id : Uuid
  pub text : String
  pub is_correct : Bool

pub record QuizQuestion : Type 0 where
  pub id : Uuid
  pub text : String
  pub type : QuestionType
  pub points : ℤ
  pub order_index : ℕ
  pub answers : List QuizAnswer

pub record Quiz : Type 0 where
  pub id : Uuid
  pub time_limit_seconds : ℕ
  pub shuffle_questions : Bool
  pub questions : List QuizQuestion

pub record Assignment : Type 0 where
  pub id : Uuid
  pub tenant_id : Uuid
  pub course_id : Uuid
  pub title : String
  pub description : Option String
  pub type : AssignmentType
  pub max_points : ℤ
  pub pass_points : ℤ
  pub due_at : Option Time
  pub is_published : Bool
  pub quiz : Option Quiz
  pub created_at : Time
  pub deleted_at : Option Time

pub record Submission : Type 0 where
  pub id : Uuid
  pub tenant_id : Uuid
  pub assignment_id : Uuid
  pub user_id : Uuid
  pub content : Option String
  pub file_url : Option String
  pub answers : Option (List (Uuid × List Uuid))
  pub status : SubmissionStatus
  pub submitted_at : Time

pub record Grade : Type 0 where
  pub id : Uuid
  pub tenant_id : Uuid
  pub submission_id : Uuid
  pub assignment_id : Uuid
  pub user_id : Uuid
  pub points : Points
  pub max_points : ℤ
  pub feedback : Option String
  pub is_auto : Bool
  pub graded_by : Option Uuid
  pub graded_at : Time
