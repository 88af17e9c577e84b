-- ===== src/Assignments/Schemas.antt =====
-- app/modules/assignments/schemas.py: the filters and the requests. `GradeRequest.points` is not
-- negative, by its schema.
use lms_backend.Base.{String, Option, List}
use lms_backend.Shared.Page.{PageParams}
use lms_backend.Models.{Uuid, AssignmentType, Points}

pub record AssignmentFilter : Type 0 where
  pub params : PageParams
  pub open params use *
  pub course_id : Option Uuid
  pub type : Option AssignmentType

abbrev pub Answers : Type 0
Answers = List (Uuid × List Uuid)

pub record SubmitRequest : Type 0 where
  pub content : Option String
  pub file_url : Option String
  pub answers : Option Answers

pub record GradeRequest : Type 0 where
  pub points : Points
  pub feedback : Option String
