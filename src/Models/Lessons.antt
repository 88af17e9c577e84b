-- ===== src/Models/Lessons.antt =====
-- app/modules/learning/models.py: the rows that the services read and write.
use lms_backend.Base.{ℕ, String, Bool, Option}
use lms_backend.Models.Tenants.{Uuid, Time}

pub data LessonType : Type 0 where
  video document text : LessonType

pub data ProgressStatus : Type 0 where
  not_started in_progress completed : ProgressStatus

pub record Lesson : Type 0 where
  pub id : Uuid
  pub tenant_id : Uuid
  pub course_id : Uuid
  pub module_id : Option Uuid
  pub title : String
  pub content_type : LessonType
  pub content : Option String
  pub order_index : ℕ
  pub duration_seconds : ℕ
  pub is_preview : Bool
  pub deleted_at : Option Time

pub record LessonProgress : Type 0 where
  pub id : Uuid
  pub tenant_id : Uuid
  pub lesson_id : Uuid
  pub course_id : Uuid
  pub user_id : Uuid
  pub status : ProgressStatus
  pub last_position_seconds : ℕ
  pub completed_at : Option Time
