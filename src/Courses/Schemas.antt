-- ===== src/Courses/Schemas.antt =====
-- app/modules/courses/schemas.py: the filters and the write schemas.
use lms_backend.Base.{ℤ, String, Bool, Option}
use lms_backend.Shared.Page.{PageParams}
use lms_backend.Models.{Uuid, CourseLevel, CourseStatus}

pub record CourseFilter : Type 0 where
  pub params : PageParams
  pub open params use *
  pub category_id : Option Uuid
  pub level : Option CourseLevel
  pub status : Option CourseStatus
  pub is_free : Option Bool

pub record CourseCreate : Type 0 where
  pub title : String
  pub slug : String
  pub summary : Option String
  pub description : Option String
  pub category_id : Option Uuid
  pub level : CourseLevel
  pub is_free : Bool
  pub price : ℤ
  pub thumbnail_url : Option String

-- A field that the request leaves out is `none`; one that it sets to null is `some none`.
pub record CourseUpdate : Type 0 where
  pub title : Option (Option String)
  pub summary : Option (Option String)
  pub description : Option (Option String)
  pub category_id : Option (Option Uuid)
  pub level : Option (Option CourseLevel)
  pub status : Option (Option CourseStatus)
  pub is_free : Option (Option Bool)
  pub price : Option (Option ℤ)
  pub thumbnail_url : Option (Option String)
