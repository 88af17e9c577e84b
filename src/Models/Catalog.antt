-- ===== src/Models/Catalog.antt =====
-- app/modules/courses/models.py: the rows that the services read and write. A price is a number of
-- cents, as the column `Numeric(10, 2)` holds it.
use lms_backend.Base.{ℤ, ℕ, String, Bool, true, false, Option, ◌≡◌, ◌↔◌, arith, Comparable}
use lms_backend.Models.Tenants.{Uuid, Time}

pub data CourseStatus : Type 0 where
  draft published archived : CourseStatus

abbrev course_status_beq : CourseStatus → CourseStatus → Bool
course_status_beq draft draft = true
course_status_beq published published = true
course_status_beq archived archived = true
course_status_beq _ _ = false

pub course_status_beq_iff : (a b : CourseStatus) → (course_status_beq a b ≡ true) ↔ (a ≡ b)
course_status_beq_iff a b = ground arith

instance abbrev pub course_status_eq : Comparable CourseStatus
course_status_eq = record { equals = course_status_beq; equals-iff = course_status_beq_iff }

pub data CourseLevel : Type 0 where
  beginner intermediate advanced : CourseLevel

abbrev course_level_beq : CourseLevel → CourseLevel → Bool
course_level_beq beginner beginner = true
course_level_beq intermediate intermediate = true
course_level_beq advanced advanced = true
course_level_beq _ _ = false

pub course_level_beq_iff : (a b : CourseLevel) → (course_level_beq a b ≡ true) ↔ (a ≡ b)
course_level_beq_iff a b = ground arith

instance abbrev pub course_level_eq : Comparable CourseLevel
course_level_eq = record { equals = course_level_beq; equals-iff = course_level_beq_iff }

pub data EnrollmentStatus : Type 0 where
  active completed cancelled : EnrollmentStatus

abbrev enrollment_status_beq : EnrollmentStatus → EnrollmentStatus → Bool
enrollment_status_beq active active = true
enrollment_status_beq completed completed = true
enrollment_status_beq cancelled cancelled = true
enrollment_status_beq _ _ = false

pub enrollment_status_beq_iff :
    (a b : EnrollmentStatus) → (enrollment_status_beq a b ≡ true) ↔ (a ≡ b)
enrollment_status_beq_iff a b = ground arith

instance abbrev pub enrollment_status_eq : Comparable EnrollmentStatus
enrollment_status_eq = record {
  equals = enrollment_status_beq;
  equals-iff = enrollment_status_beq_iff;
}

pub record Course : Type 0 where
  pub id : Uuid
  pub tenant_id : Uuid
  pub title : String
  pub slug : String
  pub summary : Option String
  pub description : Option String
  pub category_id : Option Uuid
  pub status : CourseStatus
  pub level : CourseLevel
  pub is_free : Bool
  pub price : ℤ
  pub thumbnail_url : Option String
  pub enrollment_count : ℕ
  pub published_at : Option Time
  pub created_at : Time
  pub deleted_at : Option Time

pub record CourseEnrollment : Type 0 where
  pub id : Uuid
  pub tenant_id : Uuid
  pub course_id : Uuid
  pub user_id : Uuid
  pub status : EnrollmentStatus
  pub progress_pct : ℕ
  pub enrolled_at : Time
  pub completed_at : Option Time
