-- ===== src/Tests/Learners.antt =====
-- The properties of tokens, enrollment and progress at concrete inputs.
use lms_backend.Base.{◌∷◌, [], ◌≡◌, refl, none, some}
use lms_backend.Shared.Errors.{err, integrity_error, app, validation}
use lms_backend.Models.{CourseEnrollment, LessonProgress, EnrollmentStatus, ProgressStatus}
use lms_backend.Store.{World, case_option, ◌>>=◌}
use lms_backend.Database.{
  update_where, policy, execute, select_where, select_one, get, get_or_404, create, add, clashes,
  flush, is_row_of,
}
use lms_backend.Events.{publish, deliver}
use lms_backend.Security.{hash_password, create_access_token, create_refresh_token, decode_token}
use lms_backend.Security.Tokens.{access_claims, refresh_claims, reading, decode-create}
use lms_backend.Courses.{enroll, get_for_user_course}
use lms_backend.Courses.Enrollment.{Enrolled, enroll-Enrolled}
use lms_backend.Courses.Cancelled.{enroll-cancelled}
use lms_backend.Auth.{reset_password, recall, get_reset, find_reset, forget, revoke_all_for_user}
use lms_backend.Auth.ResetOnce.{reset_password-once}
use lms_backend.Tests.Externals.{toy}
use lms_backend.Tests.Fixtures.{logic, tables, world, scoped}

decode-create_example :
    ((create_access_token toy 2 1 >>= λ token. λ _. decode_token toy token (some "access") scoped)
        world
      ≡ (reading 3 (access_claims world 2 1) "access", scoped))
    × ((create_refresh_token toy 2 1 >>= λ pair.
            λ _. decode_token toy pair.0 (some "access") scoped)
          world
        ≡ (reading 3 (refresh_claims world 2 1) "access", scoped))
decode-create_example = decode-create toy 2 1 world scoped "access" refl refl

abbrev enrollment : CourseEnrollment
enrollment = record {
  id = 20;
  tenant_id = 1;
  course_id = 4;
  user_id = 2;
  status = EnrollmentStatus.active;
  progress_pct = 0;
  enrolled_at = 3;
  completed_at = none;
}

enroll-Enrolled_example : Enrolled 1 4 2 scoped (enroll 4 2 scoped).1 enrollment
unfolding enroll policy execute select_where select_one get get_or_404 create add clashes flush
    is_row_of get_for_user_course publish deliver ◌>>=◌ case_option
enroll-Enrolled_example = enroll-Enrolled 4 2 1 scoped enrollment refl refl

abbrev progress : LessonProgress
progress = record {
  id = 20;
  tenant_id = 1;
  lesson_id = 9;
  course_id = 4;
  user_id = 2;
  status = ProgressStatus.completed;
  last_position_seconds = 7;
  completed_at = some 3;
}

abbrev resettable : World
resettable = record scoped {
  reset_store = record { token = "t"; tenant_part = 1; user_part = 2; expires = 9 } ∷ [];
}

reset_password-once_example :
    (reset_password toy "t" "other" (reset_password toy "t" "new" resettable).1).0
    ≡ err (app validation "Invalid or expired reset token")
unfolding reset_password recall get_reset find_reset forget hash_password get select_one
    select_where flush is_row_of policy revoke_all_for_user update_where case_option ◌>>=◌
reset_password-once_example = reset_password-once toy "t" "new" "other" resettable tt refl

abbrev lapsed : CourseEnrollment
lapsed = record enrollment { id = 8; status = EnrollmentStatus.cancelled }

abbrev lapsed_world : World
lapsed_world = record scoped { db = record tables { course_enrollments = lapsed ∷ [] } }

enroll-cancelled_example : (enroll 4 2 lapsed_world).0 ≡ err integrity_error
unfolding policy execute select_where select_one get get_or_404 get_for_user_course ◌>>=◌
enroll-cancelled_example =
    enroll-cancelled 4 2 1 logic lapsed lapsed_world refl refl refl refl refl refl
