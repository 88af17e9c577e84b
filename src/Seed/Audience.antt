-- ===== src/Seed/Audience.antt =====
-- The endpoints by the roles of scripts/seed.py that may use them.
use lms_backend.Base.{◌≡◌, refl, Bool, true, false, contains, all, string_eq, nat_eq}
use lms_backend.Models.{RoleCode}
use lms_backend.Api.{
  UserEndpoint, permissions_of, get_me, get_courses, get_course_detail, post_enroll, get_lessons,
  post_complete, get_progress, get_assignments, get_assignment_detail, post_submit, post_grade,
  get_submissions, get_grades_me, get_admin_courses, get_admin_course, post_admin_course,
  put_admin_course, delete_admin_course, get_admin_lessons, post_admin_lesson,
  get_admin_assignments, post_admin_assignment, get_users, post_user, put_user, get_reports,
  get_dashboard, manage,
}
use lms_backend.Seed.Catalog.{role_matrix}

-- Independent of the codes: the roles that an endpoint is for.
pub data Audience : Type 0 where
  everyone learners staff administrators platform : Audience

abbrev pub includes : Audience → RoleCode → Bool
includes everyone rc = true
includes learners RoleCode.instructor = false
includes learners _ = true
includes staff RoleCode.student = false
includes staff _ = true
includes administrators RoleCode.super_admin = true
includes administrators RoleCode.tenant_admin = true
includes administrators _ = false
includes platform RoleCode.super_admin = true
includes platform _ = false

abbrev pub audience_of : UserEndpoint → Audience
audience_of get_me = everyone
audience_of (get_courses f) = everyone
audience_of (get_course_detail id) = everyone
audience_of (post_enroll id) = learners
audience_of (get_lessons id) = everyone
audience_of (post_complete id n) = everyone
audience_of (get_progress p) = everyone
audience_of (get_assignments f) = everyone
audience_of (get_assignment_detail id) = everyone
audience_of (post_submit id r) = learners
audience_of (post_grade id r) = staff
audience_of (get_submissions id) = staff
audience_of (get_grades_me p) = everyone
audience_of (get_admin_courses f) = everyone
audience_of (get_admin_course id) = everyone
audience_of (post_admin_course r) = staff
audience_of (put_admin_course id r) = staff
audience_of (delete_admin_course id) = administrators
audience_of (get_admin_lessons id) = everyone
audience_of (post_admin_lesson id r) = staff
audience_of (get_admin_assignments id) = everyone
audience_of (post_admin_assignment id r) = staff
audience_of (get_users p) = staff
audience_of (post_user r) = administrators
audience_of (put_user id r) = administrators
audience_of get_reports = staff
audience_of get_dashboard = everyone
audience_of (manage p) = platform

by_role :
    (f g : RoleCode → Bool)
    → f RoleCode.super_admin ≡ g RoleCode.super_admin
    → f RoleCode.tenant_admin ≡ g RoleCode.tenant_admin
    → f RoleCode.instructor ≡ g RoleCode.instructor
    → f RoleCode.student ≡ g RoleCode.student
    → (rc : RoleCode) → f rc ≡ g rc
by_role f g a b c d RoleCode.super_admin = a
by_role f g a b c d RoleCode.tenant_admin = b
by_role f g a b c d RoleCode.instructor = c
by_role f g a b c d RoleCode.student = d

-- the role matrix gives each code that the endpoint asks for
unfoldable pub has_all : UserEndpoint → RoleCode → Bool
has_all e rc = all (contains (role_matrix rc)) (permissions_of e)

pub has_all-includes :
    (e : UserEndpoint) (rc : RoleCode) → has_all e rc ≡ includes (audience_of e) rc
unfolding has_all role_matrix
has_all-includes get_me rc =
    by_role (has_all get_me) (includes (audience_of get_me)) refl refl refl refl rc
has_all-includes (get_courses f) rc =
    by_role (has_all (get_courses f)) (includes (audience_of (get_courses f))) refl refl refl refl
      rc
has_all-includes (get_course_detail id) rc =
    by_role (has_all (get_course_detail id)) (includes (audience_of (get_course_detail id))) refl
      refl refl refl rc
has_all-includes (post_enroll id) rc =
    by_role (has_all (post_enroll id)) (includes (audience_of (post_enroll id))) refl refl refl refl
      rc
has_all-includes (get_lessons id) rc =
    by_role (has_all (get_lessons id)) (includes (audience_of (get_lessons id))) refl refl refl refl
      rc
has_all-includes (post_complete id n) rc =
    by_role (has_all (post_complete id n)) (includes (audience_of (post_complete id n))) refl refl
      refl refl rc
has_all-includes (get_progress p) rc =
    by_role (has_all (get_progress p)) (includes (audience_of (get_progress p))) refl refl refl refl
      rc
has_all-includes (get_assignments f) rc =
    by_role (has_all (get_assignments f)) (includes (audience_of (get_assignments f))) refl refl
      refl refl rc
has_all-includes (get_assignment_detail id) rc =
    by_role (has_all (get_assignment_detail id)) (includes (audience_of (get_assignment_detail id)))
      refl refl refl refl rc
has_all-includes (post_submit id r) rc =
    by_role (has_all (post_submit id r)) (includes (audience_of (post_submit id r))) refl refl refl
      refl rc
has_all-includes (post_grade id r) rc =
    by_role (has_all (post_grade id r)) (includes (audience_of (post_grade id r))) refl refl refl
      refl rc
has_all-includes (get_submissions id) rc =
    by_role (has_all (get_submissions id)) (includes (audience_of (get_submissions id))) refl refl
      refl refl rc
has_all-includes (get_grades_me p) rc =
    by_role (has_all (get_grades_me p)) (includes (audience_of (get_grades_me p))) refl refl refl
      refl rc
has_all-includes (get_admin_courses f) rc =
    by_role (has_all (get_admin_courses f)) (includes (audience_of (get_admin_courses f))) refl refl
      refl refl rc
has_all-includes (get_admin_course id) rc =
    by_role (has_all (get_admin_course id)) (includes (audience_of (get_admin_course id))) refl refl
      refl refl rc
has_all-includes (post_admin_course r) rc =
    by_role (has_all (post_admin_course r)) (includes (audience_of (post_admin_course r))) refl refl
      refl refl rc
has_all-includes (put_admin_course id r) rc =
    by_role (has_all (put_admin_course id r)) (includes (audience_of (put_admin_course id r))) refl
      refl refl refl rc
has_all-includes (delete_admin_course id) rc =
    by_role (has_all (delete_admin_course id)) (includes (audience_of (delete_admin_course id)))
      refl refl refl refl rc
has_all-includes (get_admin_lessons id) rc =
    by_role (has_all (get_admin_lessons id)) (includes (audience_of (get_admin_lessons id))) refl
      refl refl refl rc
has_all-includes (post_admin_lesson id r) rc =
    by_role (has_all (post_admin_lesson id r)) (includes (audience_of (post_admin_lesson id r)))
      refl refl refl refl rc
has_all-includes (get_admin_assignments id) rc =
    by_role (has_all (get_admin_assignments id)) (includes (audience_of (get_admin_assignments id)))
      refl refl refl refl rc
has_all-includes (post_admin_assignment id r) rc =
    by_role (has_all (post_admin_assignment id r))
      (includes (audience_of (post_admin_assignment id r))) refl refl refl refl rc
has_all-includes (get_users p) rc =
    by_role (has_all (get_users p)) (includes (audience_of (get_users p))) refl refl refl refl rc
has_all-includes (post_user r) rc =
    by_role (has_all (post_user r)) (includes (audience_of (post_user r))) refl refl refl refl rc
has_all-includes (put_user id r) rc =
    by_role (has_all (put_user id r)) (includes (audience_of (put_user id r))) refl refl refl refl
      rc
has_all-includes get_reports rc =
    by_role (has_all get_reports) (includes (audience_of get_reports)) refl refl refl refl rc
has_all-includes get_dashboard rc =
    by_role (has_all get_dashboard) (includes (audience_of get_dashboard)) refl refl refl refl rc
has_all-includes (manage p) rc =
    by_role (has_all (manage p)) (includes (audience_of (manage p))) refl refl refl refl rc
