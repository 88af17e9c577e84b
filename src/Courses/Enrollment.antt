-- ===== src/Courses/Enrollment.antt =====
-- What an enrollment that succeeds has checked and written.
use lms_backend.Base.{
  ◌+◌, ◌≡◌, refl, sym, ap, ◌∙◌, Bool, true, false, not, none, some, [], ◌∷◌, ◌++◌, Memᴰ, ◌==◌,
  nat_eq, arith,
}
use lms_backend.Shared.Errors.{Result, ok}
use lms_backend.Models.{
  Uuid, Time, Course, CourseEnrollment, published, active, course_status_eq, enrollment_status_eq,
}
use lms_backend.Store.{
  World, Action, pure, raise_if, get_now, require_tenant_id, tenant_of, ◌>>=◌, ◌>>◌,
}
use lms_backend.Store.Runs.{
  bind-ok, Passes-ok, bind-Reads, Reads-ok, raise_if-ok, require_tenant_id-ok, pure-ok, pure_still,
  pure_same, raise_if_still, now_still, now_value,
}
use lms_backend.Database.{get_or_404, create, flush}
use lms_backend.Database.Visible.{Found, get_or_404-Found, get_or_404_still, select_one_still}
use lms_backend.Database.Written.{create-Created, Mem-flush, flush-ok}
use lms_backend.Database.Tables.{course_model, course_enrollment_model}
use lms_backend.Events.{publish, publish_aside, course, course_enrolled}
use lms_backend.Courses.Service.{enroll, get_for_user_course, is_enrolled}

-- the row of a new enrollment
abbrev pub new_enrollment : Uuid → Uuid → Time → Uuid → Uuid → Time → CourseEnrollment
new_enrollment course_id user_id enrolled_at tid id now = record {
  id = id;
  tenant_id = tid;
  course_id = course_id;
  user_id = user_id;
  status = active;
  progress_pct = 0;
  enrolled_at = enrolled_at;
  completed_at = none;
}

abbrev counted : Course → Course
counted c = record c { enrollment_count = c.enrollment_count + 1 }

-- What holds between the tables before and after.
pub record Enrolled (t course_id user_id : Uuid) (w w' : World) (e : CourseEnrollment)
    : Type 0 where
  pub the_course : Course
  pub found : Found t (λ (c : Course). c.id == course_id) w.db the_course
  pub open_lem : (the_course.status == published) ≡ true
  pub row_lem : e ≡ new_enrollment course_id user_id w.now t w.next_id w.now
  pub added : w'.db.course_enrollments ≡ w.db.course_enrollments ++ e ∷ []
  pub counted_lem : Memᴰ (counted the_course) w'.db.courses

abbrev After :
    Uuid
    → Uuid
    → Uuid
    → World
    → Course
    → Result CourseEnrollment × World
    → CourseEnrollment
    → Type 0
After t course_id user_id w c o e =
    (e ≡ new_enrollment course_id user_id w.now t w.next_id w.now)
    × ((o.1.db.course_enrollments ≡ w.db.course_enrollments ++ e ∷ [])
        × Memᴰ (counted c) o.1.db.courses)

announce : Uuid → Uuid → Uuid → Course → CourseEnrollment → Action CourseEnrollment
announce t course_id user_id c e = do
  flush {Row = Course} (counted c)
  publish (some t) (some user_id) (course (course_enrolled course_id e.id))
  pure e

write : Uuid → Uuid → Uuid → Course → Time → Action CourseEnrollment
unfolding announce
write t course_id user_id c enrolled_at =
    create {Row = CourseEnrollment} (new_enrollment course_id user_id enrolled_at)
    >>= announce t course_id user_id c

announce-db :
    (t course_id user_id : Uuid) (c : Course) (e r : CourseEnrollment) (w : World)
    → (announce t course_id user_id c e w).0 ≡ ok r
    → Memᴰ c w.db.courses
    → (e ≡ r)
      × (((announce t course_id user_id c e w).1.db.course_enrollments ≡ w.db.course_enrollments)
          × Memᴰ (counted c) (announce t course_id user_id c e w).1.db.courses)
unfolding announce
announce-db t course_id user_id c e r w h row =
    let m = flush {Row = Course} (counted c) in
    let a = bind-ok m _ w r h in
    let w1 = (m w).1 in
    let p = publish (some t) (some user_id) (course (course_enrolled course_id e.id)) in
    let b = bind-ok p _ w1 r (Passes-ok _ _ w a r h) in
    let last = pure-ok e r (p w1).1 (Passes-ok _ _ w1 b r (Passes-ok _ _ w a r h)) in
    let state : (announce t course_id user_id c e w).1.db ≡ w1.db =
      ap (λ o. o.1.db) (a.rest ∙ b.rest ∙ pure_still e (p w1).1) ∙ publish_aside _ _ _ w1 in
    let (_, after) = flush-ok {Row = Course} (counted c) w a.value a.first in
    (
      last,
      (
        ap (λ d. d.course_enrollments) state ∙ ap (λ v. v.db.course_enrollments) after,
        rw (state) (Mem-flush {Row = Course} (counted c) c w a.value a.first row refl refl),
      ),
    )

of_not : (b : Bool) → not b ≡ false → b ≡ true
of_not b h = ground arith

pub find_still :
    (user_id course_id : Uuid) (w : World) → (get_for_user_course user_id course_id w).1 ≡ w
unfolding get_for_user_course
find_still user_id course_id w = select_one_still _ w

write-After :
    (t course_id user_id : Uuid) (c : Course) (r : CourseEnrollment) (w : World)
    → tenant_of w.ctx ≡ some t
    → (write t course_id user_id c w.now w).0 ≡ ok r
    → Memᴰ c w.db.courses
    → After t course_id user_id w c (write t course_id user_id c w.now w) r
unfolding write
write-After t course_id user_id c r w tenant h row =
    let m = create {Row = CourseEnrollment} (new_enrollment course_id user_id w.now) in
    let a = bind-ok m (announce t course_id user_id c) w r h in
    let w1 = (m w).1 in
    let made =
      create-Created {Row = CourseEnrollment} (new_enrollment course_id user_id w.now) t w a.value
        tenant a.first in
    let row1 : Memᴰ c w1.db.courses = rw (made.db_lem) row in
    let (same, (enrolled, counted_row)) =
      announce-db t course_id user_id c a.value r w1 (Passes-ok _ _ w a r h) row1 in
    (
      sym same ∙ made.row_lem,
      (
        ap (λ o. o.1.db.course_enrollments) a.rest
            ∙ enrolled
            ∙ ap (λ d. d.course_enrollments) (made.db_lem)
            ∙ ap (λ e. w.db.course_enrollments ++ e ∷ []) same,
        rw (a.rest) counted_row,
      ),
    )

-- An enrollment that succeeds in the context of tenant `t` was into a published course of `t` that is not
-- deleted; it leaves one active enrollment of the user, with a new id and progress 0, behind the other
-- enrollments, which are as they were, and the course with its count raised by one.
pub enroll-Enrolled :
    (course_id user_id t : Uuid) (w : World) (r : CourseEnrollment)
    → tenant_of w.ctx ≡ some t
    → (enroll course_id user_id w).0 ≡ ok r
    → Enrolled t course_id user_id w (enroll course_id user_id w).1 r
unfolding enroll write announce
enroll-Enrolled course_id user_id t w r tenant h =
    let a =
      bind-Reads require_tenant_id _ w r h (ap (λ o. o.1) (require_tenant_id-ok w t tenant)) in
    let ha = Reads-ok _ _ w a r h in
    let same_tenant : a.value ≡ t =
      pure_same _ _ (sym a.first ∙ ap (λ o. o.0) (require_tenant_id-ok w t tenant)) in
    let b =
      bind-Reads (get_or_404 {Row = Course} course_id) _ w r ha
        (get_or_404_still Course course_id w) in
    let hb = Reads-ok _ _ w b r ha in
    let c = b.value in
    let found = get_or_404-Found {Row = Course} w t course_id c tenant b.first in
    let closed = not (c.status == published) in
    let d = bind-Reads (raise_if closed _) _ w r hb (raise_if_still closed _ w) in
    let hd = Reads-ok _ _ w d r hb in
    let (is_open, _) = raise_if-ok closed _ w d.value d.first in
    let e =
      bind-Reads (get_for_user_course user_id course_id) _ w r hd
        (find_still user_id course_id w) in
    let he = Reads-ok _ _ w e r hd in
    let f =
      bind-Reads (raise_if (is_enrolled e.value) _) _ w r he
        (raise_if_still (is_enrolled e.value) _ w) in
    let hf = Reads-ok _ _ w f r he in
    let g = bind-Reads get_now _ w r hf (now_still w) in
    let hg = Reads-ok _ _ w g r hf in
    let same_now = pure_same _ _ (sym g.first ∙ now_value w) in
    let finish =
      ap (λ v. write v course_id user_id c g.value w) same_tenant
      ∙ ap (λ v. write t course_id user_id c v w) same_now in
    let all = a.rest ∙ b.rest ∙ d.rest ∙ e.rest ∙ f.rest ∙ g.rest ∙ finish in
    let (made, (added, raised)) =
      write-After t course_id user_id c r w tenant (ap (λ o. o.0) (sym finish) ∙ hg) found.row in
    record {
      the_course = c;
      found = found;
      open_lem = of_not (c.status == published) is_open;
      row_lem = made;
      added = ap (λ o. o.1.db.course_enrollments) all ∙ added;
      counted_lem = rw all raised;
    }
