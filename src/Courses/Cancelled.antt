-- ===== src/Courses/Cancelled.antt =====
-- What becomes of an enrollment after one that was cancelled.
use lms_backend.Base.{
  suc, ◌≡◌, refl, sym, ap, ◌∙◌, Bool, true, not, ◌&&◌, ◌||◌, some, List, [], ◌∷◌, any, Memᴰ, ◌==◌,
  nat_eq, nat_beq_iff, arith, and_elim,
}
use lms_backend.Shared.Errors.{ok, err, integrity_error}
use lms_backend.Models.{
  Uuid, Course, CourseEnrollment, published, cancelled, course_status_eq, enrollment_status_eq,
}
use lms_backend.Store.{World, get_now, raise_if, require_tenant_id, tenant_of}
use lms_backend.Store.Runs.{
  bind-read, bind-error, require_tenant_id-ok, raise_if-passes, raise_if_still, now_still,
  now_value,
}
use lms_backend.Database.{add, clashes, create, policy, get_or_404}
use lms_backend.Database.Outside.{scoped_to, policy-scoped_to}
use lms_backend.Database.Visible.{get_or_404_still, select_one-Found}
use lms_backend.Database.Written.{create-add}
use lms_backend.Database.Tables.{course_model, course_enrollment_model}
use lms_backend.Courses.Service.{enroll, get_for_user_course}
use lms_backend.Courses.Enrollment.{new_enrollment, find_still}

either : (a b : Bool) → b ≡ true → (a || b) ≡ true
either a b h = ground arith

any-Mem :
    {A : Type 0} (p : A → Bool) (a : A) (xs : List A) → Memᴰ a xs → p a ≡ true → any p xs ≡ true
any-Mem p a [] none_there h = elim none_there [ ]
any-Mem p a (x ∷ xs) (Memᴰ.head e) h = rw (sym e, h) refl
any-Mem p a (x ∷ xs) (Memᴰ.tail m) h = either (p x) _ (any-Mem p a xs m h)

clash_of :
    (i j c d u v : Uuid) → (d == c) ≡ true → (v == u) ≡ true → (i == j || (c == d && u == v)) ≡ true
clash_of i j c d u v h k = ground arith

add-refused :
    (obj e : CourseEnrollment) (t : Uuid) (w : World)
    → w.gucs ≡ scoped_to t
    → obj.tenant_id ≡ t
    → Memᴰ e w.db.course_enrollments
    → (clashes obj e ≡ true)
    → (add {Row = CourseEnrollment} obj w).0 ≡ err integrity_error
unfolding add
add-refused obj e t w scope own row clash =
    let allowed : policy w.gucs obj.tenant_id ≡ true =
      ap (λ g. policy g obj.tenant_id) scope
      ∙ policy-scoped_to t obj.tenant_id
      ∙ (nat_beq_iff obj.tenant_id t).1 own in
    let taken = any-Mem (clashes obj) e w.db.course_enrollments row clash in
    rw (allowed, taken) refl

-- A user whose enrollment in a published course was cancelled cannot enroll again: the request passes the
-- checks of the service and ends in an error of the database, with no enrollment.
pub enroll-cancelled :
    (course_id user_id t : Uuid) (c : Course) (e : CourseEnrollment) (w : World)
    → tenant_of w.ctx ≡ some t
    → w.gucs ≡ scoped_to t
    → (get_or_404 course_id w).0 ≡ ok c
    → (c.status == published) ≡ true
    → (get_for_user_course user_id course_id w).0 ≡ ok (some e)
    → (e.status == cancelled) ≡ true
    → (enroll course_id user_id w).0 ≡ err integrity_error
unfolding enroll get_for_user_course clashes
enroll-cancelled course_id user_id t c e w tenant scope course_found is_published found gone =
    let row = select_one-Found w t _ e tenant found in
    let (same_user, same_course) =
      and_elim (e.user_id == user_id) (e.course_id == course_id) row.matches in
    let tid = require_tenant_id-ok w t tenant in
    let obj = new_enrollment course_id user_id w.now t w.next_id w.now in
    let clash : clashes obj e ≡ true =
      clash_of w.next_id e.id course_id e.course_id user_id e.user_id same_course same_user in
    let made =
      create-add {Row = CourseEnrollment} (new_enrollment course_id user_id w.now) t w tenant in
    let refused =
      ap (λ o. o.0) made
      ∙ add-refused obj e t (record w { next_id = suc w.next_id }) scope refl row.row clash in
    let all =
      bind-read require_tenant_id _ w t (ap (λ o. o.0) tid) (ap (λ o. o.1) tid)
      ∙ bind-read (get_or_404 {Row = Course} course_id) _ w c course_found
          (get_or_404_still Course course_id w)
      ∙ bind-read (raise_if (not (c.status == published)) _) _ w tt
          (raise_if-passes _ _ w (ap not is_published)) (raise_if_still _ _ w)
      ∙ bind-read (get_for_user_course user_id course_id) _ w (some e) found
          (find_still user_id course_id w)
      ∙ bind-read (raise_if (not (e.status == cancelled)) _) _ w tt
          (raise_if-passes _ _ w (ap not gone)) (raise_if_still _ _ w)
      ∙ bind-read get_now _ w w.now (now_value w) (now_still w)
      ∙ bind-error (create {Row = CourseEnrollment} (new_enrollment course_id user_id w.now)) _ w
          integrity_error refused in
    ap (λ o. o.0) all
