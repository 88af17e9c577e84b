-- ===== src/Dashboard/Own.antt =====
-- A dashboard does not depend on the rows of other tenants, though its statements name no tenant.
use lms_backend.Base.{
  any-filter, any-same, filter-filter, ◌≡◌, sym, ap, ◌∙◌, Bool, true, ◌&&◌, not, List, map, filter,
  any, take, ◌==◌, nat_eq, is_none,
}
use lms_backend.Shared.Errors.{ok}
use lms_backend.Models.{
  Uuid, CourseEnrollment, EnrollmentStatus, enrollment_status_eq, LessonProgress, Assignment,
  Submission, AuditLog,
}
use lms_backend.Store.{World, Gucs}
use lms_backend.Database.{Ordering, policy}
use lms_backend.Database.Outside.{scoped_to, policy-scoped_to}
use lms_backend.Dashboard.{for_user, activity_item, is_by, is_completed}
use lms_backend.Dashboard.Pending.{
  count, count-filter, studies, has_submitted, is_pending, figures, for_user_lem,
}

-- the rows of the tenant `t`
abbrev own : {Row : Type 0} → (Row → Uuid) → Uuid → List Row → List Row
own col t rows = filter (λ r. col r == t) rows

-- Two states with the same rows of the tenant `t`, in the tables that a dashboard reads.
pub record SameOwn (t : Uuid) (w v : World) : Type 0 where
  pub course_enrollments :
      own (λ (r : CourseEnrollment). r.tenant_id) t w.db.course_enrollments
      ≡ own (λ (r : CourseEnrollment). r.tenant_id) t v.db.course_enrollments
  pub lesson_progress :
      own (λ (r : LessonProgress). r.tenant_id) t w.db.lesson_progress
      ≡ own (λ (r : LessonProgress). r.tenant_id) t v.db.lesson_progress
  pub assignments :
      own (λ (r : Assignment). r.tenant_id) t w.db.assignments
      ≡ own (λ (r : Assignment). r.tenant_id) t v.db.assignments
  pub submissions :
      own (λ (r : Submission). r.tenant_id) t w.db.submissions
      ≡ own (λ (r : Submission). r.tenant_id) t v.db.submissions
  pub audit_logs :
      own (λ (r : AuditLog). r.tenant_id) t w.audit_logs
      ≡ own (λ (r : AuditLog). r.tenant_id) t v.audit_logs

module _ {Row : Type 0} where
  -- What passes two tests depends on what passes the first.
  module _ (p q : Row → Bool) (xs ys : List Row) (h : filter p xs ≡ filter p ys) (r s : Row → Bool)
      (hr : (x : Row) → r x ≡ (p x && q x)) (hs : (x : Row) → s x ≡ (p x && q x)) where
    count_own : count r xs ≡ count s ys
    count_own = sym (count-filter p q r xs hr) ∙ ap (count q) h ∙ count-filter p q s ys hs

    filter_own : filter r xs ≡ filter s ys
    filter_own = sym (filter-filter p q r xs hr) ∙ ap (filter q) h ∙ filter-filter p q s ys hs

    any_own : any r xs ≡ any s ys
    any_own =
        any-same _ _ xs hr
        ∙ (sym (any-filter p q xs) ∙ ap (any q) h ∙ any-filter p q ys)
        ∙ sym (any-same _ _ ys hs)

policy_own : (g : Gucs) (t tid : Uuid) → g ≡ scoped_to t → policy g tid ≡ (tid == t)
policy_own g t tid h = rw h (policy-scoped_to t tid)

module _ (t : Uuid) (w v : World) (hw : w.gucs ≡ scoped_to t) (hv : v.gucs ≡ scoped_to t)
    (same : SameOwn t w v) (user_id : Uuid) where
  -- a test behind the policy is the test behind the tenant's own
  own_test :
      (g : Gucs) (tid : Uuid) (b : Bool) → g ≡ scoped_to t → (policy g tid && b) ≡ (tid == t && b)
  own_test g tid b h = ap (λ p. p && b) (policy_own g t tid h)

  -- the tests of a statement on two lists with the same rows of the tenant
  module _ {Row : Type 0} (col : Row → Uuid) (q : Row → Bool) (xs ys : List Row)
      (h : own col t xs ≡ own col t ys) where
    counts :
        count (λ r. policy w.gucs (col r) && q r) xs ≡ count (λ r. policy v.gucs (col r) && q r) ys
    counts =
        count_own (λ r. col r == t) q xs ys h _ _ (λ r. own_test w.gucs (col r) (q r) hw)
          (λ r. own_test v.gucs (col r) (q r) hv)

    finds :
        filter (λ r. policy w.gucs (col r) && q r) xs
        ≡ filter (λ r. policy v.gucs (col r) && q r) ys
    finds =
        filter_own (λ r. col r == t) q xs ys h _ _ (λ r. own_test w.gucs (col r) (q r) hw)
          (λ r. own_test v.gucs (col r) (q r) hv)

    holds : any (λ r. policy w.gucs (col r) && q r) xs ≡ any (λ r. policy v.gucs (col r) && q r) ys
    holds =
        any_own (λ r. col r == t) q xs ys h _ _ (λ r. own_test w.gucs (col r) (q r) hw)
          (λ r. own_test v.gucs (col r) (q r) hv)

  studies_own : (c : Uuid) → studies w user_id c ≡ studies v user_id c
  unfolding studies
  studies_own c =
      holds (λ (e : CourseEnrollment). e.tenant_id) _ w.db.course_enrollments
        v.db.course_enrollments same.course_enrollments

  has_submitted_own : (a : Assignment) → has_submitted w user_id a ≡ has_submitted v user_id a
  unfolding has_submitted
  has_submitted_own a =
      holds (λ (s : Submission). s.tenant_id) _ w.db.submissions v.db.submissions same.submissions

  pending_test :
      (a : Assignment)
      → is_pending v user_id a ≡ (
          a.tenant_id == t
          && (a.is_published
              && studies w user_id a.course_id
              && not (has_submitted w user_id a)
              && is_none a.deleted_at))
  unfolding is_pending
  pending_test a =
      rw (studies_own a.course_id, has_submitted_own a) (own_test v.gucs a.tenant_id _ hv)

  pending_own :
      count (is_pending w user_id) w.db.assignments ≡ count (is_pending v user_id) v.db.assignments
  unfolding is_pending
  pending_own =
      count_own (λ (a : Assignment). a.tenant_id == t) _ w.db.assignments v.db.assignments
        same.assignments _ _ (λ a. own_test w.gucs a.tenant_id _ hw) pending_test

  figures_own : (o : Ordering AuditLog) → figures w user_id o ≡ figures v user_id o
  unfolding figures
  figures_own o = λ i. record {
    enrolled_courses =
        counts (λ (e : CourseEnrollment). e.tenant_id)
          (λ e. e.user_id == user_id && not (e.status == EnrollmentStatus.cancelled))
          w.db.course_enrollments v.db.course_enrollments same.course_enrollments i;
    completed_lessons =
        counts (λ (p : LessonProgress). p.tenant_id)
          (λ p. p.user_id == user_id && is_completed p.status) w.db.lesson_progress
          v.db.lesson_progress same.lesson_progress i;
    pending_assignments = pending_own i;
    submissions =
        counts (λ (s : Submission). s.tenant_id) (λ s. s.user_id == user_id) w.db.submissions
          v.db.submissions same.submissions i;
    recent_activity = map activity_item (
        take 10 (
          o.order_by "created_at" true (
            finds (λ (a : AuditLog). a.tenant_id) (λ a. is_by user_id a.user_id) w.audit_logs
              v.audit_logs same.audit_logs i)));
  }

  -- The dashboard that a transaction of a tenant shows is the same in two states that have the same rows
  -- of that tenant, whatever rows the other tenants have.
  pub for_user_own : (o : Ordering AuditLog) → (for_user o user_id w).0 ≡ (for_user o user_id v).0
  for_user_own o =
      ap (λ r. r.0) (for_user_lem w user_id o)
      ∙ (ap ok (figures_own o) ∙ sym (ap (λ r. r.0) (for_user_lem v user_id o)))
