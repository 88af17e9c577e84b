-- ===== src/Dashboard/Pending.antt =====
-- The figures of a dashboard, against a description of each that has no join.
use lms_backend.Base.{
  any-filter, any-same, ℕ, ◌+◌, ◌≡◌, refl, sym, ap, ◌∙◌, Bool, true, false, ◌&&◌, ◌||◌, not, some,
  List, [], ◌∷◌, ◌++◌, map, filter, any, length, length-append, filter-append, take, contains, ◌==◌,
  nat_eq, is_none, if◌then◌else◌, arith,
}
use lms_backend.Shared.Errors.{ok}
use lms_backend.Models.{
  Uuid, CourseEnrollment, EnrollmentStatus, enrollment_status_eq, LessonProgress, Assignment,
  Submission, AuditLog,
}
use lms_backend.Store.{World, pure, ◌>>=◌}
use lms_backend.Database.{Ordering, policy, execute}
use lms_backend.Dashboard.{
  DashboardOut, outer_join, padded, is_submission_of, is_pending_row, is_by, is_completed,
  activity_item, enrolled_courses, count_where, count_pending, recent_audits, for_user,
}

-- How many elements pass a test.
unfoldable pub count : {A : Type 0} → (A → Bool) → List A → ℕ
count p xs = length (filter p xs)

module _ (w : World) (user_id : Uuid) where
  -- the user is actively enrolled in the course
  unfoldable pub studies : Uuid → Bool
  studies course_id =
      any
        (λ (e : CourseEnrollment).
          policy w.gucs e.tenant_id
          && ((e.user_id == user_id && e.status == EnrollmentStatus.active)
              && course_id == e.course_id))
        w.db.course_enrollments

  unfoldable pub has_submitted : Assignment → Bool
  has_submitted a =
      any (λ (s : Submission). policy w.gucs s.tenant_id && is_submission_of user_id a s)
        w.db.submissions

  -- published, not deleted, in a course that the user studies, and with no submission of the user
  unfoldable pub is_pending : Assignment → Bool
  unfolding studies has_submitted
  is_pending a =
      policy w.gucs a.tenant_id
      && (a.is_published && studies a.course_id && not (has_submitted a) && is_none a.deleted_at)

  -- The figures, each from the tables.
  unfoldable pub figures : Ordering AuditLog → DashboardOut
  unfolding is_pending count
  figures o = record {
    enrolled_courses =
        count
          (λ (e : CourseEnrollment).
            policy w.gucs e.tenant_id
            && (e.user_id == user_id && not (e.status == EnrollmentStatus.cancelled)))
          w.db.course_enrollments;
    completed_lessons =
        count
          (λ (p : LessonProgress).
            policy w.gucs p.tenant_id && (p.user_id == user_id && is_completed p.status))
          w.db.lesson_progress;
    pending_assignments = count is_pending w.db.assignments;
    submissions =
        count (λ (s : Submission). policy w.gucs s.tenant_id && s.user_id == user_id)
          w.db.submissions;
    recent_activity = map activity_item (
        take 10 (
          o.order_by "created_at" true (
            filter (λ (a : AuditLog). policy w.gucs a.tenant_id && is_by user_id a.user_id)
              w.audit_logs)));
  }

and_assoc : (a b c : Bool) → ((a && b) && c) ≡ (a && (b && c))
and_assoc a b c = ground arith

is_found : {A : Type 0} → List A → Bool
is_found [] = false
is_found (x ∷ xs) = true

module _ {A : Type 0} where
  contains-map : (f : A → ℕ) (xs : List A) (c : ℕ) → contains (map f xs) c ≡ any (λ x. c == f x) xs
  contains-map f [] c = refl
  contains-map f (x ∷ xs) c = ap (λ b. c == f x || b) (contains-map f xs c)

  any-filter_found : (p : A → Bool) (xs : List A) → any p xs ≡ is_found (filter p xs)
  unfolding is_found
  any-filter_found p [] = refl
  any-filter_found p (x ∷ xs) = ground (arith, any-filter_found p xs)

  pub count-filter :
      (p q r : A → Bool) (xs : List A)
      → ((x : A) → r x ≡ (p x && q x))
      → count q (filter p xs) ≡ count r xs
  unfolding count
  count-filter p q r [] h = refl
  count-filter p q r (x ∷ xs) h = rw (h x) ground (arith, count-filter p q r xs h)

-- Rows with a match are not pending.
count-matched :
    (courses : List Uuid) (a : Assignment) (found : List Submission)
    → count (is_pending_row courses) (map (λ c. (a, some c)) found) ≡ 0
unfolding count
count-matched courses a [] = refl
count-matched courses a (s ∷ found) = ground (arith, count-matched courses a found)

-- What the WHERE clause leaves of the rows of the join for one assignment.
count-padded :
    (courses : List Uuid) (a : Assignment) (found : List Submission) (test : Bool)
    → test ≡ (
        a.is_published
        && contains courses a.course_id
        && not (is_found found)
        && is_none a.deleted_at)
    → count (is_pending_row courses) (padded a found) ≡ (if test then 1 else 0)
unfolding count is_found
count-padded courses a [] test h = ground arith
count-padded courses a (s ∷ found) test h = ground (arith, count-matched courses a (s ∷ found))

count-append :
    {A : Type 0} (p : A → Bool) (xs ys : List A) → count p (xs ++ ys) ≡ count p xs + count p ys
unfolding count
count-append p xs ys = ap length (filter-append p xs ys) ∙ length-append (filter p xs) (filter p ys)

count-cons :
    {A : Type 0} (p : A → Bool) (x : A) (xs : List A)
    → count p (x ∷ xs) ≡ (if p x then 1 else 0) + count p xs
unfolding count
count-cons p x xs = ground arith

count-outer_join :
    (courses : List Uuid) (on : Assignment → Submission → Bool) (rows : List Assignment)
    (s : List Submission)
    → count (is_pending_row courses) (outer_join on rows s)
      ≡ count
          (λ (a : Assignment).
            a.is_published
            && contains courses a.course_id
            && not (any (on a) s)
            && is_none a.deleted_at)
          rows
unfolding outer_join
count-outer_join courses on [] s = unfold count in refl
count-outer_join courses on (a ∷ rows) s =
    rw
      (
        count-append,
        count-outer_join courses on rows s,
        count-padded courses a (filter (on a) s) _ refl,
        ← any-filter_found (on a) s,
      )
      (sym (count-cons _ a rows))

module _ (w : World) (user_id : Uuid) where
  -- The courses of the subquery, and the submissions of the join.
  courses_found : List Uuid
  courses_found =
      map (λ (e : CourseEnrollment). e.course_id)
        (filter
          (λ (e : CourseEnrollment).
            policy w.gucs e.tenant_id
            && (e.user_id == user_id && e.status == EnrollmentStatus.active))
          w.db.course_enrollments)

  submissions_found : List Submission
  submissions_found =
      filter (λ (s : Submission). policy w.gucs s.tenant_id && true) w.db.submissions

  courses_found-studies : (c : Uuid) → contains courses_found c ≡ studies w user_id c
  unfolding courses_found studies
  courses_found-studies c =
      contains-map (λ (e : CourseEnrollment). e.course_id) _ c
      ∙ (any-filter _ _ w.db.course_enrollments
          ∙ any-same _ _ w.db.course_enrollments (λ e. and_assoc (policy w.gucs e.tenant_id) _ _))

  submissions_found-submitted :
      (a : Assignment)
      → any (is_submission_of user_id a) submissions_found ≡ has_submitted w user_id a
  unfolding submissions_found has_submitted
  submissions_found-submitted a =
      any-filter _ _ w.db.submissions
      ∙ any-same _ _ w.db.submissions (λ s. and_assoc (policy w.gucs s.tenant_id) true _)

  same_test :
      (a : Assignment)
      → is_pending w user_id a ≡ (
          (policy w.gucs a.tenant_id && true)
          && (a.is_published
              && contains courses_found a.course_id
              && not (any (is_submission_of user_id a) submissions_found)
              && is_none a.deleted_at))
  unfolding is_pending
  same_test a =
      rw (courses_found-studies, submissions_found-submitted)
        (sym (and_assoc (policy w.gucs a.tenant_id) true _))

  count_pending-is_pending :
      count_pending user_id w ≡ (ok (count (is_pending w user_id) w.db.assignments), w)
  unfolding count_pending enrolled_courses execute pure ◌>>=◌ courses_found submissions_found count
  count_pending-is_pending =
      let n =
        count-outer_join courses_found (is_submission_of user_id)
          (filter (λ (a : Assignment). policy w.gucs a.tenant_id && true) w.db.assignments)
          submissions_found in
      ap (λ n. (ok n, w)) (n ∙ count-filter _ _ (is_pending w user_id) w.db.assignments same_test)

  -- The dashboard of a user, which every state gives and no state changes for, has the figures of the
  -- description: the pending assignments of the LEFT JOIN are the published, undeleted ones of the
  -- courses that the user studies for which no submission of the user is visible, each counted once.
  pub for_user_lem : (o : Ordering AuditLog) → for_user o user_id w ≡ (ok (figures w user_id o), w)
  unfolding for_user count_where execute recent_audits pure ◌>>=◌ figures count
  for_user_lem o = rw count_pending-is_pending refl
