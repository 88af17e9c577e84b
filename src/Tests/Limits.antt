-- ===== src/Tests/Limits.antt =====
-- The rate limiter and the dashboard at small states.
use lms_backend.Base.{
  pos, suc, ◌≡◌, ◌≢◌, refl, true, none, some, List, [], ◌∷◌, arith, before, after, strip, int,
}
use Prim.Native.Nat.{min}
use lms_backend.Shared.Errors.{ok}
use lms_backend.Database.{policy}
use lms_backend.Models.{Uuid, CourseEnrollment, EnrollmentStatus, Assignment, AssignmentType}
use lms_backend.Store.{World, Key, RedisCommand, case_option, delete, incr, tenant_slug, rate_limit}
use lms_backend.External.{key_of}
use lms_backend.RateLimit
use lms_backend.RateLimit.{Rate, limit, parse_rate}
use lms_backend.RateLimit.Window.{Hit, key_for, limit-Hit}
use lms_backend.RateLimit.Steps.{Event, attempt, foreign, attempts, run, Works, Open}
use lms_backend.RateLimit.Bound.{run_passes, run_recovers, run_locked}
use lms_backend.Dashboard.{for_user}
use lms_backend.Dashboard.Pending.{figures, is_pending, studies, has_submitted, count, for_user_lem}
use lms_backend.Dashboard.Own.{SameOwn, for_user_own}
use lms_backend.Tests.Externals.{toy}
use lms_backend.Tests.Fixtures.{world, scoped, any_order}

-- two requests in ten seconds
abbrev rate : Rate
rate = record { times = 2; seconds = 10 }

abbrev limited : World
limited = record world {
  settings = record world.settings { rate_limit_enabled = true };
  redis = some [];
}

abbrev login : Key
login = rate_limit "/auth/login" "anon"

limited-Works : Works toy rate "/auth/login" login [] limited
unfolding RateLimit.identity_of case_option
limited-Works = record { lasts = omega arith; enabled = refl; connected = refl; key_lem = refl }

abbrev other : RedisCommand
other = delete 5 (tenant_slug "acme")

not_login : key_of other ≢ login
not_login e = ground arith

abbrev events : List Event
events = attempt 4 ∷ foreign other ∷ attempt 5 ∷ attempt 6 ∷ []

limit-Hit_example :
    Hit toy rate
      (key_for toy "/auth/login" limited)
      limited
      []
      (limit toy rate "/auth/login" limited)
limit-Hit_example = limit-Hit toy rate limited [] "/auth/login" (omega arith) refl refl

run_passes_example :
    (run toy rate "/auth/login" (attempt 4 ∷ events) limited).0 ≡ min (suc (attempts events)) 2
run_passes_example =
    run_passes toy rate "/auth/login" login [] 4 events limited limited-Works refl (omega arith) (
      omega arith,
      (omega arith, (not_login, (omega arith, (omega arith, (omega arith, (omega arith, tt)))))),
    )

run_recovers_example :
    (limit toy rate "/auth/login"
      (record (run toy rate "/auth/login" (attempt 4 ∷ events) limited).1 { now = 14 })).0
    ≡ ok tt
run_recovers_example =
    run_recovers toy rate "/auth/login" login [] 4 14 events limited limited-Works refl
      (omega arith)
      (
        omega arith,
        (omega arith, (not_login, (omega arith, (omega arith, (omega arith, (omega arith, tt)))))),
      )
      (omega arith) (omega arith)

-- the state after INCR alone, when the program stopped before EXPIRE
abbrev stopped : World
stopped = record limited { redis = some (incr 3 login ∷ incr 3 login ∷ []) }

stopped-Open : Open toy rate "/auth/login" login none 2 stopped
unfolding RateLimit.identity_of case_option
stopped-Open = record {
  log = incr 3 login ∷ incr 3 login ∷ [];
  works = record { lasts = omega arith; enabled = refl; connected = refl; key_lem = refl };
  some_lem = omega arith;
  counter = refl;
}

run_locked_example : (run toy rate "/auth/login" events stopped).0 ≡ 0
run_locked_example =
    run_locked toy rate "/auth/login" login 100 events 2 stopped stopped-Open (omega arith) (
      omega arith,
      (omega arith, (not_login, (omega arith, (omega arith, (omega arith, (omega arith, tt)))))),
    )

parsed : parse_rate "10/minute" ≡ some (record { times = 10; seconds = 60 })
unfolding parse_rate RateLimit.lookup int before after strip case_option
parsed = refl

parsed_plural : parse_rate " 3/ hours " ≡ some (record { times = 3; seconds = 3600 })
unfolding parse_rate RateLimit.lookup int before after strip case_option
parsed_plural = refl

not_parsed : (parse_rate "10" ≡ none) × (parse_rate "/day" ≡ none) × (parse_rate "1/week" ≡ none)
unfolding parse_rate RateLimit.lookup int before after strip case_option
not_parsed = (refl, refl, refl)

abbrev enrolled : CourseEnrollment
enrolled = record {
  id = 30;
  tenant_id = 1;
  course_id = 4;
  user_id = 2;
  status = EnrollmentStatus.active;
  progress_pct = 0;
  enrolled_at = 1;
  completed_at = none;
}

abbrev homework : Uuid → Uuid → Assignment
homework id tenant_id = record {
  id = id;
  tenant_id = tenant_id;
  course_id = 4;
  title = "Exercise";
  description = none;
  type = AssignmentType.assignment;
  max_points = pos 100;
  pass_points = pos 50;
  due_at = none;
  is_published = true;
  quiz = none;
  created_at = 1;
  deleted_at = none;
}

-- one assignment to do, and the same with one more in the other tenant
abbrev studying : World
studying = record scoped {
  db = record scoped.db { course_enrollments = enrolled ∷ []; assignments = homework 31 1 ∷ [] };
}

abbrev beside : World
beside = record studying {
  db = record studying.db { assignments = homework 32 2 ∷ homework 31 1 ∷ [] };
}

for_user_lem_example : for_user any_order 2 studying ≡ (ok (figures studying 2 any_order), studying)
for_user_lem_example = for_user_lem studying 2 any_order

one_pending : (figures studying 2 any_order).pending_assignments ≡ 1
unfolding figures is_pending studies has_submitted count policy
one_pending = refl

same_rows : SameOwn 1 studying beside
same_rows = record {
  course_enrollments = refl;
  lesson_progress = refl;
  assignments = refl;
  submissions = refl;
  audit_logs = refl;
}

for_user_own_example : (for_user any_order 2 studying).0 ≡ (for_user any_order 2 beside).0
for_user_own_example = for_user_own 1 studying beside refl refl same_rows 2 any_order
