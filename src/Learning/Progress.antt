-- ===== src/Learning/Progress.antt =====
-- What completing a lesson has checked and written.
use lms_backend.Base.{
  if◌then◌else◌, ◌++◌, ℕ, ◌≡◌, Option, none, some, List, [], ◌∷◌, map, Memᴰ, ◌&&◌, ◌==◌, nat_eq,
}
use lms_backend.Models.{Uuid, Time, Lesson, LessonProgress, ProgressStatus}
use lms_backend.Store.{World, Gucs, Action, pure, case_option, ◌>>◌}
use lms_backend.Database.{policy, create, flush}
use lms_backend.Database.Tables.{lesson_model, lesson_progress_model}
use lms_backend.Events.{publish, learning, lesson_completed}

-- The rows after an upsert of `p`: a new one behind the others, or the old one replaced where it stood.
abbrev pub rows_after :
    Option LessonProgress → Gucs → LessonProgress → List LessonProgress → List LessonProgress
rows_after none g p rows = rows ++ p ∷ []
rows_after (some old) g p rows =
    map (λ (r : LessonProgress). if r.id == old.id && policy g r.tenant_id then p else r) rows

-- `p` is the same row as the old one, if there was one.
abbrev pub SameRow : Option LessonProgress → LessonProgress → Type 0
SameRow none p = Unit
SameRow (some old) p =
    (p.id ≡ old.id) × ((p.tenant_id ≡ old.tenant_id) × (p.course_id ≡ old.course_id))

-- What an upsert of the progress of a user in a lesson leaves.
pub record Upserted (lesson_id user_id : Uuid) (position : ℕ) (old : Option LessonProgress)
    (w w' : World) (p : LessonProgress) : Type 0 where
  pub row : Memᴰ p w'.db.lesson_progress
  pub lesson_lem : p.lesson_id ≡ lesson_id
  pub user_lem : p.user_id ≡ user_id
  pub status_lem : p.status ≡ ProgressStatus.completed
  pub time_lem : p.completed_at ≡ some w.now
  pub position_lem : p.last_position_seconds ≡ position
  pub same_row : SameRow old p
  pub db_lem :
      w'.db ≡ record w.db { lesson_progress = rows_after old w.gucs p w.db.lesson_progress }

completed_row : Uuid → Uuid → ℕ → Lesson → Time → Uuid → Uuid → Time → LessonProgress
completed_row lesson_id user_id position lesson now tid id _ = record {
  id = id;
  tenant_id = tid;
  lesson_id = lesson_id;
  course_id = lesson.course_id;
  user_id = user_id;
  status = ProgressStatus.completed;
  last_position_seconds = position;
  completed_at = some now;
}

completed_again : ℕ → Time → LessonProgress → LessonProgress
completed_again position now old = record old {
  status = ProgressStatus.completed;
  completed_at = some now;
  last_position_seconds = position;
}

save : Option LessonProgress → Uuid → Uuid → ℕ → Lesson → Time → Action LessonProgress
unfolding completed_row completed_again
save found lesson_id user_id position lesson now =
    case_option found
      (create {Row = LessonProgress} (completed_row lesson_id user_id position lesson now))
      (λ old. do
        flush {Row = LessonProgress} (completed_again position now old)
        pure (completed_again position now old))

announce : Uuid → Uuid → Uuid → Lesson → LessonProgress → Action LessonProgress
announce t user_id lesson_id lesson p = do
  publish (some t) (some user_id) (learning (lesson_completed lesson_id lesson.course_id))
  pure p
