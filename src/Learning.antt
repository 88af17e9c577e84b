-- ===== src/Learning.antt =====
-- app/modules/learning: service.py and repository.py.
pub mod Progress
use lms_backend.Base.{
  ℕ, String, Bool, false, ◌&&◌, Option, none, some, List, length, take, drop, ◌==◌, nat_eq,
}
use lms_backend.Shared.Page.{PageParams, offset, limit}
use lms_backend.Models.{Uuid, Lesson, LessonProgress, ProgressStatus}
use lms_backend.Store.{World, Action, pure, get_now, case_option, require_tenant_id, ◌>>=◌, ◌>>◌}
use lms_backend.Store.Relations.{Obeys}
use lms_backend.Database.{Ordering, select_where, select_one, get_or_404, create, flush}
use lms_backend.Database.Rules.{IsStoreRelation, store_rules}
use lms_backend.Database.Tables.{lesson_model, lesson_progress_model}
use lms_backend.Events.{publish, learning, lesson_completed, Obeys-publish}

-- the rows of a course, by `order_index`
unfoldable pub list_lessons : Ordering Lesson → Uuid → Action (List Lesson)
list_lessons o course_id = do
  rows ← select_where {Row = Lesson} (λ l. l.course_id == course_id)
  pure (o.order_by "order_index" false rows)

unfoldable pub get_for_user_lesson : Uuid → Uuid → Action (Option LessonProgress)
get_for_user_lesson user_id lesson_id =
    select_one {Row = LessonProgress} (λ p. p.user_id == user_id && p.lesson_id == lesson_id)

unfoldable pub complete_lesson : Uuid → Uuid → ℕ → Action LessonProgress
complete_lesson lesson_id user_id last_position_seconds = do
  tenant_id ← require_tenant_id
  lesson ← get_or_404 {Row = Lesson} lesson_id
  found ← get_for_user_lesson user_id lesson_id
  now ← get_now
  progress ←
      case_option found
        (create {Row = LessonProgress} (λ tid id _. record {
          id = id;
          tenant_id = tid;
          lesson_id = lesson_id;
          course_id = lesson.course_id;
          user_id = user_id;
          status = ProgressStatus.completed;
          last_position_seconds = last_position_seconds;
          completed_at = some now;
        }))
        (λ old. do
          let new = record old {
            status = ProgressStatus.completed;
            completed_at = some now;
            last_position_seconds = last_position_seconds;
          }
          flush {Row = LessonProgress} new
          pure new)
  publish (some tenant_id) (some user_id) (learning (lesson_completed lesson_id lesson.course_id))
  pure progress

unfoldable pub my_progress : Uuid → PageParams → Action (List LessonProgress × ℕ)
my_progress user_id params = do
  rows ← select_where {Row = LessonProgress} (λ p. p.user_id == user_id)
  pure (take (limit params) (drop (offset params) rows), length rows)

module _ {R : World → World → Type 0} (s : IsStoreRelation R) where
  pub Obeys-list_lessons : (o : Ordering Lesson) (id : Uuid) → Obeys R (list_lessons o id)
  unfolding list_lessons
  Obeys-list_lessons o id = search store_rules

  Obeys-get_for_user_lesson : (u l : Uuid) → Obeys R (get_for_user_lesson u l)
  unfolding get_for_user_lesson
  Obeys-get_for_user_lesson u l = search store_rules

  pub Obeys-complete_lesson : (l u : Uuid) (pos : ℕ) → Obeys R (complete_lesson l u pos)
  unfolding complete_lesson
  Obeys-complete_lesson l u pos =
      search (store_rules, Obeys-get_for_user_lesson, Obeys-publish) depth 20

  pub Obeys-my_progress : (u : Uuid) (params : PageParams) → Obeys R (my_progress u params)
  unfolding my_progress
  Obeys-my_progress u params = search store_rules

pub ruleset learning_rules = (Obeys-list_lessons, Obeys-complete_lesson, Obeys-my_progress)
