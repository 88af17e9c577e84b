-- ===== src/Courses/Rules.antt =====
-- The use-cases of the catalog under any relation that the writes of the repositories obey.
use lms_backend.Base.{String, Bool}
use lms_backend.Models.{Uuid, Course}
use lms_backend.Store.{World}
use lms_backend.Store.Relations.{Obeys}
use lms_backend.Database.{Ordering}
use lms_backend.Database.Rules.{IsStoreRelation, store_rules}
use lms_backend.Events.{Obeys-publish}
use lms_backend.Courses.Schemas.{CourseFilter, CourseCreate, CourseUpdate}
use lms_backend.Courses.Service.{
  list_courses, get_course, get_for_user_course, enroll, create_course, update_course,
  delete_course,
}

module _ {R : World → World → Type 0} (s : IsStoreRelation R) where
  pub Obeys-list_courses :
      (apply_search : String → Course → Bool) (o : Ordering Course) (f : CourseFilter) (p : Bool)
      → Obeys R (list_courses apply_search o f p)
  unfolding list_courses
  Obeys-list_courses apply_search o f p = search store_rules

  pub Obeys-get_course : (id : Uuid) (p : Bool) → Obeys R (get_course id p)
  unfolding get_course
  Obeys-get_course id p = search store_rules

  Obeys-get_for_user_course : (u c : Uuid) → Obeys R (get_for_user_course u c)
  unfolding get_for_user_course
  Obeys-get_for_user_course u c = search store_rules

  pub Obeys-enroll : (course_id user_id : Uuid) → Obeys R (enroll course_id user_id)
  unfolding enroll
  Obeys-enroll course_id user_id =
      search (store_rules, Obeys-get_for_user_course, Obeys-publish) depth 20

  pub Obeys-create_course : (request : CourseCreate) → Obeys R (create_course request)
  unfolding create_course
  Obeys-create_course request = search (store_rules, Obeys-publish) depth 20

  pub Obeys-update_course :
      (id : Uuid) (changes : CourseUpdate) → Obeys R (update_course id changes)
  unfolding update_course
  Obeys-update_course id changes = search store_rules depth 12

  pub Obeys-delete_course : (id : Uuid) → Obeys R (delete_course id)
  unfolding delete_course
  Obeys-delete_course id = search store_rules

pub ruleset course_rules = (
  Obeys-list_courses, Obeys-get_course, Obeys-enroll, Obeys-create_course, Obeys-update_course,
  Obeys-delete_course,
)
