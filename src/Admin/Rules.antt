-- ===== src/Admin/Rules.antt =====
-- The use-cases of the administrators of a tenant under any relation that the writes of the repositories
-- obey.
use lms_backend.Base.{String, Bool, Option, List, [], ◌∷◌}
use lms_backend.Shared.Page.{PageParams}
use lms_backend.Models.{Uuid, User}
use lms_backend.Store.{World}
use lms_backend.Store.Relations.{Obeys}
use lms_backend.Database.{Ordering}
use lms_backend.Database.Model.{Model}
use lms_backend.Database.Rules.{IsStoreRelation, store_rules}
use lms_backend.External.{External}
use lms_backend.Security.{security_rules}
use lms_backend.Events.{Obeys-publish}
use lms_backend.Auth.{auth_repository_rules, Obeys-get_by_codes}
use lms_backend.Licensing.Rules.{Obeys-enabled_codes}
use lms_backend.Courses.Rules.{course_rules}
use lms_backend.Admin.Schemas.{
  AdminLessonCreate, AdminAssignmentCreate, AdminUserCreate, AdminUserUpdate,
}
use lms_backend.Admin.Service.{
  create_lesson, chosen_roles, count, parse_due, create_assignment, list_users, create_user,
  update_user, tenant_report,
}

module _ {R : World → World → Type 0} (s : IsStoreRelation R) (x : External) where
  pub Obeys-create_lesson : (id : Uuid) (r : AdminLessonCreate) → Obeys R (create_lesson id r)
  unfolding create_lesson
  Obeys-create_lesson id r = search (store_rules, course_rules) depth 12

  Obeys-count : (Row : Type 0) ⦃m : Model Row⦄ → Obeys R (count Row)
  unfolding count
  Obeys-count Row = search store_rules

  Obeys-parse_due : (due_at : Option String) → Obeys R (parse_due x due_at)
  unfolding parse_due
  Obeys-parse_due due_at = search store_rules depth 12

  pub Obeys-create_assignment :
      (id : Uuid) (r : AdminAssignmentCreate) → Obeys R (create_assignment x id r)
  unfolding create_assignment
  Obeys-create_assignment id r = search (store_rules, course_rules, Obeys-parse_due) depth 12

  pub Obeys-list_users :
      (apply_search : String → User → Bool) (o : Ordering User) (params : PageParams)
      → Obeys R (list_users x apply_search o params)
  unfolding list_users
  Obeys-list_users apply_search o params = search store_rules

  Obeys-codes : (codes : List String) → Obeys R (chosen_roles codes)
  unfolding chosen_roles
  Obeys-codes [] = search store_rules
  Obeys-codes (c ∷ cs) = Obeys-get_by_codes s (c ∷ cs)

  pub Obeys-create_user : (r : AdminUserCreate) → Obeys R (create_user x r)
  unfolding create_user
  Obeys-create_user r =
      search (security_rules, auth_repository_rules, Obeys-codes, Obeys-publish) depth 20

  pub Obeys-update_user : (id : Uuid) (r : AdminUserUpdate) → Obeys R (update_user x id r)
  unfolding update_user
  Obeys-update_user id r = search (security_rules, auth_repository_rules, Obeys-publish) depth 20

  pub Obeys-tenant_report : Obeys R (tenant_report x)
  unfolding tenant_report
  Obeys-tenant_report = search (store_rules, Obeys-enabled_codes, Obeys-count) depth 20

pub ruleset admin_rules = (
  Obeys-create_lesson, Obeys-create_assignment, Obeys-list_users, Obeys-create_user,
  Obeys-update_user, Obeys-tenant_report,
)
