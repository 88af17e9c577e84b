-- ===== src/Database/Rules.antt =====
-- The methods of the repositories under any relation that their writes obey: each is walked once
-- here, and gives tenant isolation and the unique constraints alike.
use lms_backend.Base.{String, Bool, true, false, List, ◌≡◌, refl}
use lms_backend.Models.{Uuid, Time, Tenant, TenantModule}
use lms_backend.Shared.Page.{PageParams}
use lms_backend.Store.{World, Db, uuid4}
use lms_backend.Store.Relations.{IsPreorder, Obeys, obeys_rules}
use lms_backend.Database.Model.{Model, SameOutside}
use lms_backend.Database.Constraints.{IsConsistent}
use lms_backend.Database.Outside.{
  Confines, confines, add-Confines, flush-Confines, delete_row-Confines, update_where-Confines,
  SameOutside-refl,
}
use lms_backend.Database.Consistent.{
  KeepsConsistent, keeps_consistent, add-KeepsConsistent, flush-KeepsConsistent,
  delete_row-KeepsConsistent, update_where-KeepsConsistent, KeepsKeys,
}
use lms_backend.Database.Repository.{
  Ordering, execute, select_where, select_one, get, get_or_404, exists, add, create, flush,
  delete_row, delete, list_rows, update_where,
}

-- A relation that the writes of single rows obey, and whatever leaves the tables alone.
pub record IsStoreRelation (R : World → World → Type 0) : Type 1 where
  pub preorder : IsPreorder R
  pub aside : (w w' : World) → w'.db ≡ w.db → w'.gucs ≡ w.gucs → R w w'
  pub licences :
      (w : World) (rows : List TenantModule)
      → R w (record w { db = record w.db { tenant_modules = rows } })
  pub tenants :
      (w : World) (rows : List Tenant) → R w (record w { db = record w.db { tenants = rows } })
  pub adds : (Row : Type 0) (m : Model Row) (obj : Row) → Obeys R (add ⦃m = m⦄ obj)
  pub flushes : (Row : Type 0) (m : Model Row) (obj : Row) → Obeys R (flush ⦃m = m⦄ obj)
  pub updates :
      (Row : Type 0) (m : Model Row) (condition : Row → Bool) (values : Row → Row)
      → ((r : Row) → m.tenant_id (values r) ≡ m.tenant_id r)
      → KeepsKeys ⦃m = m⦄ values
      → Obeys R (update_where ⦃m = m⦄ condition values)
  pub deletes : (Row : Type 0) (m : Model Row) (obj : Row) → Obeys R (delete_row ⦃m = m⦄ obj)

-- The control-plane tables are under no policy, and under none of the constraints.
same_tables :
    (t : Uuid) (d : Db) {ts : List Tenant} {tms : List TenantModule}
    → SameOutside t d (record d { tenants = ts; tenant_modules = tms })
same_tables t d = record {
  users = refl;
  roles = refl;
  user_sessions = refl;
  courses = refl;
  course_enrollments = refl;
  lessons = refl;
  lesson_progress = refl;
  assignments = refl;
  submissions = refl;
  grades = refl;
}

same_constraints :
    (d : Db) {ts : List Tenant} {tms : List TenantModule}
    → IsConsistent d
    → IsConsistent (record d { tenants = ts; tenant_modules = tms })
same_constraints d c = record {
  users = c.users;
  roles = c.roles;
  user_sessions = c.user_sessions;
  courses = c.courses;
  course_enrollments = c.course_enrollments;
  lessons = c.lessons;
  lesson_progress = c.lesson_progress;
  assignments = c.assignments;
  submissions = c.submissions;
  grades = c.grades;
}

pub Confines-store : IsStoreRelation Confines
Confines-store = record {
  preorder = confines;
  aside = λ w w' d g. record { at = λ t e. rw (g, d) (e, SameOutside-refl t w.db) };
  licences = λ w rows. record { at = λ t e. (e, same_tables t w.db) };
  tenants = λ w rows. record { at = λ t e. (e, same_tables t w.db) };
  adds = λ Row m obj. add-Confines ⦃m = m⦄ obj;
  flushes = λ Row m obj. flush-Confines ⦃m = m⦄ obj;
  updates = λ Row m condition values keep _. update_where-Confines ⦃m = m⦄ condition values keep;
  deletes = λ Row m obj. delete_row-Confines ⦃m = m⦄ obj;
}

pub consistent_store : IsStoreRelation KeepsConsistent
consistent_store = record {
  preorder = keeps_consistent;
  aside = λ w w' d g. record { at = λ c. rw d c };
  licences = λ w rows. record { at = λ c. same_constraints w.db c };
  tenants = λ w rows. record { at = λ c. same_constraints w.db c };
  adds = λ Row m obj. add-KeepsConsistent ⦃m = m⦄ obj;
  flushes = λ Row m obj. flush-KeepsConsistent ⦃m = m⦄ obj;
  updates =
      λ Row m condition values _ keep. update_where-KeepsConsistent ⦃m = m⦄ condition values keep;
  deletes = λ Row m obj. delete_row-KeepsConsistent ⦃m = m⦄ obj;
}

module _ {R : World → World → Type 0} (s : IsStoreRelation R) where
  pub Obeys-preorder : IsPreorder R
  Obeys-preorder = s.preorder

  pub Obeys-uuid4 : Obeys R uuid4
  unfolding uuid4
  Obeys-uuid4 = record { at = λ w. s.aside w _ refl refl }

module _ {R : World → World → Type 0} (s : IsStoreRelation R) {Row : Type 0} ⦃m : Model Row⦄ where
  pub Obeys-add : (obj : Row) → Obeys R (add obj)
  Obeys-add obj = s.adds Row m obj

  pub Obeys-flush : (obj : Row) → Obeys R (flush obj)
  Obeys-flush obj = s.flushes Row m obj

  pub Obeys-delete_row : (obj : Row) → Obeys R (delete_row obj)
  Obeys-delete_row obj = s.deletes Row m obj

  pub Obeys-execute : (stmt : Row → Bool) → Obeys R (execute stmt)
  unfolding execute
  Obeys-execute stmt = record { at = λ w. s.preorder.refl_lem w }

  pub Obeys-select_where : (condition : Row → Bool) → Obeys R (select_where condition)
  unfolding select_where
  Obeys-select_where condition = record { at = λ w. s.preorder.refl_lem w }

  pub Obeys-select_one : (condition : Row → Bool) → Obeys R (select_one condition)
  unfolding select_one
  Obeys-select_one condition = search (obeys_rules, Obeys-preorder, Obeys-select_where)

  pub Obeys-get : (id : Uuid) → Obeys R (get {Row = Row} id)
  unfolding get
  Obeys-get id = Obeys-select_one _

  pub Obeys-get_or_404 : (id : Uuid) → Obeys R (get_or_404 {Row = Row} id)
  unfolding get_or_404
  Obeys-get_or_404 id = search (obeys_rules, Obeys-preorder, Obeys-get)

  pub Obeys-list_rows :
      (apply_search : String → Row → Bool) (o : Ordering Row) (params : PageParams)
      → Obeys R (list_rows apply_search o params)
  unfolding list_rows
  Obeys-list_rows apply_search o params = search (obeys_rules, Obeys-preorder, Obeys-select_where)

  pub Obeys-exists : (condition : Row → Bool) → Obeys R (exists condition)
  unfolding exists
  Obeys-exists condition = search (obeys_rules, Obeys-preorder, Obeys-select_where)

  pub Obeys-create : (model : Uuid → Uuid → Time → Row) → Obeys R (create model)
  unfolding create
  Obeys-create model = search (obeys_rules, Obeys-preorder, Obeys-uuid4, Obeys-add) depth 9

  pub Obeys-delete : (obj : Row) (hard : Bool) → Obeys R (delete obj hard)
  unfolding delete
  Obeys-delete obj true = Obeys-delete_row obj
  Obeys-delete obj false = search (obeys_rules, Obeys-preorder, Obeys-delete_row, Obeys-flush)

pub ruleset store_rules = (
  obeys_rules, Obeys-preorder, Obeys-uuid4, Obeys-execute, Obeys-select_where, Obeys-select_one,
  Obeys-get, Obeys-get_or_404, Obeys-list_rows, Obeys-exists, Obeys-create, Obeys-add, Obeys-flush,
  Obeys-delete_row, Obeys-delete,
)
