-- ===== src/Dashboard/Rules.antt =====
-- The dashboard under any relation that the writes of the repositories obey.
use lms_backend.Base.{Bool}
use lms_backend.Models.{Uuid, AuditLog}
use lms_backend.Store.{World}
use lms_backend.Store.Relations.{Obeys}
use lms_backend.Database.{Ordering}
use lms_backend.Database.Model.{Model}
use lms_backend.Database.Rules.{IsStoreRelation, store_rules}
use lms_backend.Dashboard.{count_where, enrolled_courses, count_pending, recent_audits, for_user}

module _ {R : World → World → Type 0} (s : IsStoreRelation R) where
  Obeys-count_where :
      {Row : Type 0} ⦃m : Model Row⦄ (condition : Row → Bool) → Obeys R (count_where condition)
  unfolding count_where
  Obeys-count_where condition = search store_rules

  Obeys-enrolled_courses : (user_id : Uuid) → Obeys R (enrolled_courses user_id)
  unfolding enrolled_courses
  Obeys-enrolled_courses user_id = search store_rules

  Obeys-count_pending : (user_id : Uuid) → Obeys R (count_pending user_id)
  unfolding count_pending
  Obeys-count_pending user_id = search (store_rules, Obeys-enrolled_courses)

  Obeys-recent_audits : (o : Ordering AuditLog) (user_id : Uuid) → Obeys R (recent_audits o user_id)
  unfolding recent_audits
  Obeys-recent_audits o user_id = record { at = λ w. s.preorder.refl_lem w }

  pub Obeys-for_user : (o : Ordering AuditLog) (user_id : Uuid) → Obeys R (for_user o user_id)
  unfolding for_user
  Obeys-for_user o user_id =
      search (store_rules, Obeys-count_where, Obeys-count_pending, Obeys-recent_audits) depth 20
