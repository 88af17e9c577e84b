-- ===== src/Database/Sessions.antt =====
-- `get_db` and `tenant_session` of app/core/database/session.py: one transaction, its settings bound
-- first, committed if the code in it returns and rolled back if it raises.
use lms_backend.Base.{Bool, false, Option, none, some, ◌≡◌, refl}
use lms_backend.Shared.Errors.{Result, ok, err}
use lms_backend.Models.{Uuid}
use lms_backend.Store.{World, Gucs, RequestContext, Action, tenant_of}
use lms_backend.Store.Relations.{Obeys}
use lms_backend.Database.Policy.{bind_rls, no_gucs}
use lms_backend.Database.Constraints.{IsConsistent}
use lms_backend.Database.Consistent.{KeepsConsistent}

-- the end of a transaction that was begun in `before`. `audit_logs` stands outside `db`: the audit consumer
-- writes it in a session of its own, which a rollback here does not undo. A rollback here would also
-- undo what a `tenant_session` within a request has written, where the program has committed it; no
-- handler raises after such a session has ended.
abbrev pub settle : {A : Type 0} → World → Result A → World → Result A × World
settle before (ok a) w = (ok a, record w { gucs = before.gucs })
settle before (err e) w = (err e, record w { gucs = before.gucs; db = before.db })

unfoldable pub transaction : {A : Type 0} → Gucs → Action A → Action A
transaction g m w = let (r, w') = m (record w { gucs = g }) in settle w r w'

-- `bool(rc and rc.is_superadmin)`
abbrev pub bypass_of : Option RequestContext → Bool
bypass_of none = false
bypass_of (some rc) = rc.is_superadmin

-- the settings that `get_db` binds
abbrev pub request_gucs : World → Gucs
request_gucs w =
    bind_rls w.settings.enable_row_level_security (tenant_of w.ctx) (bypass_of w.ctx) no_gucs

unfoldable pub get_db : {A : Type 0} → Action A → Action A
unfolding transaction
get_db m w = transaction (request_gucs w) m w

unfoldable pub tenant_session : {A : Type 0} → Option Uuid → Bool → Action A → Action A
unfolding transaction
tenant_session tenant_id bypass_rls m w =
    transaction (bind_rls w.settings.enable_row_level_security tenant_id bypass_rls no_gucs) m w

settle-KeepsConsistent :
    {A : Type 0} (before : World) (r : Result A) (w : World)
    → (IsConsistent before.db → IsConsistent w.db)
    → IsConsistent before.db
    → IsConsistent (settle before r w).1.db
settle-KeepsConsistent before (ok a) w h c = h c
settle-KeepsConsistent before (err e) w h c = c

module _ {A : Type 0} (m : Action A) (h : Obeys KeepsConsistent m) where
  pub get_db-KeepsConsistent : Obeys KeepsConsistent (get_db m)
  unfolding get_db
  get_db-KeepsConsistent = record {
    at = λ w.
        let w0 = record w { gucs = request_gucs w } in
        let (r, w') = m w0 in record { at = settle-KeepsConsistent w r w' ((h.at w0).at) };
  }

  pub tenant_session-KeepsConsistent :
      (tenant_id : Option Uuid) (bypass_rls : Bool)
      → Obeys KeepsConsistent (tenant_session tenant_id bypass_rls m)
  unfolding tenant_session
  tenant_session-KeepsConsistent tenant_id bypass_rls = record {
    at = λ w.
        let w0 = record w {
          gucs = bind_rls w.settings.enable_row_level_security tenant_id bypass_rls no_gucs;
        } in
        let (r, w') = m w0 in record { at = settle-KeepsConsistent w r w' ((h.at w0).at) };
  }

pub settle_value :
    {A : Type 0} (before : World) (r : Result A) (w : World) → (settle before r w).0 ≡ r
settle_value before (ok a) w = refl
settle_value before (err e) w = refl

-- What a request answers is what it answers within its transaction.
pub get_db-value :
    {A : Type 0} (m : Action A) (w : World)
    → (get_db m w).0 ≡ (m (record w { gucs = request_gucs w })).0
unfolding get_db
get_db-value m w = let (r, w') = m (record w { gucs = request_gucs w }) in settle_value w r w'
