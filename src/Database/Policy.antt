-- ===== src/Database/Policy.antt =====
-- alembic/versions/0002_row_level_security.py and `_bind_rls` of app/core/database/session.py: which
-- rows of a protected table a transaction may read and write.
use lms_backend.Base.{Bool, true, false, ◌||◌, Option, none, some, List, filter, ◌==◌, nat_eq, not}
use lms_backend.Models.{Uuid}
use lms_backend.Store.{Gucs}

-- `tenant_id = NULLIF(current_setting('app.tenant_id'), '')::uuid`; nothing is equal to NULL.
abbrev pub is_current : Option Uuid → Uuid → Bool
is_current none tid = false
is_current (some t) tid = tid == t

-- `_PREDICATE`, the `USING` and the `WITH CHECK` of each policy.
unfoldable pub policy : Gucs → Uuid → Bool
policy g tid = is_current g.tenant_id tid || g.bypass_rls

-- A transaction begins with neither setting.
abbrev pub no_gucs : Gucs
no_gucs = record { tenant_id = none; bypass_rls = false }

-- `_bind_rls`, on the settings of a new transaction.
unfoldable pub bind_rls : Bool → Option Uuid → Bool → Gucs → Gucs
bind_rls false tenant_id bypass g = g
bind_rls true none bypass g = record g { bypass_rls = bypass }
bind_rls true (some t) bypass g = record { tenant_id = some t; bypass_rls = bypass }

-- The rows of the tenants other than `t`.
unfoldable pub others : {Row : Type 0} → (Row → Uuid) → Uuid → List Row → List Row
others col t rows = filter (λ r. not (col r == t)) rows
