-- ===== src/Store/Actions.antt =====
-- A method call: state and exceptions. The state comes back after a raise too.
use lms_backend.Base.{suc, Bool, true, false, Option, none, some, List, [], ◌∷◌}
use lms_backend.Shared.Errors.{Error, Result, ok, err, runtime_error, multiple_results_found}
use lms_backend.Models.{Uuid, Time}
use lms_backend.Store.Worlds.{World, RequestContext}

abbrev pub Action : Type 0 → Type 0
Action A = World → Result A × World

module _ {A : Type 0} where
  unfoldable pub pure : A → Action A
  pure a w = (ok a, w)

  unfoldable pub raise : Error → Action A
  raise e w = (err e, w)

  unfoldable pub lift : Result A → Action A
  lift r w = (r, w)

  unfoldable pub gets : (World → A) → Action A
  gets f w = (ok (f w), w)

unfoldable pub modify : (World → World) → Action (Unit {0})
modify f w = (ok tt, f w)

abbrev pub continue : {A B : Type 0} → Result A → (A → Action B) → Action B
continue (ok a) f w = f a w
continue (err e) f w = (err e, w)

-- `if condition: raise error`
unfoldable pub raise_if : Bool → Error → Action (Unit {0})
raise_if true e w = (err e, w)
raise_if false e w = (ok tt, w)

-- `if o is None: ... else: ...`
unfoldable pub case_option : {A : Type 0} {B : Type 0} → Option A → B → (A → B) → B
case_option none n f = n
case_option (some a) n f = f a

-- `raise error` if there is nothing
unfoldable pub or_raise : {A : Type 0} → Option A → Error → Action A
or_raise none e w = (err e, w)
or_raise (some a) e w = (ok a, w)

-- `Result.scalar_one_or_none` of the ORM
abbrev pub scalar_one_or_none : {A : Type 0} → List A → Result (Option A)
scalar_one_or_none [] = ok none
scalar_one_or_none (a ∷ []) = ok (some a)
scalar_one_or_none (a ∷ b ∷ _) = err multiple_results_found

-- `datetime.now(UTC)` and `func.now()`
unfoldable pub get_now : Action Time
get_now w = (ok w.now, w)

-- `uuid.uuid4()`
unfoldable pub uuid4 : Action Uuid
uuid4 w = (ok w.next_id, record w { next_id = suc w.next_id })

unfoldable pub get_context : Action (Option RequestContext)
get_context w = (ok w.ctx, w)

abbrev pub tenant_of : Option RequestContext → Option Uuid
tenant_of none = none
tenant_of (some rc) = rc.tenant_id

unfoldable pub current_tenant_id : Action (Option Uuid)
current_tenant_id w = (ok (tenant_of w.ctx), w)

abbrev pub user_of : Option RequestContext → Option Uuid
user_of none = none
user_of (some rc) = rc.user_id

unfoldable pub current_user_id : Action (Option Uuid)
current_user_id w = (ok (user_of w.ctx), w)

abbrev pub no_tenant : Error
no_tenant = runtime_error "No tenant in context — tenant-scoped operation attempted unscoped"

unfoldable pub require_tenant_id : Action Uuid
unfolding or_raise
require_tenant_id w = or_raise (tenant_of w.ctx) no_tenant w

infixl 5 ◌>>=◌ ◌>>◌
-- Opening this opens the actions above too.
unfoldable pub ◌>>=◌ : {A B : Type 0} → Action A → (A → Action B) → Action B
unfolding pure raise lift gets modify raise_if case_option or_raise get_now uuid4 get_context
    current_tenant_id current_user_id require_tenant_id
◌>>=◌ m f w = let (r, w') = m w in continue r f w'

abbrev pub ◌>>◌ : {A B : Type 0} → Action A → Action B → Action B
m >> k = m >>= λ _. k
