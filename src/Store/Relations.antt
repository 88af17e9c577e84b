-- ===== src/Store/Relations.antt =====
-- Relations between the state before an action and the state after it, one rule for each way to
-- build an action.
use lms_backend.Base.{arith, ◌≡◌, Bool, true, false, Option, none, some, if◌then◌else◌}
use lms_backend.Shared.Errors.{Error, Result, ok, err}
use lms_backend.Store.Worlds.{World}
use lms_backend.Store.Actions.{
  get_now, get_context, current_tenant_id, current_user_id, require_tenant_id, Action, pure, raise,
  lift, gets, raise_if, or_raise, case_option, continue, ◌>>=◌,
}

-- The relation holds of doing nothing, and of doing one thing after another.
pub record IsPreorder (R : World → World → Type 0) : Type 0 where
  pub refl_lem : (w : World) → R w w
  pub trans : (u v w : World) → R u v → R v w → R u w

-- `m` relates every state to the state that it leaves, whether it returns or raises.
pub record Obeys {A : Type 0} (R : World → World → Type 0) (m : Action A) : Type 0 where
  pub at : (w : World) → R w (m w).1

module _ {R : World → World → Type 0} (pre : IsPreorder R) where
  pub Obeys-pure : {A : Type 0} (a : A) → Obeys R (pure a)
  unfolding pure
  Obeys-pure a = record { at = pre.refl_lem }

  pub Obeys-raise : {A : Type 0} (e : Error) → Obeys R (raise {A = A} e)
  unfolding raise
  Obeys-raise e = record { at = pre.refl_lem }

  pub Obeys-lift : {A : Type 0} (r : Result A) → Obeys R (lift r)
  unfolding lift
  Obeys-lift r = record { at = pre.refl_lem }

  pub Obeys-gets : {A : Type 0} (f : World → A) → Obeys R (gets f)
  unfolding gets
  Obeys-gets f = record { at = pre.refl_lem }

  pub Obeys-get_now : Obeys R get_now
  unfolding get_now
  Obeys-get_now = record { at = pre.refl_lem }

  pub Obeys-get_context : Obeys R get_context
  unfolding get_context
  Obeys-get_context = record { at = pre.refl_lem }

  pub Obeys-current_tenant_id : Obeys R current_tenant_id
  unfolding current_tenant_id
  Obeys-current_tenant_id = record { at = pre.refl_lem }

  pub Obeys-current_user_id : Obeys R current_user_id
  unfolding current_user_id
  Obeys-current_user_id = record { at = pre.refl_lem }

  pub Obeys-continue :
      {A B : Type 0} (r : Result A) (f : A → Action B)
      → ((a : A) → Obeys R (f a))
      → Obeys R (continue r f)
  Obeys-continue (ok a) f h = h a
  Obeys-continue (err e) f h = record { at = pre.refl_lem }

  pub Obeys-bind :
      {A B : Type 0} (m : Action A) (f : A → Action B)
      → Obeys R m
      → ((a : A) → Obeys R (f a))
      → Obeys R (m >>= f)
  unfolding ◌>>=◌
  Obeys-bind m f hm hf = record {
    at = λ w.
        let (r, w') = m w in
        pre.trans w w' (continue r f w').1 (hm.at w) ((Obeys-continue r f hf).at w');
  }

  pub Obeys-if :
      {A : Type 0} (b : Bool) (m n : Action A)
      → Obeys R m
      → Obeys R n
      → Obeys R (if b then m else n)
  Obeys-if true m n hm hn = hm
  Obeys-if false m n hm hn = hn

  pub Obeys-case_option :
      {A B : Type 0} (o : Option A) (n : Action B) (f : A → Action B)
      → Obeys R n
      → ((a : A) → Obeys R (f a))
      → Obeys R (case_option o n f)
  unfolding case_option
  Obeys-case_option none n f hn hf = hn
  Obeys-case_option (some a) n f hn hf = hf a

  pub Obeys-raise_if : (b : Bool) (e : Error) → Obeys R (raise_if b e)
  unfolding raise_if
  Obeys-raise_if true e = record { at = pre.refl_lem }
  Obeys-raise_if false e = record { at = pre.refl_lem }

  pub Obeys-or_raise : {A : Type 0} (o : Option A) (e : Error) → Obeys R (or_raise o e)
  unfolding or_raise
  Obeys-or_raise none e = record { at = pre.refl_lem }
  Obeys-or_raise (some a) e = record { at = pre.refl_lem }

  of_still : {A : Type 0} (m : Action A) → ((w : World) → (m w).1 ≡ w) → Obeys R m
  of_still m h = record { at = λ w. rw (h w) (pre.refl_lem w) }

  pub Obeys-require_tenant_id : Obeys R require_tenant_id
  unfolding require_tenant_id or_raise
  Obeys-require_tenant_id = of_still require_tenant_id (λ w. ground arith)

pub ruleset obeys_rules = (
  Obeys-pure, Obeys-raise, Obeys-lift, Obeys-gets, Obeys-get_now, Obeys-get_context,
  Obeys-current_tenant_id, Obeys-current_user_id, Obeys-bind, Obeys-if, Obeys-case_option,
  Obeys-raise_if, Obeys-or_raise, Obeys-require_tenant_id,
)
