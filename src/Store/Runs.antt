-- ===== src/Store/Runs.antt =====
-- How a sequence of two actions runs.
use lms_backend.Base.{
  ◌≡◌, refl, sym, ap, ◌∙◌, Bool, true, false, Option, none, some, List, [], ◌∷◌, arith,
  if◌then◌else◌,
}
use lms_backend.Shared.Errors.{Error, Result, ok, err}
use lms_backend.Models.{Uuid}
use lms_backend.Store.Worlds.{World}
use lms_backend.Store.Actions.{
  Action, continue, get_now, require_tenant_id, tenant_of, raise_if, or_raise, modify, pure, lift,
  scalar_one_or_none, ◌>>=◌,
}

-- The first action returned `value`, and the second one went on from there.
pub record Passes {A B : Type 0} (m : Action A) (f : A → Action B) (w : World) : Type 0 where
  pub value : A
  pub first : (m w).0 ≡ ok value
  pub rest : (m >>= f) w ≡ f value (m w).1

module _ {A B : Type 0} (m : Action A) (f : A → Action B) (w : World) where
  continue-first :
      (r : Result A) (w' : World) (b : B)
      → (continue r f w').0 ≡ ok b
      → (a : A) × ((r ≡ ok a) × (continue r f w' ≡ f a w'))
  continue-first (ok a) w' b h = (a, (refl, refl))
  continue-first (err e) w' b h = ground arith

  -- A sequence that returns has passed its first action.
  pub bind-ok : (b : B) → ((m >>= f) w).0 ≡ ok b → Passes m f w
  unfolding ◌>>=◌
  bind-ok b h =
      let (a, (first, rest)) = continue-first (m w).0 (m w).1 b h in
      record { value = a; first = first; rest = rest }

  pub bind-value : (a : A) → (m w).0 ≡ ok a → (m >>= f) w ≡ f a (m w).1
  unfolding ◌>>=◌
  bind-value a h = ap (λ r. continue r f (m w).1) h

  pub bind-error : (e : Error) → (m w).0 ≡ err e → (m >>= f) w ≡ (err e, (m w).1)
  unfolding ◌>>=◌
  bind-error e h = ap (λ r. continue r f (m w).1) h

  -- What holds of the value that comes out holds of what the second action returned.
  pub Passes-ok : (p : Passes m f w) (b : B) → ((m >>= f) w).0 ≡ ok b → (f p.value (m w).1).0 ≡ ok b
  Passes-ok p b h = ap (λ r. r.0) (sym p.rest) ∙ h

pub lift-ok : {A : Type 0} (r : Result A) (w : World) → lift r w ≡ (r, w)
unfolding lift
lift-ok r w = refl

pub or_raise-ok :
    {A : Type 0} (o : Option A) (e : Error) (w : World) (a : A)
    → (or_raise o e w).0 ≡ ok a
    → (o ≡ some a) × ((or_raise o e w).1 ≡ w)
unfolding or_raise
or_raise-ok none e w a h = ground arith
or_raise-ok (some b) e w a h = (ground arith, refl)

pub raise_if-ok :
    (b : Bool) (e : Error) (w : World) (a : Unit {0})
    → (raise_if b e w).0 ≡ ok a
    → (b ≡ false) × ((raise_if b e w).1 ≡ w)
unfolding raise_if
raise_if-ok true e w a h = ground arith
raise_if-ok false e w a h = (refl, refl)

-- A query that found one row.
pub scalar_one_or_none-some :
    {A : Type 0} (rows : List A) (a : A) → scalar_one_or_none rows ≡ ok (some a) → rows ≡ a ∷ []
scalar_one_or_none-some [] a h = ground arith
scalar_one_or_none-some (b ∷ []) a h = ground arith
scalar_one_or_none-some (b ∷ c ∷ rows) a h = ground arith

-- A query that found no row.
pub scalar_one_or_none-none :
    {A : Type 0} (rows : List A) → scalar_one_or_none rows ≡ ok none → rows ≡ []
scalar_one_or_none-none [] h = refl
scalar_one_or_none-none (a ∷ []) h = ground arith
scalar_one_or_none-none (a ∷ b ∷ rows) h = ground arith

-- A test that must pass for a value to come out.
pub if_ok :
    {A : Type 0} (b : Bool) (a c : A) (e : Error)
    → (if b then ok a else err e) ≡ ok c
    → (b ≡ true) × (a ≡ c)
if_ok true a c e h = (refl, ground arith)
if_ok false a c e h = ground arith

pub modify-pure :
    {A : Type 0} (g : World → World) (a b : A) (w : World)
    → ((modify g >>= λ _. pure a) w).0 ≡ ok b
    → a ≡ b
unfolding modify pure ◌>>=◌
modify-pure g a b w h = ground arith

pub pure-ok : {A : Type 0} (a b : A) (w : World) → (pure a w).0 ≡ ok b → a ≡ b
unfolding pure
pure-ok a b w h = ground arith

-- A first action that returned `value` and left the state as it was.
pub record Reads {A B : Type 0} (m : Action A) (f : A → Action B) (w : World) : Type 0 where
  pub value : A
  pub first : (m w).0 ≡ ok value
  pub rest : (m >>= f) w ≡ f value w

pub bind-Reads :
    {A B : Type 0} (m : Action A) (f : A → Action B) (w : World) (b : B)
    → ((m >>= f) w).0 ≡ ok b
    → (m w).1 ≡ w
    → Reads m f w
bind-Reads m f w b h still =
    let p = bind-ok m f w b h in
    record { value = p.value; first = p.first; rest = p.rest ∙ ap (f p.value) still }

pub Reads-ok :
    {A B : Type 0} (m : Action A) (f : A → Action B) (w : World) (r : Reads m f w) (b : B)
    → ((m >>= f) w).0 ≡ ok b
    → (f r.value w).0 ≡ ok b
Reads-ok m f w r b h = ap (λ o. o.0) (sym r.rest) ∙ h

pub require_tenant_id-ok :
    (w : World) (t : Uuid) → tenant_of w.ctx ≡ some t → require_tenant_id w ≡ (ok t, w)
unfolding require_tenant_id or_raise
require_tenant_id-ok w t h = rw h refl

pub pure_still : {A : Type 0} (a : A) (w : World) → pure a w ≡ (ok a, w)
unfolding pure
pure_still a w = refl

pub pure_same : {A : Type 0} (a b : A) → ok a ≡ ok b → a ≡ b
pure_same a b h = ground arith

pub raise_if_still : (b : Bool) (e : Error) (w : World) → (raise_if b e w).1 ≡ w
unfolding raise_if
raise_if_still true e w = refl
raise_if_still false e w = refl

pub now_still : (w : World) → (get_now w).1 ≡ w
unfolding get_now
now_still w = refl

pub now_value : (w : World) → (get_now w).0 ≡ ok w.now
unfolding get_now
now_value w = refl

-- The same for a first action that is known to return `a` and to leave the state as it is.
pub bind-read :
    {A B : Type 0} (m : Action A) (f : A → Action B) (w : World) (a : A)
    → (m w).0 ≡ ok a
    → (m w).1 ≡ w
    → (m >>= f) w ≡ f a w
bind-read m f w a value still = bind-value m f w a value ∙ ap (f a) still

pub raise_if-passes : (b : Bool) (e : Error) (w : World) → b ≡ false → (raise_if b e w).0 ≡ ok tt
unfolding raise_if
raise_if-passes true e w h = ground arith
raise_if-passes false e w h = refl

-- What holds of the state after the second action, whatever the first one returned, holds after both.
pub bind_after :
    {A B : Type 0} (P : World → Type 0) (m : Action A) (f : A → Action B) (w : World) (b : B)
    → ((m >>= f) w).0 ≡ ok b
    → ((a : A) → (m w).0 ≡ ok a → (f a (m w).1).0 ≡ ok b → P (f a (m w).1).1)
    → P ((m >>= f) w).1
bind_after P m f w b h k =
    let p = bind-ok m f w b h in rw (p.rest) (k p.value p.first (Passes-ok m f w p b h))

pub or_raise_still : {A : Type 0} (o : Option A) (e : Error) (w : World) → (or_raise o e w).1 ≡ w
unfolding or_raise
or_raise_still none e w = refl
or_raise_still (some a) e w = refl
