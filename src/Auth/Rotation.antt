-- ===== src/Auth/Rotation.antt =====
-- A refresh token can be used once.
use lms_backend.Base.{
  ◌≡◌, ◌≢◌, sym, ap, ◌∙◌, String, Bool, true, false, ◌&&◌, ◌||◌, Option, some, List, [], ◌∷◌, ◌++◌,
  All, All-append, filter, any, ◌==◌, nat_eq, is_none, Bool-cases, inl, inr, arith,
}
use lms_backend.Shared.Errors.{ok}
use lms_backend.Models.{Uuid, Time, User, UserSession, session_is_active}
use lms_backend.Store.{World, Gucs, lift, get_now, uuid4, scalar_one_or_none, ◌>>=◌}
use lms_backend.Store.Runs.{bind-ok, Passes-ok}
use lms_backend.Auth.Schemas.{TokenResponse}
use lms_backend.Store.Relations.{IsPreorder, Obeys, obeys_rules}
use lms_backend.Database.{clashes, add, execute, policy}
use lms_backend.Database.Tables.{user_model, role_model, user_session_model}
use lms_backend.External.{External, TokenPayload}
use lms_backend.Security.{create_access_token, create_refresh_token, encode_token}
use lms_backend.Auth.Repositories.{get_by_jti}
use lms_backend.Auth.Service.{issue_tokens, refresh_session, check_session}

-- A row that a transaction with these settings sees under the id, and that is not revoked.
abbrev pub is_open : Gucs → Uuid → UserSession → Bool
is_open g jti s = policy g s.tenant_id && (s.jti == jti) && is_none s.revoked_at

abbrev pub Closed : Gucs → Uuid → List UserSession → Type 0
Closed g jti rows = All (λ s. is_open g jti s ≡ false) rows

abbrev pub visible : Gucs → Uuid → UserSession → Bool
visible g jti s = policy g s.tenant_id && s.jti == jti

last_false : (a b c : Bool) → (a && b) ≡ true → (a && b && c) ≡ false → c ≡ false
last_false a b c h k = ground arith

Closed-filter :
    (g : Gucs) (jti : Uuid) (rows : List UserSession)
    → Closed g jti rows
    → All (λ s. is_none s.revoked_at ≡ false) (filter (visible g jti) rows)
unfolding policy
Closed-filter g jti [] c = tt
Closed-filter g jti (s ∷ rows) c = elim (Bool-cases (visible g jti s)) [
  | inl e ↦ rw e (
    last_false (policy g s.tenant_id) (s.jti == jti) (is_none s.revoked_at) e c.0,
    Closed-filter g jti rows c.1,
  )
  | inr e ↦ rw e (Closed-filter g jti rows c.1)
]

pub get_by_jti-rows :
    (jti : Uuid) (w : World) (found : Option UserSession)
    → (get_by_jti jti w).0 ≡ ok found
    → scalar_one_or_none (filter (visible w.gucs jti) w.db.user_sessions) ≡ ok found
unfolding get_by_jti execute lift ◌>>=◌
get_by_jti-rows jti w found h = h

module _ (x : External) where
  check_session-closed :
      (now : Time) (rows : List UserSession) (found : Option UserSession) (s : UserSession)
      → All (λ s. is_none s.revoked_at ≡ false) rows
      → scalar_one_or_none rows ≡ ok found
      → check_session x now found ≢ ok s
  unfolding check_session session_is_active
  check_session-closed now [] found s c h k = ground arith
  check_session-closed now (r ∷ []) found s c h k =
      let f : found ≡ some r = ground arith in
      let bad : check_session x now (some r) ≡ ok s = ap (check_session x now) (sym f) ∙ k in
      ground (arith, c.0, bad)
  check_session-closed now (r ∷ t ∷ rows) found s c h k = ground arith

  -- If the tables hold no session under the id of the token that is still open, a refresh by it fails.
  pub refresh_session-Closed :
      (p : TokenPayload) (w : World) (r : TokenResponse)
      → Closed w.gucs p.jti w.db.user_sessions
      → (refresh_session x p w).0 ≢ ok r
  unfolding refresh_session check_session lift
  refresh_session-Closed p w r c h =
      let a = bind-ok (get_by_jti p.jti) _ w r h in
      let ha = Passes-ok _ _ w a r h in
      let b = bind-ok get_now _ (get_by_jti p.jti w).1 r ha in
      let hb = Passes-ok _ _ _ b r ha in
      let d = bind-ok (lift (check_session x b.value a.value)) _ _ r hb in
      check_session-closed b.value _ a.value d.value
        (Closed-filter w.gucs p.jti w.db.user_sessions c) (get_by_jti-rows p.jti w a.value a.first)
        d.first

-- The table holds a session under the id, and none under it is open.
pub record IsSpent (g : Gucs) (jti : Uuid) (rows : List UserSession) : Type 0 where
  pub present : any (λ (s : UserSession). s.jti == jti) rows ≡ true
  pub closed : Closed g jti rows

pub record KeepsSpent (jti : Uuid) (w w' : World) : Type 0 where
  pub at : IsSpent w.gucs jti w.db.user_sessions → IsSpent w'.gucs jti w'.db.user_sessions

keeps_spent : (jti : Uuid) → IsPreorder (KeepsSpent jti)
keeps_spent jti = record {
  refl_lem = λ w. record { at = λ h. h };
  trans = λ u v w h k. record { at = λ s. k.at (h.at s) };
}

pub or_right : (a b : Bool) → (a || b) ≡ true → a ≡ false → b ≡ true
or_right a b h e = ground arith

or_false : (a b : Bool) → (a || b) ≡ false → (a ≡ false) × (b ≡ false)
or_false a b h = ground arith

closed_by : (a b c : Bool) → b ≡ false → (a && b && c) ≡ false
closed_by a b c h = ground arith

fresh_jti :
    (obj : UserSession) (jti : Uuid) (rows : List UserSession)
    → any (λ (s : UserSession). s.jti == jti) rows ≡ true
    → any (clashes obj) rows ≡ false
    → (obj.jti == jti) ≡ false
unfolding clashes
fresh_jti obj jti [] h k = ground arith
fresh_jti obj jti (r ∷ rows) h k = elim (Bool-cases (r.jti == jti)) [
  | inl e ↦ ground arith
  | inr e ↦ fresh_jti obj jti rows (or_right _ _ h e) (or_false _ _ k).1
]

any-append :
    (p : UserSession → Bool) (xs ys : List UserSession) → any p xs ≡ true → any p (xs ++ ys) ≡ true
any-append p [] ys h = ground arith
any-append p (x ∷ xs) ys h = elim (Bool-cases (p x)) [
  | inl e ↦ ground arith
  | inr e ↦ ground (arith, any-append p xs ys (or_right _ _ h e))
]

closed_or_new :
    (obj : UserSession) (jti : Uuid) (w : World)
    → IsSpent w.gucs jti w.db.user_sessions
    → any (clashes obj) w.db.user_sessions ≡ false
    → IsSpent w.gucs jti (w.db.user_sessions ++ obj ∷ [])
unfolding policy
closed_or_new obj jti w h k =
    let fresh = fresh_jti obj jti w.db.user_sessions h.present k in
    record {
      present = any-append _ w.db.user_sessions (obj ∷ []) h.present;
      closed = All-append _ w.db.user_sessions (obj ∷ []) h.closed (
        closed_by (policy w.gucs obj.tenant_id) (obj.jti == jti) (is_none obj.revoked_at) fresh,
        tt,
      );
    }

module _ (jti : Uuid) where
  -- A new session cannot take the id of another.
  add-KeepsSpent : (obj : UserSession) → Obeys (KeepsSpent jti) (add {Row = UserSession} obj)
  unfolding add
  add-KeepsSpent obj = record {
    at = λ w. record {
      at = λ h. elim (Bool-cases (policy w.gucs obj.tenant_id)) [
        | inl e ↦ elim (Bool-cases (any (clashes obj) w.db.user_sessions)) [
          | inl k ↦ rw (e, k) h
          | inr k ↦ rw (e, k) (closed_or_new obj jti w h k)
        ]
        | inr e ↦ rw e h
      ];
    };
  }

  uuid4-KeepsSpent : Obeys (KeepsSpent jti) uuid4
  unfolding uuid4
  uuid4-KeepsSpent = record { at = λ w. record { at = λ h. h } }

  pub issue_tokens-KeepsSpent :
      (x : External) (user : User) (tid : Uuid) (user_agent ip : Option String)
      → Obeys (KeepsSpent jti) (issue_tokens x user tid user_agent ip)
  unfolding issue_tokens create_access_token create_refresh_token encode_token
  issue_tokens-KeepsSpent x user tid user_agent ip =
      search (obeys_rules, keeps_spent, add-KeepsSpent, uuid4-KeepsSpent) depth 20
