-- ===== src/Auth/LogoutFinal.antt =====
-- A logout ends the session of its token.
use lms_backend.Base.{
  ◌≡◌, ◌≢◌, ◌≤◌, ◌<◌, refl, sym, ap, ◌∙◌, String, Bool, true, false, not, Option, none, some, List,
  [], ◌∷◌, All-map, filter, ◌==◌, nat_eq, string_eq, is_none, Bool-cases, inl, inr, eq_iff, arith,
  if◌then◌else◌,
}
use lms_backend.Shared.Errors.{Result, ok, err}
use lms_backend.Models.{Uuid, Time, UserSession, session_is_active}
use lms_backend.Store.{
  World, Gucs, Action, pure, raise, get_now, case_option, scalar_one_or_none, ◌>>=◌,
}
use lms_backend.Store.Runs.{
  scalar_one_or_none-none, bind-Reads, Reads-ok, now_still, scalar_one_or_none-some,
}
use lms_backend.Database.{flush, policy}
use lms_backend.Database.Tables.{user_session_model}
use lms_backend.External.{External, TokenPayload}
use lms_backend.Security.{decode_token, try_token}
use lms_backend.Security.Tokens.{Read, Read-encoded}
use lms_backend.Auth.Schemas.{TokenResponse}
use lms_backend.Auth.Repositories.{get_by_jti}
use lms_backend.Auth.Service.{refresh, logout_session, logout, unauthenticated}
use lms_backend.Auth.Rotation.{visible, Closed, get_by_jti-rows, refresh_session-Closed}
use lms_backend.Auth.Revocation.{
  none_pass, one_passes, unseen_closed, last_closed, flush-sessions, revoke-IsSpent,
}
use lms_backend.Auth.SingleUse.{get_by_jti_still, refresh_encoded}

-- Where a query finds nothing, or only a closed session, nothing is open.
unseen-Closed :
    (g : Gucs) (jti : Uuid) (rows : List UserSession)
    → filter (visible g jti) rows ≡ []
    → Closed g jti rows
unseen-Closed g jti rows h =
    All-map _ _
      (λ s unmatched.
        unseen_closed (policy g s.tenant_id) (s.jti == jti) (is_none s.revoked_at) unmatched)
      rows (none_pass (visible g jti) rows h)

not-true : (b : Bool) → not b ≡ true → b ≡ false
not-true b h = ground arith

revoked : UserSession → Bool
revoked s = not (is_none s.revoked_at)

one-Closed :
    (g : Gucs) (jti : Uuid) (s : UserSession) (rows : List UserSession)
    → filter (visible g jti) rows ≡ s ∷ []
    → is_none s.revoked_at ≡ false
    → Closed g jti rows
unfolding revoked
one-Closed g jti s rows one h =
    All-map _ _
      (λ (r : UserSession) e. elim e [
        | inl unmatched ↦
            unseen_closed (policy g r.tenant_id) (r.jti == jti) (is_none r.revoked_at) unmatched
        | inr shut ↦
            last_closed (policy g r.tenant_id) (r.jti == jti) (is_none r.revoked_at)
              (not-true _ shut)
      ])
      rows (one_passes (visible g jti) revoked s rows one (rw h refl))

abbrev Ends : {A : Type 0} → Uuid → World → Result A × World → Type 0
Ends jti w o = (o.1.gucs ≡ w.gucs) × Closed w.gucs jti o.1.db.user_sessions

string_ne : (a b : String) → a ≢ b → (a == b) ≡ false
string_ne a b h = elim (Bool-cases (a == b)) [ inl e ↦ absurd (h ((eq_iff a b).0 e)) | inr e ↦ e ]

module _ (x : External) where
  revoke_found : Time → Option UserSession → Action (Unit {0})
  revoke_found now found = case_option found (pure tt) (λ session.
      if session_is_active session
      then flush {Row = UserSession} (record session { revoked_at = some now })
      else pure tt)

  revoke_found-Ends :
      (jti : Uuid) (now : Time) (found : Option UserSession) (w : World) (u : Unit {0})
      → scalar_one_or_none (filter (visible w.gucs jti) w.db.user_sessions) ≡ ok found
      → (revoke_found now found w).0 ≡ ok u
      → Ends jti w (revoke_found now found w)
  unfolding revoke_found case_option pure session_is_active
  revoke_found-Ends jti now none w u one h =
      (refl, unseen-Closed w.gucs jti w.db.user_sessions (scalar_one_or_none-none _ one))
  revoke_found-Ends jti now (some s) w u one h = elim (Bool-cases (is_none s.revoked_at)) [
    | inl e ↦
        let obj = record s { revoked_at = some now } in
        let sent : (flush {Row = UserSession} obj w).0 ≡ ok u = rw e at h in
        let after = flush-sessions obj w u sent in
        let closed = (revoke-IsSpent jti now s w (scalar_one_or_none-some _ s one)).closed in
        rw (e, after) (refl, closed)
    | inr e ↦
        rw e (refl, one-Closed w.gucs jti s w.db.user_sessions (scalar_one_or_none-some _ s one) e)
  ]

  logout_session-Ends :
      (p : TokenPayload) (w : World) (u : Unit {0})
      → (logout_session x p w).0 ≡ ok u
      → Ends p.jti w (logout_session x p w)
  unfolding logout_session get_now revoke_found
  logout_session-Ends p w u h =
      let m = get_by_jti p.jti in
      let rest = λ (found : Option UserSession). get_now >>= λ now. revoke_found now found in
      let a = bind-Reads m rest w u h (get_by_jti_still p.jti w) in
      let b =
        bind-Reads get_now (λ now. revoke_found now a.value) w u (Reads-ok m rest w a u h)
          (now_still w) in
      let e = a.rest ∙ b.rest in
      rw e (
        revoke_found-Ends p.jti b.value a.value w u (get_by_jti-rows p.jti w a.value a.first)
          (ap (λ o. o.0) (sym e) ∙ h))

  -- A token that a refresh accepts is a refresh token that has not expired.
  refresh_early :
      (p : TokenPayload) (w : World) (r : TokenResponse)
      → (refresh x (x.encode w.settings.jwt_secret_key p) w).0 ≡ ok r
      → (w.now < p.exp) × ((p.type == "refresh") ≡ true)
  unfolding refresh try_token decode_token raise
  refresh_early p w r h = elim (Read-encoded x w.settings.jwt_secret_key w.now p) [
    | Read.in_time made early read ↦ elim (Bool-cases (p.type == "refresh")) [
      | inl e ↦ (early, e)
      | inr e ↦
          let bad : err (unauthenticated "Unexpected token type") ≡ ok r = rw (read, e) at h in
          ground arith
    ]
    | Read.too_late made late read ↦
        let bad : err (unauthenticated "Token expired") ≡ ok r = rw read at h in ground arith
    | Read.too_early early read ↦
        let bad : err (unauthenticated "Invalid token") ≡ ok r = rw read at h in ground arith
  ]

  pub logout_encoded :
      (p : TokenPayload) (w : World)
      → x.encode w.settings.jwt_secret_key p ≢ ""
      → p.iat ≤ w.now
      → w.now < p.exp
      → (p.type == "refresh") ≡ true
      → logout x (some (x.encode w.settings.jwt_secret_key p)) w ≡ logout_session x p w
  unfolding logout try_token decode_token case_option pure
  logout_encoded p w written made early type =
      let read = x.decode-encode w.settings.jwt_secret_key w.now p made early in
      let full = string_ne (x.encode w.settings.jwt_secret_key p) "" written in
      rw (full, read, type) refl

  -- After a logout that returns, in a transaction that has the settings for row-level security of the logout's
  -- (so of the same tenant, where it had one), by a token that is not empty and was made by then, no
  -- refresh by the token succeeds, as long as the key is the same and the sessions are those that the
  -- logout left, whether the logout saw an open session, a revoked one or none.
  pub logout_final :
      (p : TokenPayload) (w w' : World) (u : Unit {0}) (r : TokenResponse)
      → x.encode w.settings.jwt_secret_key p ≢ ""
      → p.iat ≤ w.now
      → (logout x (some (x.encode w.settings.jwt_secret_key p)) w).0 ≡ ok u
      → w.now ≤ w'.now
      → w'.settings.jwt_secret_key ≡ w.settings.jwt_secret_key
      → w'.gucs ≡ w.gucs
      → w'.db.user_sessions
        ≡ (logout x (some (x.encode w.settings.jwt_secret_key p)) w).1.db.user_sessions
      → (refresh x (x.encode w.settings.jwt_secret_key p) w').0 ≢ ok r
  logout_final p w w' u r written made h later key gucs sessions h' =
      let h2 : (refresh x (x.encode w'.settings.jwt_secret_key p) w').0 ≡ ok r =
        ap (λ k. (refresh x (x.encode k p) w').0) key ∙ h' in
      let (early, type) = refresh_early p w' r h2 in
      let e = logout_encoded p w written made (omega (arith, later, early)) type in
      let ended = logout_session-Ends p w u (ap (λ o. o.0) (sym e) ∙ h) in
      refresh_session-Closed x p w' r
        (rw (gucs, sessions, ap (λ o. o.1.db.user_sessions) e) (ended.1))
        (ap (λ o. o.0) (sym (refresh_encoded x p w' r h2)) ∙ h2)
