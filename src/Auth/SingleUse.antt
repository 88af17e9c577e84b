-- ===== src/Auth/SingleUse.antt =====
-- A refresh spends its token.
use lms_backend.Base.{
  ◌≡◌, ◌≢◌, refl, sym, ap, ◌∙◌, Bool, true, false, not, Option, none, some, [], ◌∷◌, filter, ◌==◌,
  nat_eq, is_none, Bool-cases, inl, inr, arith, if◌then◌else◌, ltb, string_eq,
}
use lms_backend.Shared.Errors.{Error, Result, ok, err}
use lms_backend.Models.{Uuid, Time, User, UserSession, session_is_active}
use lms_backend.Store.{World, Action, lift, raise, get_now, ◌>>=◌, ◌>>◌}
use lms_backend.Store.Runs.{bind-ok, scalar_one_or_none-some}
use lms_backend.Database.{flush, execute, get_or_404}
use lms_backend.Database.Visible.{get_or_404_still}
use lms_backend.Database.Tables.{user_model, user_session_model}
use lms_backend.External.{External, TokenPayload}
use lms_backend.Security.{decode_token, try_token}
use lms_backend.Security.Tokens.{Read, Read-encoded}
use lms_backend.Auth.Schemas.{TokenResponse}
use lms_backend.Auth.Repositories.{get_by_jti}
use lms_backend.Auth.Service.{
  refresh_session, refresh, check_session, issue_tokens, unauthenticated,
}
use lms_backend.Auth.Rotation.{
  visible, IsSpent, get_by_jti-rows, issue_tokens-KeepsSpent, refresh_session-Closed,
}
use lms_backend.Auth.Revocation.{flush-sessions, revoke-IsSpent}

two_tests :
    (a b : Bool) (r s : UserSession) (e f : Error)
    → (if a then err e else if b then err f else ok r) ≡ ok s
    → some r ≡ some s
two_tests true b r s e f h = ground arith
two_tests false true r s e f h = ground arith
two_tests false false r s e f h = ground arith

pub get_by_jti_still : (jti : Uuid) (w : World) → (get_by_jti jti w).1 ≡ w
unfolding get_by_jti execute lift ◌>>=◌
get_by_jti_still jti w = refl

abbrev SpentAfter : {A : Type 0} → Uuid → Result A × World → Type 0
SpentAfter jti o = IsSpent o.1.gucs jti o.1.db.user_sessions

module _ (x : External) where
  check_session-found :
      (now : Time) (found : Option UserSession) (s : UserSession)
      → check_session x now found ≡ ok s
      → found ≡ some s
  unfolding check_session session_is_active
  check_session-found now none s h = ground arith
  check_session-found now (some r) s h =
      two_tests (not (is_none r.revoked_at)) (ltb r.expires_at now) r s _ _ h

  revoke_and_issue : Time → UserSession → TokenPayload → User → Action TokenResponse
  revoke_and_issue now session p user = do
    flush {Row = UserSession} (record session { revoked_at = some now })
    issue_tokens x user p.tid session.user_agent session.ip_address

  revoke_and_issue-IsSpent :
      (now : Time) (s : UserSession) (p : TokenPayload) (user : User) (w : World)
      (r : TokenResponse)
      → filter (visible w.gucs p.jti) w.db.user_sessions ≡ s ∷ []
      → (revoke_and_issue now s p user w).0 ≡ ok r
      → SpentAfter p.jti (revoke_and_issue now s p user w)
  unfolding revoke_and_issue
  revoke_and_issue-IsSpent now s p user w r one h =
      let obj = record s { revoked_at = some now } in
      let m = flush {Row = UserSession} obj in
      let a = bind-ok m _ w r h in
      let spent : IsSpent (m w).1.gucs p.jti (m w).1.db.user_sessions =
        rw (flush-sessions obj w a.value a.first) (revoke-IsSpent p.jti now s w one) in
      rw (a.rest) (
        ((issue_tokens-KeepsSpent p.jti x user p.tid s.user_agent s.ip_address).at (m w).1).at
          spent)

  load_and_revoke-IsSpent :
      (now : Time) (s : UserSession) (p : TokenPayload) (w : World) (r : TokenResponse)
      → filter (visible w.gucs p.jti) w.db.user_sessions ≡ s ∷ []
      → ((get_or_404 {Row = User} p.sub >>= revoke_and_issue now s p) w).0 ≡ ok r
      → SpentAfter p.jti ((get_or_404 {Row = User} p.sub >>= revoke_and_issue now s p) w)
  load_and_revoke-IsSpent now s p w r one h =
      let a = bind-ok (get_or_404 {Row = User} p.sub) (revoke_and_issue now s p) w r h in
      let e = a.rest ∙ ap (revoke_and_issue now s p a.value) (get_or_404_still User p.sub w) in
      rw e (revoke_and_issue-IsSpent now s p a.value w r one (ap (λ o. o.0) (sym e) ∙ h))

  -- A refresh that succeeds leaves its token spent.
  refresh_session-IsSpent :
      (p : TokenPayload) (w : World) (r : TokenResponse)
      → (refresh_session x p w).0 ≡ ok r
      → SpentAfter p.jti (refresh_session x p w)
  unfolding refresh_session lift get_now revoke_and_issue
  refresh_session-IsSpent p w r h =
      let rest = λ (now : Time) (found : Option UserSession).
        lift (check_session x now found) >>= λ s.
        get_or_404 {Row = User} p.sub >>= revoke_and_issue now s p in
      let a = bind-ok (get_by_jti p.jti) _ w r h in
      let e =
        a.rest ∙ ap (λ v. (get_now >>= λ now. rest now a.value) v) (get_by_jti_still p.jti w) in
      let b = bind-ok get_now (λ now. rest now a.value) w r (ap (λ o. o.0) (sym e) ∙ h) in
      let e2 = e ∙ b.rest in
      let d = bind-ok (lift (check_session x b.value a.value)) _ w r (ap (λ o. o.0) (sym e2) ∙ h) in
      let e3 = e2 ∙ d.rest in
      let found = check_session-found b.value a.value d.value d.first in
      let one =
        scalar_one_or_none-some _ d.value (get_by_jti-rows p.jti w a.value a.first ∙ ap ok found) in
      rw e3 (load_and_revoke-IsSpent b.value d.value p w r one (ap (λ o. o.0) (sym e3) ∙ h))

  pub refresh_encoded :
      (p : TokenPayload) (w : World) (r : TokenResponse)
      → (refresh x (x.encode w.settings.jwt_secret_key p) w).0 ≡ ok r
      → refresh x (x.encode w.settings.jwt_secret_key p) w ≡ refresh_session x p w
  unfolding refresh try_token decode_token raise
  refresh_encoded p w r h = elim (Read-encoded x w.settings.jwt_secret_key w.now p) [
    | Read.in_time made early read ↦ elim (Bool-cases (p.type == "refresh")) [
      | inl e ↦ rw (read, e) refl
      | inr e ↦
          let bad : err (unauthenticated "Unexpected token type") ≡ ok r = rw (read, e) at h in
          ground arith
    ]
    | Read.too_late made late read ↦
        let bad : err (unauthenticated "Token expired") ≡ ok r = rw read at h in ground arith
    | Read.too_early early read ↦
        let bad : err (unauthenticated "Invalid token") ≡ ok r = rw read at h in ground arith
  ]

  -- A refresh token that was exchanged once is refused from then on: as long as the key and the settings
  -- of the transaction are the same and the sessions are those that the exchange left, a second exchange
  -- never succeeds, at whatever time and in whatever state of the rest.
  pub refresh-once :
      (p : TokenPayload) (w w' : World) (r r' : TokenResponse)
      → (refresh x (x.encode w.settings.jwt_secret_key p) w).0 ≡ ok r
      → w'.settings.jwt_secret_key ≡ w.settings.jwt_secret_key
      → w'.gucs ≡ (refresh x (x.encode w.settings.jwt_secret_key p) w).1.gucs
      → w'.db.user_sessions
        ≡ (refresh x (x.encode w.settings.jwt_secret_key p) w).1.db.user_sessions
      → (refresh x (x.encode w.settings.jwt_secret_key p) w').0 ≢ ok r'
  refresh-once p w w' r r' h key gucs sessions h' =
      let e = refresh_encoded p w r h in
      let spent = refresh_session-IsSpent p w r (ap (λ o. o.0) (sym e) ∙ h) in
      let h2 : (refresh x (x.encode w'.settings.jwt_secret_key p) w').0 ≡ ok r' =
        ap (λ k. (refresh x (x.encode k p) w').0) key ∙ h' in
      let e' = refresh_encoded p w' r' h2 in
      refresh_session-Closed x p w' r'
        (rw (gucs, sessions, ap (λ o. o.1.gucs) e, ap (λ o. o.1.db.user_sessions) e) (spent.closed))
        (ap (λ o. o.0) (sym e') ∙ h2)
