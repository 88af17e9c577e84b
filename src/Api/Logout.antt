-- ===== src/Api/Logout.antt =====
-- A logout whose request names no tenant.
use lms_backend.Base.{
  Bool, Option, none, some, arith, ◌≡◌, ◌≢◌, ◌≤◌, ◌<◌, refl, ◌∙◌, String, true, false, Option, none,
  some, List, [], ◌∷◌, filter, ◌==◌, string_eq, nat_eq,
}
use lms_backend.Shared.Errors.{ok}
use lms_backend.Models.{Uuid, UserSession}
use lms_backend.Store.{World, tenant_of, pure, lift, get_now, case_option, ◌>>=◌}
use lms_backend.Database.{policy, no_gucs, bind_rls, execute}
use lms_backend.Database.Tables.{user_session_model}
use lms_backend.Database.Sessions.{bypass_of, request_gucs, get_db, transaction}
use lms_backend.External.{External, TokenPayload}
use lms_backend.Auth.{logout_session, get_by_jti}
use lms_backend.Auth.Rotation.{visible}
use lms_backend.Auth.LogoutFinal.{logout_encoded}
use lms_backend.Api.Routes.{Queries, message, open_to_all, post_logout}
use lms_backend.Api.Endpoints.{
  handle_public, limited_path, guard_rate, guard_module, run_endpoint, serve,
}

unscoped-nil : (jti : Uuid) (rows : List UserSession) → filter (visible no_gucs jti) rows ≡ []
unfolding policy
unscoped-nil jti [] = refl
unscoped-nil jti (s ∷ rows) = unscoped-nil jti rows

bind_rls-unscoped :
    (enabled bypass : Bool) (t : Option Uuid)
    → enabled ≡ true
    → t ≡ none
    → bypass ≡ false
    → bind_rls enabled t bypass no_gucs ≡ no_gucs
unfolding bind_rls
bind_rls-unscoped true false none rls h k = refl
bind_rls-unscoped true true none rls h k = ground (arith, k)
bind_rls-unscoped true bypass (some t) rls h k = ground (arith, h)
bind_rls-unscoped false bypass t rls h k = ground (arith, rls)

module _ (x : External) (q : Queries) where
  logout_session-unscoped :
      (p : TokenPayload) (w : World) → w.gucs ≡ no_gucs → logout_session x p w ≡ (ok tt, w)
  unfolding logout_session get_by_jti execute lift get_now case_option pure ◌>>=◌
  logout_session-unscoped p w unscoped = rw (unscoped, unscoped-nil p.jti w.db.user_sessions) refl

  -- With row-level security, a logout whose request names no tenant answers that the user is logged out and
  -- changes nothing: the session of its token, a refresh token that is not empty and is read in its
  -- time, stays open.
  pub serve-logout_unscoped :
      (p : TokenPayload) (credentials : Option String) (w : World)
      → w.settings.enable_row_level_security ≡ true
      → tenant_of w.ctx ≡ none
      → bypass_of w.ctx ≡ false
      → x.encode w.settings.jwt_secret_key p ≢ ""
      → p.iat ≤ w.now
      → w.now < p.exp
      → (p.type == "refresh") ≡ true
      → serve x q
          (open_to_all (post_logout (some (x.encode w.settings.jwt_secret_key p))))
          credentials
          w
        ≡ (ok (message "Logged out"), w)
  unfolding serve get_db transaction run_endpoint limited_path guard_rate guard_module handle_public
      pure ◌>>=◌
  serve-logout_unscoped p credentials w rls tenant bypass written made early type =
      let w0 = record w { gucs = request_gucs w } in
      let left =
        logout_encoded x p w0 written made early type
        ∙ logout_session-unscoped p w0 (
            bind_rls-unscoped w.settings.enable_row_level_security (bypass_of w.ctx)
              (tenant_of w.ctx) rls tenant bypass) in
      rw left refl
