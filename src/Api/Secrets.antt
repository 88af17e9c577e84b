-- ===== src/Api/Secrets.antt =====
-- What the answer to a request for a password reset shows.
use lms_backend.Base.{
  ◌≡◌, refl, sym, ap, ◌∙◌, ℕ, String, Bool, true, Option, none, some, string_eq, arith,
  if◌then◌else◌,
}
use lms_backend.Shared.Errors.{ok}
use lms_backend.Models.{Uuid}
use lms_backend.Store.{World, Key, case_option, pure, gets, uuid4}
use lms_backend.Store.Relations.{IsPreorder, Obeys, obeys_rules}
use lms_backend.Store.Runs.{bind-ok, Passes-ok, pure-ok, pure_same}
use lms_backend.Database.Visible.{select_one_still}
use lms_backend.Database.Tables.{user_model}
use lms_backend.Database.Sessions.{get_db, request_gucs, settle_value}
use lms_backend.Config.{is_production}
use lms_backend.External.{External}
use lms_backend.RateLimit.{incr_key, expire_key, count_hit, limit}
use lms_backend.Auth.{get_by_email, remember, forgot_password}
use lms_backend.Api.Routes.{Queries, Response, reset_token, open_to_all, post_forgot_password}
use lms_backend.Api.Endpoints.{
  shows_token, sent, handle_public, limited_path, guard_rate, guard_module, run_endpoint, serve,
}

record SameSettings (w w' : World) : Type 0 where
  settings : w'.settings ≡ w.settings

same_settings : IsPreorder SameSettings
same_settings = record {
  refl_lem = λ w. record { settings = refl };
  trans = λ u v w h k. record { settings = k.settings ∙ h.settings };
}

module _ (x : External) (q : Queries) where
  get_by_email-SameSettings : (email : String) → Obeys SameSettings (get_by_email email)
  unfolding get_by_email
  get_by_email-SameSettings email = record {
    at = λ w. record { settings = ap (λ (v : World). v.settings) (select_one_still _ w) };
  }

  uuid4-SameSettings : Obeys SameSettings uuid4
  unfolding uuid4
  uuid4-SameSettings = record { at = λ w. record { settings = refl } }

  remember-SameSettings : (token : String) (t u : Uuid) → Obeys SameSettings (remember x token t u)
  unfolding remember case_option
  remember-SameSettings token t u = record { at = λ w. record { settings = ground arith } }

  forgot_password-SameSettings : (email : String) → Obeys SameSettings (forgot_password x email)
  unfolding forgot_password
  forgot_password-SameSettings email =
      search
        (
          obeys_rules, same_settings, get_by_email-SameSettings, uuid4-SameSettings,
          remember-SameSettings,
        )
        depth 20

  incr_key-SameSettings : (k : Key) → Obeys SameSettings (incr_key x k)
  unfolding incr_key case_option
  incr_key-SameSettings k = record { at = λ w. record { settings = ground arith } }

  expire_key-SameSettings : (k : Key) (n : ℕ) → Obeys SameSettings (expire_key x k n)
  unfolding expire_key case_option
  expire_key-SameSettings k n = record { at = λ w. record { settings = ground arith } }

  guard_rate-SameSettings : (path : Option String) → Obeys SameSettings (guard_rate x q path)
  unfolding guard_rate limit count_hit
  guard_rate-SameSettings none = search (obeys_rules, same_settings)
  guard_rate-SameSettings (some path) =
      search (obeys_rules, same_settings, incr_key-SameSettings, expire_key-SameSettings) depth 24

  hidden :
      (found : Option String) (production : Bool)
      → production ≡ true
      → case_option found sent (λ t. if shows_token production t then reset_token t else sent)
        ≡ sent
  unfolding case_option
  hidden none production h = refl
  hidden (some t) production h = rw h (ground arith)

  asks_hidden :
      (email : String) (w : World) (r : Response)
      → (handle_public x q (post_forgot_password email) w).0 ≡ ok r
      → is_production w.settings ≡ true
      → r ≡ sent
  unfolding handle_public gets
  asks_hidden email w r h production =
      let m = forgot_password x email in
      let a = bind-ok m _ w r h in
      let ha = Passes-ok _ _ w a r h in
      let b = bind-ok (gets (λ w. is_production w.settings)) _ (m w).1 r ha in
      let shown = pure-ok _ r _ (Passes-ok _ _ (m w).1 b r ha) in
      let same : b.value ≡ true =
        pure_same _ _ (sym b.first)
        ∙ (ap is_production ((forgot_password-SameSettings email).at w).settings ∙ production) in
      sym shown ∙ hidden a.value b.value same

  -- In production the answer to a request for a password reset is the same whether the address is known or
  -- not, and shows no token.
  pub forgot_password_hides :
      (email : String) (credentials : Option String) (w : World) (r : Response)
      → is_production w.settings ≡ true
      → (serve x q (open_to_all (post_forgot_password email)) credentials w).0 ≡ ok r
      → r ≡ sent
  unfolding serve get_db run_endpoint guard_module limited_path pure
  forgot_password_hides email credentials w r production h =
      let w0 = record w { gucs = request_gucs w } in
      let e = open_to_all (post_forgot_password email) in
      let (result, w') = run_endpoint x q e credentials w0 in
      let ran = sym (settle_value w result w') ∙ h in
      let guard = guard_rate x q (some "/auth/forgot-password") in
      let a = bind-ok guard _ w0 r ran in
      let ha = Passes-ok _ _ w0 a r ran in
      let w1 = (guard w0).1 in
      asks_hidden email w1 r (Passes-ok _ _ w1 (bind-ok (guard_module x q none) _ w1 r ha) r ha)
        (ap is_production ((guard_rate-SameSettings _).at w0).settings ∙ production)
