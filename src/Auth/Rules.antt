-- ===== src/Auth/Rules.antt =====
-- The use-cases of auth under any relation that the writes of the repositories obey.
use lms_backend.Base.{String, Option, none, some, refl, arith}
use lms_backend.Models.{Uuid, User}
use lms_backend.Store.{World, modify, case_option}
use lms_backend.Store.Relations.{Obeys}
use lms_backend.Database.Rules.{IsStoreRelation, store_rules}
use lms_backend.External.{External, TokenPayload}
use lms_backend.Security.{security_rules}
use lms_backend.Events.{Obeys-publish}
use lms_backend.Auth.Schemas.{RegisterRequest, LoginRequest}
use lms_backend.Auth.Repositories.{auth_repository_rules}
use lms_backend.Auth.Service.{
  register, authenticate, issue_tokens, login, refresh_session, refresh, logout_session, logout,
}
use lms_backend.Auth.Resets.{get_reset, remember, recall, forget, forgot_password, reset_password}
use lms_backend.Auth.Dependencies.{load_user, get_current_user, enrich_world}

module _ {R : World → World → Type 0} (s : IsStoreRelation R) (x : External) where
  pub Obeys-register : (request : RegisterRequest) → Obeys R (register x request)
  unfolding register
  Obeys-register request = search (security_rules, auth_repository_rules, Obeys-publish) depth 20

  pub Obeys-authenticate : (email password : String) → Obeys R (authenticate x email password)
  unfolding authenticate
  Obeys-authenticate email password = search (security_rules, auth_repository_rules) depth 20

  pub Obeys-issue_tokens :
      (user : User) (tid : Uuid) (user_agent ip : Option String)
      → Obeys R (issue_tokens x user tid user_agent ip)
  unfolding issue_tokens
  Obeys-issue_tokens user tid user_agent ip = search security_rules depth 20

  pub Obeys-login :
      (request : LoginRequest) (user_agent ip : Option String)
      → Obeys R (login x request user_agent ip)
  unfolding login
  Obeys-login request user_agent ip =
      search (security_rules, Obeys-authenticate, Obeys-issue_tokens, Obeys-publish) depth 20

  Obeys-refresh_session : (p : TokenPayload) → Obeys R (refresh_session x p)
  unfolding refresh_session
  Obeys-refresh_session p =
      search (security_rules, auth_repository_rules, Obeys-issue_tokens) depth 20

  pub Obeys-refresh : (token : String) → Obeys R (refresh x token)
  unfolding refresh
  Obeys-refresh token = search (security_rules, Obeys-refresh_session) depth 20

  Obeys-logout_session : (p : TokenPayload) → Obeys R (logout_session x p)
  unfolding logout_session
  Obeys-logout_session p = search (security_rules, auth_repository_rules) depth 20

  pub Obeys-logout : (token : Option String) → Obeys R (logout x token)
  unfolding logout
  Obeys-logout token = search (security_rules, Obeys-logout_session) depth 20

  Obeys-get_reset : (token : String) → Obeys R (get_reset token)
  unfolding get_reset case_option
  Obeys-get_reset token = record { at = λ w. s.aside w _ (ground arith) (ground arith) }

  Obeys-remember : (token : String) (t u : Uuid) → Obeys R (remember x token t u)
  unfolding remember case_option
  Obeys-remember token t u = record { at = λ w. s.aside w _ (ground arith) (ground arith) }

  Obeys-recall : (token : String) → Obeys R (recall x token)
  unfolding recall case_option get_reset
  Obeys-recall token = record { at = λ w. s.aside w _ (ground arith) (ground arith) }

  Obeys-forget : (token : String) → Obeys R (forget x token)
  unfolding forget case_option
  Obeys-forget token = record { at = λ w. s.aside w _ (ground arith) (ground arith) }

  pub Obeys-forgot_password : (email : String) → Obeys R (forgot_password x email)
  unfolding forgot_password
  Obeys-forgot_password email = search (store_rules, auth_repository_rules, Obeys-remember) depth 20

  pub Obeys-reset_password :
      (token new_password : String) → Obeys R (reset_password x token new_password)
  unfolding reset_password
  Obeys-reset_password token new_password =
      search (security_rules, auth_repository_rules, Obeys-recall, Obeys-forget) depth 20

  Obeys-enrich : (user : User) (tid : Uuid) → Obeys R (modify (enrich_world user tid))
  unfolding modify
  Obeys-enrich user tid = record { at = λ w. s.aside w _ refl refl }

  Obeys-load_user : (p : TokenPayload) → Obeys R (load_user x p)
  unfolding load_user
  Obeys-load_user p = search (store_rules, Obeys-enrich) depth 20

  pub Obeys-get_current_user : (creds : Option String) → Obeys R (get_current_user x creds)
  unfolding get_current_user
  Obeys-get_current_user none = search store_rules
  Obeys-get_current_user (some token) = search (security_rules, Obeys-load_user) depth 20

pub ruleset auth_rules = (
  Obeys-register, Obeys-login, Obeys-refresh, Obeys-logout, Obeys-forgot_password,
  Obeys-reset_password, Obeys-get_current_user,
)
