-- ===== src/Auth/Service.antt =====
-- `AuthService` of app/modules/auth/service.py: registration, login and the tokens.
use lms_backend.Base.{
  ◌+◌, String, Bool, true, false, not, Option, none, some, List, [], ◌∷◌, ◌==◌, nat_eq, string_eq,
  ltb, lower, is_none, if◌then◌else◌,
}
use lms_backend.Shared.Errors.{Error, Result, ok, err, app, conflict, authentication}
use lms_backend.Models.{
  Uuid, Time, User, Role, UserSession, RoleCode, role_value, session_is_active,
}
use lms_backend.Store.{
  Action, pure, raise, lift, gets, get_now, uuid4, raise_if, case_option, require_tenant_id, ◌>>=◌,
  ◌>>◌,
}
use lms_backend.Database.{add, flush, get_or_404}
use lms_backend.Database.Tables.{user_model, role_model, user_session_model}
use lms_backend.External.{External, TokenPayload}
use lms_backend.Security.{
  hash_password, verify_password, create_access_token, create_refresh_token, decode_token,
  try_token,
}
use lms_backend.Events.{publish, auth, user_registered, user_logged_in}
use lms_backend.Auth.Schemas.{RegisterRequest, LoginRequest, TokenResponse}
use lms_backend.Auth.Repositories.{get_by_email, get_by_code, get_by_jti}

abbrev pub unauthenticated : String → Error
unauthenticated message = app authentication message

abbrev pub default_roles : Option Role → List Role
default_roles none = []
default_roles (some student) = student ∷ []

-- `if not token:`
abbrev pub is_empty : Option String → Bool
is_empty none = true
is_empty (some s) = s == ""

module _ (x : External) where
  unfoldable pub register : RegisterRequest → Action User
  register request = do
    tenant_id ← require_tenant_id
    let email = lower request.email
    existing ← get_by_email email
    raise_if (not (is_none existing)) (app conflict "Email already registered")
    student ← get_by_code (role_value RoleCode.student)
    hashed_password ← hash_password x request.password
    id ← uuid4
    now ← get_now
    user ← add {Row = User} (record {
      id = id;
      tenant_id = tenant_id;
      email = email;
      hashed_password = hashed_password;
      full_name = request.full_name;
      is_active = true;
      is_verified = false;
      is_superuser = false;
      last_login_at = none;
      roles = default_roles student;
      created_at = now;
      deleted_at = none;
    })
    publish (some tenant_id) (some user.id) (auth (user_registered user.email))
    pure user

  -- the two checks of `authenticate`, on the user that was found
  unfoldable pub check_credentials : String → Option User → Result User
  unfolding verify_password
  check_credentials password none = err (unauthenticated "Invalid credentials")
  check_credentials password (some user) =
      if not (verify_password x password user.hashed_password)
      then err (unauthenticated "Invalid credentials")
      else if not user.is_active
      then err (unauthenticated "Account disabled")
      else ok user

  unfoldable pub authenticate : String → String → Action User
  authenticate email password = do
    user ← get_by_email (lower email)
    lift (check_credentials password user)

  -- `_issue_tokens`; the new session is written at once here, and by the next flush in the program
  unfoldable pub issue_tokens : User → Uuid → Option String → Option String → Action TokenResponse
  issue_tokens user tenant_id user_agent ip = do
    (refresh_token, jti) ← create_refresh_token x user.id tenant_id
    id ← uuid4
    now ← get_now
    ttl ← gets (λ w. w.settings.refresh_token_ttl_seconds)
    add {Row = UserSession} (record {
      id = id;
      tenant_id = tenant_id;
      user_id = user.id;
      jti = jti;
      user_agent = user_agent;
      ip_address = ip;
      expires_at = now + ttl;
      revoked_at = none;
    })
    access_token ← create_access_token x user.id tenant_id
    expires_in ← gets (λ w. w.settings.access_token_ttl_seconds)
    pure (record {
      access_token = access_token;
      refresh_token = refresh_token;
      token_type = "bearer";
      expires_in = expires_in;
    })

  unfoldable pub login : LoginRequest → Option String → Option String → Action TokenResponse
  login request user_agent ip = do
    tenant_id ← require_tenant_id
    user ← authenticate request.email request.password
    tokens ← issue_tokens user tenant_id user_agent ip
    now ← get_now
    flush {Row = User} (record user { last_login_at = some now })
    publish (some tenant_id) (some user.id) (auth (user_logged_in user.email))
    pure tokens

  -- the checks of `refresh` on the session that was found
  unfoldable pub check_session : Time → Option UserSession → Result UserSession
  unfolding session_is_active
  check_session now none = err (unauthenticated "Session revoked or expired")
  check_session now (some session) =
      if not (session_is_active session)
      then err (unauthenticated "Session revoked or expired")
      else if ltb session.expires_at now
      then err (unauthenticated "Refresh token expired")
      else ok session

  -- `refresh`, once the token is decoded
  unfoldable pub refresh_session : TokenPayload → Action TokenResponse
  refresh_session payload = do
    found ← get_by_jti payload.jti
    now ← get_now
    session ← lift (check_session now found)
    user ← get_or_404 {Row = User} payload.sub
    flush {Row = UserSession} (record session { revoked_at = some now })
    issue_tokens user payload.tid session.user_agent session.ip_address

  unfoldable pub refresh : String → Action TokenResponse
  refresh refresh_token =
      try_token (decode_token x refresh_token (some "refresh")) (λ e. raise (unauthenticated e))
        refresh_session

  -- `logout`, once the token is decoded
  unfoldable pub logout_session : TokenPayload → Action (Unit {0})
  logout_session payload = do
    found ← get_by_jti payload.jti
    now ← get_now
    case_option found (pure tt) (λ session.
        if session_is_active session
        then flush {Row = UserSession} (record session { revoked_at = some now })
        else pure tt)

  unfoldable pub logout : Option String → Action (Unit {0})
  logout refresh_token =
      if is_empty refresh_token
      then pure tt
      else case_option refresh_token (pure tt)
          (λ token. try_token (decode_token x token (some "refresh")) (λ _. pure tt) logout_session)
