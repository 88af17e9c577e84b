-- ===== src/Auth/Dependencies.antt =====
-- app/modules/auth/dependencies.py
use lms_backend.Base.{
  String, not, Option, none, some, List, [], ◌∷◌, filter, any, contains, string_eq, if◌then◌else◌,
}
use lms_backend.Shared.Errors.{Result, ok, err, app, authentication, permission_denied}
use lms_backend.Models.{Uuid, User, permission_codes, role_codes}
use lms_backend.Store.{World, RequestContext, Action, pure, raise, lift, modify, ◌>>=◌, ◌>>◌}
use lms_backend.Database.{get}
use lms_backend.Database.Tables.{user_model}
use lms_backend.External.{External, TokenPayload}
use lms_backend.Security.{decode_token, try_token}

-- the context as `get_current_user` enriches it
unfoldable pub enrich : User → Uuid → RequestContext → RequestContext
unfolding permission_codes role_codes
enrich user tid rc = record rc {
  tenant_id = elim rc.tenant_id [ none ↦ some tid | some t ↦ some t ];
  roles = role_codes user;
  permissions = permission_codes user;
  user_id = some user.id;
  is_superadmin = user.is_superuser;
}

abbrev pub enrich_world : User → Uuid → World → World
enrich_world user tid w = record w {
  ctx = elim w.ctx [ none ↦ none | some rc ↦ some (enrich user tid rc) ];
}

unfoldable pub check_active : Option User → Result User
check_active none = err (app authentication "User not found or inactive")
check_active (some user) =
    if user.is_active then ok user else err (app authentication "User not found or inactive")

module _ (x : External) where
  -- the part of `get_current_user` after the token is decoded
  unfoldable pub load_user : TokenPayload → Action User
  load_user payload = do
    found ← get {Row = User} payload.sub
    user ← lift (check_active found)
    modify (enrich_world user payload.tid)
    pure user

  unfoldable pub get_current_user : Option String → Action User
  get_current_user none = raise (app authentication "Missing bearer token")
  get_current_user (some token) =
      try_token (decode_token x token (some "access")) (λ e. raise (app authentication e)) load_user

-- the guard of `require_permission`
unfoldable pub require_permission : List String → User → Result User
unfolding permission_codes
require_permission codes user =
    if user.is_superuser
    then ok user
    else elim (filter (λ c. not (contains (permission_codes user) c)) codes) [
      | [] ↦ ok user
      | _ ∷ _ ↦ err (app permission_denied "Missing permission(s)")
    ]

-- the guard of `require_role`
unfoldable pub require_role : List String → User → Result User
unfolding role_codes
require_role codes user =
    if user.is_superuser
    then ok user
    else if not (any (λ c. contains (role_codes user) c) codes)
    then err (app permission_denied "Requires role(s)")
    else ok user
