-- ===== src/Auth/Resets.antt =====
-- Password reset, in app/modules/auth/service.py: the process's own store of reset tokens, and the two
-- use-cases.
use lms_backend.Base.{
  ◌+◌, String, not, Option, none, some, List, [], ◌∷◌, filter, ◌==◌, nat_eq, string_eq, ltb, lower,
  if◌then◌else◌,
}
use lms_backend.Shared.Errors.{ok, app, validation, not_found}
use lms_backend.Models.{Uuid, User}
use lms_backend.Store.{
  Action, ResetEntry, CacheValue, set, delete, reset, password_reset, pure, uuid4, raise_if,
  or_raise, case_option, require_tenant_id, ◌>>=◌, ◌>>◌,
}
use lms_backend.Database.{flush, get}
use lms_backend.Database.Tables.{user_model}
use lms_backend.External.{External}
use lms_backend.Security.{hash_password}
use lms_backend.Auth.Repositories.{get_by_email, revoke_all_for_user}

-- `_delete_reset`: `_reset_store.pop(token, None)`
unfoldable pub delete_reset : String → List ResetEntry → List ResetEntry
delete_reset token store = filter (λ e. not (e.token == token)) store

-- `_store_reset`
unfoldable pub store_reset : ResetEntry → List ResetEntry → List ResetEntry
unfolding delete_reset
store_reset entry store = entry ∷ delete_reset entry.token store

-- `_reset_store.get(token)`
unfoldable pub find_reset : String → List ResetEntry → Option ResetEntry
find_reset token [] = none
find_reset token (e ∷ store) = if e.token == token then some e else find_reset token store

-- `_get_reset`: an entry that has expired is deleted
unfoldable pub get_reset : String → Action (Option (Uuid × Uuid))
get_reset token w =
    case_option (find_reset token w.reset_store) (ok none, w)
      (λ e.
        if ltb e.expires w.now
        then (ok none, record w { reset_store = delete_reset token w.reset_store })
        else (ok (some (e.tenant_part, e.user_part)), w))

abbrev reset_value : CacheValue → Option (Uuid × Uuid)
reset_value (reset tenant_part user_part) = some (tenant_part, user_part)
reset_value _ = none

abbrev of_cache : Option CacheValue → Option (Uuid × Uuid)
of_cache none = none
of_cache (some v) = reset_value v

module _ (x : External) where
  -- `redis.set(...)`, or `_store_reset(...)` where there is no Redis
  unfoldable pub remember : String → Uuid → Uuid → Action (Unit {0})
  remember token tenant_id user_id w =
      let ttl = w.settings.password_reset_ttl_seconds in
      case_option w.redis
        (
          ok tt,
          record w {
            reset_store =
                store_reset
                  (record {
                    token = token;
                    tenant_part = tenant_id;
                    user_part = user_id;
                    expires = w.now + ttl;
                  })
                  w.reset_store;
          },
        )
        (λ log. (
          ok tt,
          record w {
            redis = some (set w.now (password_reset token) (reset tenant_id user_id) ttl ∷ log);
          },
        ))

  unfoldable pub recall : String → Action (Option (Uuid × Uuid))
  recall token w =
      case_option w.redis (get_reset token w)
        (λ log. (ok (of_cache (x.redis_get log w.now (password_reset token))), w))

  unfoldable pub forget : String → Action (Unit {0})
  forget token w =
      case_option w.redis (ok tt, record w { reset_store = delete_reset token w.reset_store })
        (λ log. (ok tt, record w { redis = some (delete w.now (password_reset token) ∷ log) }))

  unfoldable pub forgot_password : String → Action (Option String)
  forgot_password email = do
    tenant_id ← require_tenant_id
    user ← get_by_email (lower email)
    case_option user (pure none) (λ u. do
      drawn ← uuid4
      let token = x.token_urlsafe drawn
      remember token tenant_id u.id
      pure (some token))

  unfoldable pub reset_password : String → String → Action (Unit {0})
  reset_password token new_password = do
    raw ← recall token
    (tenant_part, user_part) ← or_raise raw (app validation "Invalid or expired reset token")
    tenant_id ← require_tenant_id
    raise_if (not (tenant_part == tenant_id)) (app validation "Invalid reset token for tenant")
    found ← get {Row = User} user_part
    user ← or_raise found (app not_found "User not found")
    hashed_password ← hash_password x new_password
    flush {Row = User} (record user { hashed_password = hashed_password })
    revoke_all_for_user user.id
    forget token
