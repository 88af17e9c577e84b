-- ===== src/Tests/Accounts.antt =====
-- The properties of accounts, licences and the start of the program at small states.
use lms_backend.Base.{
  ◌≡◌, ◌≢◌, refl, arith, String, ◌||◌, ◌&&◌, not, true, false, none, some, [], ◌∷◌, contains,
  string_eq, lower, split, strip, starts_with, int, before, after,
}
use lms_backend.Shared.Errors.{ok}
use lms_backend.Models.{User, TenantModule, role_value, session_is_active}
use lms_backend.Events.{publish, deliver}
use lms_backend.Store.{World, Settings, case_option, ◌>>=◌}
use lms_backend.Config.{is_production, cors_origin_list, sync_database_url}
use lms_backend.Startup.{fresh, get_redis, close_redis}
use lms_backend.Startup.Client.{Balanced, Step, start, go_on, Reachable-Balanced}
use lms_backend.Auth.{
  RegisterRequest, register, authenticate, refresh, logout, logout_session, reset_password,
  get_by_email, get_by_code, get_by_jti, recall, get_reset, find_reset, forget, revoke_all_for_user,
  forgot_password, remember,
}
use lms_backend.Security.{hash_password, try_token, decode_token}
use lms_backend.Database.{
  select_one, select_where, select, execute, policy, add, clashes, flush, is_row_of, get,
  update_where, bind_rls,
}
use lms_backend.Database.Sessions.{get_db}
use lms_backend.RateLimit.{new_limiter, parse_rate, lookup, limit}
use lms_backend.Auth.LogoutFinal.{logout_final}
use lms_backend.Auth.RoundTrip.{authenticate-register}
use lms_backend.Auth.ResetRevokes.{AllRevoked, reset_password_revokes}
use lms_backend.Api.{
  open_to_all, post_logout, message, run_endpoint, guard_rate, limited_path, guard_module,
  handle_public, serve, sent,
}
use lms_backend.Api.Logout.{serve-logout_unscoped}
use lms_backend.Api.Secrets.{forgot_password_hides}
use lms_backend.Licensing.{
  find_module, find_licence, update_licence, invalidate, set_module, tenant_has_module, core_codes,
  has_expired,
}
use lms_backend.Licensing.Toggle.{set_module_has}
use lms_backend.Tests.Externals.{toy, put_ne_empty}
use lms_backend.Tests.Fixtures.{
  world, context, scoped, student_role, queries, courses_module, courses_licence, refresh_claims,
}

abbrev request : RegisterRequest
request = record { email = "New@x"; password = "secret"; full_name = "New" }

abbrev account : User
account = record {
  id = 21;
  tenant_id = 1;
  email = "new@x";
  hashed_password = "secret";
  full_name = "New";
  is_active = true;
  is_verified = false;
  is_superuser = false;
  last_login_at = none;
  roles = student_role ∷ [];
  created_at = 3;
  deleted_at = none;
}

authenticate-register_example :
    authenticate toy "New@x" "secret" (register toy request scoped).1
    ≡ (ok account, (register toy request scoped).1)
unfolding register get_by_email get_by_code hash_password select_one select_where select execute
    policy add clashes lower role_value publish deliver ◌>>=◌
authenticate-register_example = authenticate-register toy request scoped 1 account refl refl

abbrev token : String
token = toy.encode "k" refresh_claims

abbrev left : World
left = (logout toy (some token) scoped).1

token_ne_empty : token ≢ ""
token_ne_empty = put_ne_empty 2 _

logout_final_example :
    (refresh toy token left).0
    ≢ ok (record { access_token = "a"; refresh_token = "b"; token_type = "bearer"; expires_in = 2 })
unfolding logout logout_session try_token decode_token get_by_jti execute policy flush is_row_of
    case_option session_is_active ◌>>=◌
logout_final_example =
    logout_final toy refresh_claims scoped left tt _ token_ne_empty (omega arith) refl (omega arith)
      refl refl refl

-- a request of the same client without the header of its tenant
abbrev headless : World
headless = record world { ctx = some (record context { tenant_id = none }) }

serve-logout_unscoped_example :
    serve toy queries (open_to_all (post_logout (some token))) none headless
    ≡ (ok (message "Logged out"), headless)
serve-logout_unscoped_example =
    serve-logout_unscoped toy queries refresh_claims none headless refl refl refl token_ne_empty
      (omega arith) (omega arith) refl

abbrev resettable : World
resettable = record scoped {
  reset_store = record { token = "t"; tenant_part = 1; user_part = 2; expires = 9 } ∷ [];
}

reset_password_revokes_example : AllRevoked 2 (reset_password toy "t" "new" resettable).1
unfolding reset_password recall get_reset find_reset forget hash_password get select_one
    select_where flush is_row_of policy revoke_all_for_user update_where case_option ◌>>=◌
reset_password_revokes_example = reset_password_revokes toy "t" "new" resettable tt 1 2 refl refl

abbrev production : World
production = record world { settings = record world.settings { environment = "Production" } }

forgot_password_hides_example : sent ≡ sent
unfolding serve get_db run_endpoint guard_rate limited_path guard_module handle_public
    forgot_password get_by_email select_one select_where execute policy remember case_option
    is_production lower new_limiter parse_rate int before after strip lookup limit bind_rls ◌>>=◌
forgot_password_hides_example =
    forgot_password_hides toy queries "a@x" none production sent refl refl

abbrev toggled : TenantModule
toggled = record courses_licence { enabled = false }

set_module_has_example :
    (tenant_has_module toy 1 "COURSES" (set_module toy 1 "COURSES" false scoped).1).0
    ≡ ok (
        contains core_codes "COURSES"
        || not (has_expired toggled.expires_at 3) && (false && courses_module.is_active))
unfolding set_module find_module find_licence update_licence invalidate case_option ◌>>=◌
set_module_has_example =
    set_module_has toy 1 "COURSES" false scoped toggled courses_module (refl, tt) refl refl

abbrev connected : Settings
connected = record world.settings { redis_url = some "redis://r" }

Reachable-Balanced_example : Balanced toy connected (close_redis (get_redis toy connected fresh).1)
Reachable-Balanced_example =
    Reachable-Balanced toy connected _ (go_on (go_on start Step.get) Step.close)

origins : cors_origin_list world.settings ≡ "http://a" ∷ "http://b" ∷ []
unfolding cors_origin_list split strip
origins = refl

sync_url : sync_database_url world.settings ≡ "postgresql+psycopg://localhost/lms"
unfolding sync_database_url starts_with
sync_url = refl
