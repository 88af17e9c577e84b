-- ===== src/Startup.antt =====
-- `_check_production_safety` and the shutdown of app/main.py, and the Redis client of app/core/cache.py.
use lms_backend.Base.{
  ℕ, suc, String, Bool, true, false, not, Option, none, some, ◌==◌, string_eq, or_empty, is_none,
  if◌then◌else◌,
}
use lms_backend.Shared.Errors.{Result, ok, err, runtime_error, value_error}
use lms_backend.Store.{Settings}
use lms_backend.External.{External}
use lms_backend.Config.{is_production}
pub mod Client

-- `_DEFAULT_JWT_SECRET`
abbrev pub default_jwt_secret : String
default_jwt_secret = "change-me-please-32-bytes-minimum-secret"

-- `_check_production_safety`
unfoldable pub check_production_safety : Settings → Result (Unit {0})
check_production_safety s =
    if not (is_production s)
    then ok tt
    else if s.jwt_secret_key == default_jwt_secret
    then err (
        runtime_error
          "Refusing to start: JWT_SECRET_KEY is the default value in production. Generate one with `openssl rand -hex 32`.")
    else if s.debug
    then err (runtime_error "Refusing to start: DEBUG=true is not allowed in production.")
    else ok tt

-- The globals `_client` and `_initialised`; a client is a number. `opened` and `closed` count the calls
-- of `from_url` that return and of `aclose`.
pub record Cache : Type 0 where
  pub client : Option ℕ
  pub initialised : Bool
  pub opened : ℕ
  pub closed : ℕ

-- as the module is loaded
abbrev pub fresh : Cache
fresh = record { client = none; initialised = false; opened = 0; closed = 0 }

-- `get_redis`. The flag is set before the client is made, and stays set if that raises.
unfoldable pub get_redis : External → Settings → Cache → Result (Option ℕ) × Cache
get_redis x s c =
    if c.initialised
    then (ok c.client, c)
    else if or_empty s.redis_url == ""
    then (ok c.client, record c { initialised = true })
    else if not (x.accepts_url (or_empty s.redis_url))
    then (err value_error, record c { initialised = true })
    else (
      ok (some c.opened),
      record c { client = some c.opened; initialised = true; opened = suc c.opened },
    )

-- `close_redis`
unfoldable pub close_redis : Cache → Cache
close_redis c =
    if is_none c.client
    then record c { initialised = false }
    else record c { client = none; initialised = false; closed = suc c.closed }
