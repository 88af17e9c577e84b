-- ===== src/RateLimit.antt =====
-- app/core/middleware/rate_limit.py: the fixed-window rate limiter. The details of its error, which say when
-- to come back, and the numbers in its message are left out.
use lms_backend.Base.{
  ℕ, ◌+◌, String, Bool, true, false, not, ◌||◌, Option, none, some, List, [], ◌∷◌, ◌==◌, nat_eq,
  string_eq, is_none, ltb, before, after, strip, strip_end, or_empty, int, if◌then◌else◌,
}
use lms_backend.Shared.Errors.{Result, ok, err, app, value_error}
use lms_backend.Shared.Errors
use lms_backend.Models.{Time}
use lms_backend.Store.{
  World, RequestContext, Settings, Action, Key, RedisCommand, incr, expire, rate_limit, pure, lift,
  gets, modify, get_context, raise_if, case_option, ◌>>=◌, ◌>>◌,
}
use lms_backend.External.{External, Counter}
pub mod Window
pub mod Steps
pub mod Bound
pub mod Rules

pub record Rate : Type 0 where
  pub times : ℕ
  pub seconds : ℕ

-- `_UNITS`
abbrev pub units : List (String × ℕ)
units = ("second", 1) ∷ ("minute", 60) ∷ ("hour", 3600) ∷ ("day", 86400) ∷ []

unfoldable pub lookup : String → List (String × ℕ) → Option ℕ
lookup name [] = none
lookup name ((unit, seconds) ∷ rest) = if name == unit then some seconds else lookup name rest

-- `parse_rate`; none where it raises
unfoldable pub parse_rate : String → Option Rate
unfolding lookup
parse_rate spec =
    let unit = strip_end (λ c. c == b's') (strip (after b'/' spec)) in
    case_option (int (before b'/' spec)) none (λ times.
      case_option (lookup unit units) none
        (λ seconds. some (record { times = times; seconds = seconds })))

-- `RateLimiter.__init__`
unfoldable pub new_limiter : Settings → Option String → Result Rate
unfolding parse_rate case_option
new_limiter settings spec =
    let text = if or_empty spec == "" then settings.rate_limit_default else or_empty spec in
    case_option (parse_rate text) (err value_error) ok

-- the number that a reply of INCR gives
abbrev pub reply : Counter → ℕ
reply none = 0
reply (some (n, d)) = n

module _ (x : External) where
  -- The user, else the address, else "anon".
  unfoldable pub identity_of : Option RequestContext → String
  identity_of none = "anon"
  identity_of (some rc) =
      let address = if or_empty rc.ip_address == "" then "anon" else or_empty rc.ip_address in
      case_option rc.user_id address x.uuid_text

  -- `redis.incr(key)` and `redis.expire(key, seconds)`, where there is a Redis
  unfoldable pub incr_key : Key → Action ℕ
  incr_key k w =
      case_option w.redis (ok 0, w)
        (λ log. (
          ok (reply (x.redis_counter (incr w.now k ∷ log) w.now k)),
          record w { redis = some (incr w.now k ∷ log) },
        ))

  unfoldable pub expire_key : Key → ℕ → Action (Unit {0})
  expire_key k seconds w =
      case_option w.redis (ok tt, w)
        (λ log. (ok tt, record w { redis = some (expire w.now k seconds ∷ log) }))

  -- INCR, and EXPIRE at the first hit of a window
  unfoldable pub count_hit : Key → ℕ → Action ℕ
  count_hit key seconds = do
    count ← incr_key key
    (if count == 1 then expire_key key seconds else pure tt)
    pure count

  -- `RateLimiter.__call__`, at the path of a route
  unfoldable pub limit : Rate → String → Action (Unit {0})
  unfolding identity_of
  limit rate path = do
    enabled ← gets (λ w. w.settings.rate_limit_enabled)
    no_redis ← gets (λ w. is_none w.redis)
    rc ← get_context
    if not enabled || no_redis then pure tt else (do
      count ← count_hit (rate_limit path (identity_of rc)) rate.seconds
      raise_if (ltb rate.times count) (app Errors.rate_limit "Rate limit exceeded"))
