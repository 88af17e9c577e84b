-- ===== src/External.antt =====
-- What the program calls and does not implement: the password hasher, the JWT library, Redis and the
-- source of random tokens, each with the documented behaviour that the services rely on.
use lms_backend.Base.{
  ℕ, suc, ltb, if◌then◌else◌, ◌+◌, ◌≤◌, ◌<◌, String, ◌≡◌, ◌≢◌, Bool, true, Option, none, some, List,
  ◌∷◌,
}
use lms_backend.Models.{Uuid, Time}
use lms_backend.Store.{Key, CacheValue, RedisCommand, set, delete, incr, expire}

-- `TokenPayload`, and the payload that `_encode` builds
pub record TokenPayload : Type 0 where
  pub sub : Uuid
  pub tid : Uuid
  pub type : String
  pub jti : Uuid
  pub exp : Time
  pub iat : Time

-- What `jwt.decode` does: a payload, `ExpiredSignatureError`, or another `PyJWTError`. A payload that
-- is signed and has not the fields of `TokenPayload` is `malformed`.
pub data Decoded : Type 0 where
  payload : TokenPayload → Decoded
  malformed expired invalid : Decoded

-- What Redis keeps at a key that INCR counts on: the number, and the time at which it expires.
abbrev pub Counter : Type 0
Counter = Option (ℕ × Option Time)

-- A key is gone from its time of expiry on.
abbrev pub live : Time → Counter → Counter
live now none = none
live now (some (n, none)) = some (n, none)
live now (some (n, some d)) = if ltb now d then some (n, some d) else none

-- INCR takes an absent key for 0, and leaves the time of expiry as it is.
abbrev pub next : Counter → ℕ × Option Time
next none = (1, none)
next (some (n, d)) = (suc n, d)

-- the key that a command changes
abbrev pub key_of : RedisCommand → Key
key_of (set t k v ttl) = k
key_of (delete t k) = k
key_of (incr t k) = k
key_of (expire t k ttl) = k

pub record External : Type 0 where
  -- `PasswordHash.hash`, with the salt that it draws, and `verify`, which may raise
  pub hash : ℕ → String → String
  pub verify : String → String → Option Bool
  pub verify-hash : (salt : ℕ) (plain : String) → verify plain (hash salt plain) ≡ some true
  -- `jwt.encode` and `jwt.decode`, under a key
  pub encode : String → TokenPayload → String
  pub decode : String → Time → String → Decoded
  pub decode-encode :
      (key : String) (now : Time) (p : TokenPayload)
      → p.iat ≤ now
      → now < p.exp
      → decode key now (encode key p) ≡ payload p
  pub decode-encode_late :
      (key : String) (now : Time) (p : TokenPayload)
      → p.iat ≤ now
      → p.exp ≤ now
      → decode key now (encode key p) ≡ expired
  -- `ImmatureSignatureError`: the token was made later than it is read
  pub decode-encode_early :
      (key : String) (now : Time) (p : TokenPayload)
      → now < p.iat
      → decode key now (encode key p) ≡ invalid
  -- `GET` after the commands given so far, the last one first
  pub redis_get : List RedisCommand → Time → Key → Option CacheValue
  pub redis_get-set :
      (log : List RedisCommand) (t now : Time) (k : Key) (v : CacheValue) (ttl : ℕ)
      → now < t + ttl
      → redis_get (set t k v ttl ∷ log) now k ≡ some v
  pub redis_get-set_late :
      (log : List RedisCommand) (t now : Time) (k : Key) (v : CacheValue) (ttl : ℕ)
      → t + ttl ≤ now
      → redis_get (set t k v ttl ∷ log) now k ≡ none
  pub redis_get-delete :
      (log : List RedisCommand) (t now : Time) (k : Key) → redis_get (delete t k ∷ log) now k ≡ none
  -- the counter at a key, after the commands given so far
  pub redis_counter : List RedisCommand → Time → Key → Counter
  pub redis_counter-incr :
      (log : List RedisCommand) (t : Time) (k : Key)
      → redis_counter (incr t k ∷ log) t k ≡ some (next (redis_counter log t k))
  pub redis_counter-expire :
      (log : List RedisCommand) (t : Time) (k : Key) (n ttl : ℕ) (d : Option Time)
      → 0 < ttl
      → redis_counter log t k ≡ some (n, d)
      → redis_counter (expire t k ttl ∷ log) t k ≡ some (n, some (t + ttl))
  pub redis_counter-later :
      (log : List RedisCommand) (t now : Time) (k : Key)
      → t ≤ now
      → redis_counter log now k ≡ live now (redis_counter log t k)
  pub redis_counter-other :
      (log : List RedisCommand) (c : RedisCommand) (now : Time) (k : Key)
      → key_of c ≢ k
      → redis_counter (c ∷ log) now k ≡ redis_counter log now k
  -- `redis.from_url` takes the URL; it raises on one of an unknown scheme
  pub accepts_url : String → Bool
  -- `str(id)`
  pub uuid_text : Uuid → String
  -- `uuid.UUID(text)`, which may raise, and `datetime.fromisoformat`
  pub parse_uuid : String → Option Uuid
  pub fromisoformat : String → Option Time
  -- `HTTPBearer`: the credentials of an Authorization header, if its scheme is Bearer
  pub bearer_credentials : String → Option String
  -- `secrets.token_urlsafe`, by the random value that it draws
  pub token_urlsafe : ℕ → String
  pub token_urlsafe_ne_empty : (n : ℕ) → token_urlsafe n ≢ ""
