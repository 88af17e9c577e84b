-- ===== src/Tests/Externals.antt =====
-- A hasher, a token library and a Redis that behave as their interface says.
use Prim.Native.Char.{code}
use lms_backend.Base.{
  ℕ, zero, suc, ◌+◌, String, ◌≡◌, ◌≢◌, refl, ap, ap₂, ◌≤◌, ◌<◌, eq_iff, nat_beq_iff, and_elim,
  Bool-cases, inl, inr, Bool, true, false, Option, none, some, List, [], ◌∷◌, ◌==◌, nat_eq,
  string_eq, beq_refl, ltb, arith, if◌then◌else◌, ◌&&◌,
}
use lms_backend.Models.{Time}
use lms_backend.Store.{
  Key, CacheValue, RedisCommand, set, delete, incr, expire, enabled_modules, tenant_slug,
  password_reset, rate_limit,
}
use lms_backend.External.{
  External, TokenPayload, Decoded, payload, expired, invalid, Counter, live, next, key_of,
}

-- a number in unary, with an end mark
abbrev put : ℕ → String → String
put zero s = String.◌∷◌ "b" s
put (suc n) s = String.◌∷◌ "a" (put n s)

abbrev take_nat : String → ℕ × String
take_nat String.[] = (0, String.[])
take_nat (String.◌∷◌ c s) =
    let (n, rest) = take_nat s in if code c == b'a' then (suc n, rest) else (0, s)

take_nat-put : (n : ℕ) (s : String) → take_nat (put n s) ≡ (n, s)
take_nat-put zero s = refl
take_nat-put (suc n) s = rw (take_nat-put n s) refl

abbrev starts : String → Bool
starts String.[] = false
starts (String.◌∷◌ c s) = true

pub put_ne_empty : (n : ℕ) (s : String) → put n s ≢ ""
put_ne_empty zero s e = let b : true ≡ false = ap starts e in ground arith
put_ne_empty (suc n) s e = let b : true ≡ false = ap starts e in ground arith

abbrev toy_encode : String → TokenPayload → String
toy_encode key p = put p.sub (put p.tid (put p.jti (put p.exp (put p.iat p.type))))

abbrev toy_decode : String → Time → String → Decoded
toy_decode key now s0 =
    let (sub, s1) = take_nat s0 in
    let (tid, s2) = take_nat s1 in
    let (jti, s3) = take_nat s2 in
    let (exp, s4) = take_nat s3 in
    let (iat, type) = take_nat s4 in
    if ltb now iat
    then invalid
    else if ltb now exp
    then payload (record { sub = sub; tid = tid; type = type; jti = jti; exp = exp; iat = iat })
    else expired

pub toy_decode-encode :
    (key : String) (now : Time) (p : TokenPayload)
    → toy_decode key now (toy_encode key p)
      ≡ (if ltb now p.iat then invalid else if ltb now p.exp then payload p else expired)
toy_decode-encode key now p =
    rw (take_nat-put, take_nat-put, take_nat-put, take_nat-put, take_nat-put) refl

abbrev key_eq : Key → Key → Bool
key_eq (enabled_modules a) (enabled_modules b) = a == b
key_eq (tenant_slug a) (tenant_slug b) = a == b
key_eq (password_reset a) (password_reset b) = a == b
key_eq (rate_limit a c) (rate_limit b d) = a == b && c == d
key_eq _ _ = false

pub key_eq_refl : (k : Key) → key_eq k k ≡ true
key_eq_refl (enabled_modules a) = beq_refl a
key_eq_refl (tenant_slug a) = beq_refl a
key_eq_refl (password_reset a) = beq_refl a
key_eq_refl (rate_limit a c) = rw (beq_refl a, beq_refl c) refl

abbrev toy_get : List RedisCommand → Time → Key → Option CacheValue
toy_get [] now k = none
toy_get (set t k v ttl ∷ log) now k' =
    let rest = toy_get log now k' in
    if key_eq k k' then (if ltb now (t + ttl) then some v else none) else rest
toy_get (delete t k ∷ log) now k' =
    let rest = toy_get log now k' in if key_eq k k' then none else rest
toy_get (incr t k ∷ log) now k' = toy_get log now k'
toy_get (expire t k ttl ∷ log) now k' = toy_get log now k'

abbrev deadline : Time → Counter → Counter
deadline d none = none
deadline d (some (n, e)) = some (n, some d)

-- the counter at a key, when the last command for it was given
abbrev counter_at : List RedisCommand → Key → Counter
counter_at [] k = none
counter_at (set t k v ttl ∷ log) k' =
    let rest = counter_at log k' in if key_eq k k' then none else rest
counter_at (delete t k ∷ log) k' =
    let rest = counter_at log k' in if key_eq k k' then none else rest
counter_at (incr t k ∷ log) k' =
    let rest = counter_at log k' in if key_eq k k' then some (next (live t rest)) else rest
counter_at (expire t k ttl ∷ log) k' =
    let rest = counter_at log k' in if key_eq k k' then deadline (t + ttl) (live t rest) else rest

pub live_next : (t : Time) (c : Counter) → live t (some (next (live t c))) ≡ some (next (live t c))
live_next t none = refl
live_next t (some (n, none)) = refl
live_next t (some (n, some d)) = ground arith

pub live_deadline :
    (t ttl n : ℕ) (d : Option Time) (c : Counter)
    → 0 < ttl
    → c ≡ some (n, d)
    → live t (deadline (t + ttl) c) ≡ some (n, some (t + ttl))
live_deadline t ttl n d none h e = ground arith
live_deadline t ttl n d (some (m, e')) h e = ground arith

pub live_later : (t now : Time) (c : Counter) → t ≤ now → live now c ≡ live now (live t c)
live_later t now none h = refl
live_later t now (some (n, none)) h = refl
live_later t now (some (n, some d)) h = ground arith

pub key_eq_sound : (a b : Key) → key_eq a b ≡ true → a ≡ b
key_eq_sound (enabled_modules a) (enabled_modules b) h = ap enabled_modules ((nat_beq_iff a b).0 h)
key_eq_sound (tenant_slug a) (tenant_slug b) h = ap tenant_slug ((eq_iff a b).0 h)
key_eq_sound (password_reset a) (password_reset b) h = ap password_reset ((eq_iff a b).0 h)
key_eq_sound (rate_limit a c) (rate_limit b d) h =
    let (p, q) = and_elim (a == b) (c == d) h in
    ap₂ rate_limit ((eq_iff a b).0 p) ((eq_iff c d).0 q)
key_eq_sound (enabled_modules a) (tenant_slug b) h = ground arith
key_eq_sound (enabled_modules a) (password_reset b) h = ground arith
key_eq_sound (enabled_modules a) (rate_limit b d) h = ground arith
key_eq_sound (tenant_slug a) (enabled_modules b) h = ground arith
key_eq_sound (tenant_slug a) (password_reset b) h = ground arith
key_eq_sound (tenant_slug a) (rate_limit b d) h = ground arith
key_eq_sound (password_reset a) (enabled_modules b) h = ground arith
key_eq_sound (password_reset a) (tenant_slug b) h = ground arith
key_eq_sound (password_reset a) (rate_limit b d) h = ground arith
key_eq_sound (rate_limit a c) (enabled_modules b) h = ground arith
key_eq_sound (rate_limit a c) (tenant_slug b) h = ground arith
key_eq_sound (rate_limit a c) (password_reset b) h = ground arith

key_ne : (a b : Key) → a ≢ b → key_eq a b ≡ false
key_ne a b h = elim (Bool-cases (key_eq a b)) [
  | inl e ↦ absurd (h (key_eq_sound a b e))
  | inr e ↦ e
]

pub counter_other :
    (log : List RedisCommand) (c : RedisCommand) (now : Time) (k : Key)
    → key_of c ≢ k
    → live now (counter_at (c ∷ log) k) ≡ live now (counter_at log k)
counter_other log (set t k' v ttl) now k h = rw (key_ne k' k h) refl
counter_other log (delete t k') now k h = rw (key_ne k' k h) refl
counter_other log (incr t k') now k h = rw (key_ne k' k h) refl
counter_other log (expire t k' ttl) now k h = rw (key_ne k' k h) refl

abbrev pub toy : External
toy = record {
  hash = λ salt plain. plain;
  verify = λ plain hashed. some (plain == hashed);
  verify-hash = λ salt plain. rw (beq_refl plain) refl;
  encode = toy_encode;
  decode = toy_decode;
  decode-encode = λ key now p e h. rw (toy_decode-encode key now p) (ground arith);
  decode-encode_late = λ key now p e h. rw (toy_decode-encode key now p) (ground arith);
  decode-encode_early = λ key now p h. rw (toy_decode-encode key now p) (ground arith);
  redis_get = toy_get;
  redis_get-set = λ log t now k v ttl h. rw (key_eq_refl k) (ground arith);
  redis_get-set_late = λ log t now k v ttl h. rw (key_eq_refl k) (ground arith);
  redis_get-delete = λ log t now k. rw (key_eq_refl k) refl;
  redis_counter = λ log now k. live now (counter_at log k);
  redis_counter-incr = λ log t k. rw (key_eq_refl k) (live_next t (counter_at log k));
  redis_counter-expire = λ log t k n ttl d h e.
      rw (key_eq_refl k) (live_deadline t ttl n d (live t (counter_at log k)) h e);
  redis_counter-later = λ log t now k h. live_later t now (counter_at log k) h;
  redis_counter-other = counter_other;
  accepts_url = λ s. true;
  uuid_text = λ n. put n "";
  parse_uuid = λ s. none;
  fromisoformat = λ s. none;
  bearer_credentials = λ s. some s;
  token_urlsafe = λ n. put n "";
  token_urlsafe_ne_empty = λ n. put_ne_empty n "";
}
