-- ===== src/RateLimit/Window.antt =====
-- The rate limiter against a machine that counts hits in windows.
use lms_backend.Base.{
  ℕ, ◌+◌, ◌<◌, ◌≡◌, ◌≢◌, refl, ap, ◌∙◌, String, Bool, true, false, not, ◌||◌, Option, some, List,
  ◌∷◌, ◌==◌, nat_eq, ltb, leb, is_none, Bool-cases, inl, inr, arith, if◌then◌else◌,
}
use lms_backend.Shared.Errors.{Result, ok, err, app}
use lms_backend.Shared.Errors
use lms_backend.Models.{Time}
use lms_backend.Store.{
  World, Key, RedisCommand, incr, expire, rate_limit, pure, gets, get_context, raise_if,
  case_option, ◌>>=◌,
}
use lms_backend.Store.Runs.{bind-value}
use lms_backend.External.{External, Counter, live, next}
use lms_backend.RateLimit.{Rate, identity_of, incr_key, expire_key, count_hit, limit}

-- A hit at the time `t`: whether it passes, and the counter that it leaves. The first hit of a window
-- opens it for the seconds of the rate.
unfoldable pub hit : Rate → Time → Counter → Bool × Counter
hit rate t c =
    let (n, d) = next (live t c) in
    (leb n rate.times, some (n, if n == 1 then some (t + rate.seconds) else d))

abbrev pub answer : Bool → Result (Unit {0})
answer true = ok tt
answer false = err (app Errors.rate_limit "Rate limit exceeded")

abbrev pub key_for : External → String → World → Key
key_for x path w = rate_limit path (identity_of x w.ctx)

-- What a call of the limiter did: the answer and the counter of the machine, and nothing else.
pub record Hit (x : External) (rate : Rate) (k : Key) (w : World) (log : List RedisCommand)
    (result : Result (Unit {0}) × World) : Type 0 where
  pub log' : List RedisCommand
  pub state : result.1 ≡ record w { redis = some log' }
  pub verdict : result.0 ≡ answer (hit rate w.now (x.redis_counter log w.now k)).0
  pub counter : x.redis_counter log' w.now k ≡ (hit rate w.now (x.redis_counter log w.now k)).1
  pub others : (k' : Key) → k ≢ k' → x.redis_counter log' w.now k' ≡ x.redis_counter log w.now k'

module _ (x : External) (rate : Rate) where
  raise_if-answer :
      (n : ℕ) (w : World)
      → raise_if (ltb rate.times n) (app Errors.rate_limit "Rate limit exceeded") w
        ≡ (answer (leb n rate.times), w)
  unfolding raise_if
  raise_if-answer n w = ground arith

  -- The counter that INCR leaves.
  counted :
      (log : List RedisCommand) (t : Time) (k : Key)
      → x.redis_counter (incr t k ∷ log) t k ≡ some (next (live t (x.redis_counter log t k)))
  counted log t k =
      x.redis_counter-incr log t k
      ∙ ap (λ c. some (next c)) (x.redis_counter-later log t t k (omega arith))

  -- The commands that `count_hit` gives.
  log_after : ℕ → Time → Key → List RedisCommand → List RedisCommand
  log_after n t k log = if n == 1 then expire t k rate.seconds ∷ incr t k ∷ log else incr t k ∷ log

  log_after-counter :
      (log : List RedisCommand) (t : Time) (k : Key) (n : ℕ) (d : Option Time)
      → 0 < rate.seconds
      → x.redis_counter (incr t k ∷ log) t k ≡ some (n, d)
      → x.redis_counter (log_after n t k log) t k
        ≡ some (n, if n == 1 then some (t + rate.seconds) else d)
  unfolding log_after
  log_after-counter log t k n d pos h = elim (Bool-cases (n == 1)) [
    | inl e ↦ rw e (x.redis_counter-expire (incr t k ∷ log) t k n rate.seconds d pos h)
    | inr e ↦ rw e h
  ]

  log_after-other :
      (log : List RedisCommand) (t : Time) (k k' : Key) (n : ℕ)
      → k ≢ k'
      → x.redis_counter (log_after n t k log) t k' ≡ x.redis_counter log t k'
  unfolding log_after
  log_after-other log t k k' n h =
      let one = x.redis_counter-other log (incr t k) t k' h in
      elim (Bool-cases (n == 1)) [
        | inl e ↦
            rw e (x.redis_counter-other (incr t k ∷ log) (expire t k rate.seconds) t k' h ∙ one)
        | inr e ↦ rw e one
      ]

  count_hit_runs :
      (w : World) (log : List RedisCommand) (k : Key) (n : ℕ) (d : Option Time)
      → w.redis ≡ some log
      → x.redis_counter (incr w.now k ∷ log) w.now k ≡ some (n, d)
      → count_hit x k rate.seconds w ≡ (ok n, record w { redis = some (log_after n w.now k log) })
  unfolding count_hit incr_key expire_key case_option pure ◌>>=◌ log_after
  count_hit_runs w log k n d connected h =
      rw (connected, h) (elim (Bool-cases (n == 1)) [ inl e ↦ rw e refl | inr e ↦ rw e refl ])

  works :
      (w : World) (log : List RedisCommand)
      → w.settings.rate_limit_enabled ≡ true
      → w.redis ≡ some log
      → (not w.settings.rate_limit_enabled || is_none w.redis) ≡ false
  works w log on connected = rw (on, connected) refl

  limit_runs :
      (w : World) (log : List RedisCommand) (path : String) (n : ℕ) (d : Option Time)
      → w.settings.rate_limit_enabled ≡ true
      → w.redis ≡ some log
      → x.redis_counter (incr w.now (key_for x path w) ∷ log) w.now (key_for x path w) ≡ some (n, d)
      → limit x rate path w ≡ (
        answer (leb n rate.times),
        record w { redis = some (log_after n w.now (key_for x path w) log) },
      )
  unfolding limit gets get_context ◌>>=◌
  limit_runs w log path n d on connected h =
      let runs = count_hit_runs w log (key_for x path w) n d connected h in
      let refuse = λ (count : ℕ).
        raise_if (ltb rate.times count) (app Errors.rate_limit "Rate limit exceeded") in
      let m = count_hit x (key_for x path w) rate.seconds in
      ap (λ b. (if b then pure tt else m >>= refuse) w) (works w log on connected)
      ∙ (bind-value m refuse w n (ap (λ r. r.0) runs)
          ∙ (ap (λ r. refuse n r.1) runs ∙ raise_if-answer n _))

  -- With the limiter enabled, a Redis, and windows that last, a call of the limiter is a hit of the machine
  -- at the counter of its key: it is answered as the machine answers, leaves the machine's counter,
  -- and changes nothing else, at no other key either.
  pub limit-Hit :
      (w : World) (log : List RedisCommand) (path : String)
      → 0 < rate.seconds
      → w.settings.rate_limit_enabled ≡ true
      → w.redis ≡ some log
      → Hit x rate (key_for x path w) w log (limit x rate path w)
  unfolding hit
  limit-Hit w log path pos on connected =
      let k = key_for x path w in
      let h = counted log w.now k in
      let (n, d) = next (live w.now (x.redis_counter log w.now k)) in
      let runs = limit_runs w log path n d on connected h in
      record {
        log' = log_after n w.now k log;
        state = ap (λ r. r.1) runs;
        verdict = ap (λ r. r.0) runs;
        counter = log_after-counter log w.now k n d pos h;
        others = λ k' ne. log_after-other log w.now k k' n ne;
      }
