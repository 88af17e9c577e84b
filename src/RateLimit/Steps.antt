-- ===== src/RateLimit/Steps.antt =====
-- Runs of requests of one identity, with what others do in between, and one step of such a run.
use lms_backend.Base.{
  ℕ, suc, ◌+◌, ◌≤◌, ◌<◌, ◌≡◌, ◌≢◌, refl, ap, ◌∙◌, String, Bool, true, false, Option, none, some,
  List, [], ◌∷◌, nat_eq, leb, arith, if◌then◌else◌,
}
use lms_backend.Shared.Errors.{Result, ok, err}
use lms_backend.Models.{Time}
use lms_backend.Store.{World, Key, RedisCommand, case_option}
use lms_backend.External.{External, Counter, live, key_of}
use lms_backend.RateLimit.{Rate, limit}
use lms_backend.RateLimit.Window.{hit, answer, key_for, Hit, limit-Hit}

-- What happens: a request of the identity at a time, or a command that someone else gives to Redis.
pub data Event : Type 0 where
  attempt : Time → Event
  foreign : RedisCommand → Event

abbrev pub passed : Result (Unit {0}) → ℕ
passed (ok a) = 1
passed (err e) = 0

-- How many requests there are.
abbrev pub attempts : List Event → ℕ
attempts [] = 0
attempts (attempt t ∷ es) = suc (attempts es)
attempts (foreign c ∷ es) = attempts es

unfoldable pub give : RedisCommand → World → World
give c w = case_option w.redis w (λ log. record w { redis = some (c ∷ log) })

-- The events run through the limiter: how many requests pass, and the state after them.
unfoldable pub run : External → Rate → String → List Event → World → ℕ × World
unfolding give
run x rate path [] w = (0, w)
run x rate path (attempt t ∷ es) w =
    let (r, w') = limit x rate path (record w { now = t }) in
    let (n, v) = run x rate path es w' in (passed r + n, v)
run x rate path (foreign c ∷ es) w = run x rate path es (give c w)

-- The requests come one after another from `now` on, before `d`, and nobody else touches the key.
abbrev pub InWindow : Key → Time → Time → List Event → Type 0
InWindow k now d [] = Unit
InWindow k now d (attempt t ∷ es) = (now ≤ t) × ((t < d) × InWindow k t d es)
InWindow k now d (foreign c ∷ es) = (key_of c ≢ k) × InWindow k now d es

module _ (x : External) (rate : Rate) (path : String) where
  -- A limiter that works at the key.
  pub record Works (k : Key) (log : List RedisCommand) (w : World) : Type 0 where
    pub lasts : 0 < rate.seconds
    pub enabled : w.settings.rate_limit_enabled ≡ true
    pub connected : w.redis ≡ some log
    pub key_lem : key_for x path w ≡ k

  -- A window until `d`, or without an end, in which `n` requests have come.
  pub record Open (k : Key) (d : Option Time) (n : ℕ) (w : World) : Type 0 where
    pub log : List RedisCommand
    pub works : Works k log w
    pub some_lem : 0 < n
    pub counter : x.redis_counter log w.now k ≡ some (n, d)

  hit-open :
      (n : ℕ) (t : Time) (d : Option Time)
      → 0 < n
      → live t (some (n, d)) ≡ some (n, d)
      → hit rate t (some (n, d)) ≡ (leb (suc n) rate.times, some (suc n, d))
  unfolding hit
  hit-open n t none pos h = ground arith
  hit-open n t (some d) pos h = rw h (ground arith)

  passed-answer : (b : Bool) → passed (answer b) ≡ (if b then 1 else 0)
  passed-answer true = refl
  passed-answer false = refl

  pub live_before : (n : ℕ) (t d : Time) → t < d → live t (some (n, some d)) ≡ some (n, some d)
  live_before n t d h = ground arith

  Works-at :
      (k : Key) (log : List RedisCommand) (w : World) (t : Time)
      → Works k log w
      → Works k log (record w { now = t })
  Works-at k log w t works = record {
    lasts = works.lasts;
    enabled = works.enabled;
    connected = works.connected;
    key_lem = works.key_lem;
  }

  Hit-at :
      (k : Key) (log : List RedisCommand) (w : World)
      → Works k log w
      → Hit x rate k w log (limit x rate path w)
  Hit-at k log w works =
      rw (works.key_lem) at (limit-Hit x rate w log path works.lasts works.enabled works.connected)

  -- A request that leaves `n` in a window until `d`.
  pub record Stepped (k : Key) (d : Option Time) (n : ℕ) (t : Time) (r : Result (Unit {0}) × World)
      : Type 0 where
    pub verdict : passed r.0 ≡ (if leb n rate.times then 1 else 0)
    pub now_lem : r.1.now ≡ t
    pub open_lem : Open k d n r.1

  Works-after :
      (k : Key) (log log' : List RedisCommand) (w w' : World)
      → Works k log w
      → w' ≡ record w { redis = some log' }
      → Works k log' w'
  Works-after k log log' w w' works e = rw e (record {
    lasts = works.lasts;
    enabled = works.enabled;
    connected = refl;
    key_lem = works.key_lem;
  })

  step :
      (k : Key) (log : List RedisCommand) (d : Option Time) (n : ℕ) (w : World)
      → Works k log w
      → 0 < n
      → hit rate w.now (x.redis_counter log w.now k) ≡ (leb n rate.times, some (n, d))
      → Stepped k d n w.now (limit x rate path w)
  step k log d n w works pos e =
      let h = Hit-at k log w works in
      let same : (limit x rate path w).1.now ≡ w.now = ap (λ (v : World). v.now) h.state in
      record {
        verdict =
            ap passed h.verdict
            ∙ (passed-answer _ ∙ ap (λ (v : Bool × Counter). if v.0 then 1 else 0) e);
        now_lem = same;
        open_lem = record {
          log = h.log';
          works = Works-after k log h.log' w (limit x rate path w).1 works h.state;
          some_lem = pos;
          counter = rw same (h.counter ∙ ap (λ (v : Bool × Counter). v.1) e);
        };
      }

  pub step-Open :
      (k : Key) (d : Option Time) (t : Time) (n : ℕ) (w : World)
      → Open k d n w
      → w.now ≤ t
      → live t (some (n, d)) ≡ some (n, d)
      → Stepped k d (suc n) t (limit x rate path (record w { now = t }))
  step-Open k d t n w o later same =
      let works = Works-at k o.log w t o.works in
      let still = x.redis_counter-later o.log w.now t k later ∙ (ap (live t) o.counter ∙ same) in
      step k o.log d (suc n) (record w { now = t }) works (omega arith)
        (ap (hit rate t) still ∙ hit-open n t d o.some_lem same)

  -- A command at another key leaves the window as it is.
  pub give-Open :
      (k : Key) (d : Option Time) (n : ℕ) (c : RedisCommand) (w : World)
      → Open k d n w
      → key_of c ≢ k
      → Open k d n (give c w)
  unfolding give case_option
  give-Open k d n c w o ne = rw (o.works.connected) (record {
    log = c ∷ o.log;
    works = record {
      lasts = o.works.lasts;
      enabled = o.works.enabled;
      connected = refl;
      key_lem = o.works.key_lem;
    };
    some_lem = o.some_lem;
    counter = x.redis_counter-other o.log c w.now k ne ∙ o.counter;
  })

  pub give_now : (c : RedisCommand) (w : World) → (give c w).now ≡ w.now
  unfolding give case_option
  give_now c w = ground arith

  pub live_after : (t d : Time) (n : ℕ) → d ≤ t → live t (some (n, some d)) ≡ none
  live_after t d n h = ground arith

  hit_fresh : (t : Time) → hit rate t none ≡ (leb 1 rate.times, some (1, some (t + rate.seconds)))
  unfolding hit
  hit_fresh t = refl

  -- A request at a key that holds nothing opens a window.
  pub step-fresh :
      (k : Key) (log : List RedisCommand) (t : Time) (w : World)
      → Works k log w
      → w.now ≤ t
      → live t (x.redis_counter log w.now k) ≡ none
      → Stepped k (some (t + rate.seconds)) 1 t (limit x rate path (record w { now = t }))
  step-fresh k log t w works later gone =
      let still = x.redis_counter-later log w.now t k later ∙ gone in
      step k log (some (t + rate.seconds)) 1 (record w { now = t }) (Works-at k log w t works)
        (omega arith) (ap (hit rate t) still ∙ hit_fresh t)
