-- ===== src/RateLimit/Bound.antt =====
-- How many requests of one identity pass in a window, and that one passes after it.
use Prim.Native.Nat.{min}
use lms_backend.Base.{
  ℕ, suc, ◌+◌, ◌-◌, ◌≤◌, ◌<◌, ◌≡◌, refl, ap, ◌∙◌, String, none, some, List, [], ◌∷◌, leb, arith,
  if◌then◌else◌,
}
use lms_backend.Shared.Errors.{Result, ok, err}
use lms_backend.Models.{Time}
use lms_backend.Store.{World, Key, RedisCommand}
use lms_backend.External.{External, live}
use lms_backend.RateLimit.{Rate, limit}
use lms_backend.RateLimit.Steps.{
  Event, attempt, foreign, passed, attempts, give, run, InWindow, Works, Open, step-Open, give-Open,
  give_now, step-fresh, live_before, live_after,
}

module _ (x : External) (rate : Rate) (path : String) where
  -- What the events in an open window do: at most what is left of the rate passes, and the window stays open.
  record Ran (k : Key) (d : Time) (n : ℕ) (es : List Event) (r : ℕ × World) : Type 0 where
    passes : r.0 ≡ min (attempts es) (rate.times - n)
    total : ℕ
    now_lem : r.1.now ≤ d
    open_lem : Open x rate path k (some d) total r.1

  before_le : {t d : ℕ} → t < d → t ≤ d
  before_le h = omega arith

  le_trans : {a b c : ℕ} → a ≤ b → b ≤ c → a ≤ c
  le_trans h k = omega arith

  window_le : (t n : ℕ) → t ≤ t + n
  window_le t n = omega arith

  run_sum :
      (m n : ℕ) {a b : ℕ}
      → a ≡ (if leb (suc n) rate.times then 1 else 0)
      → b ≡ min m (rate.times - suc n)
      → a + b ≡ min (suc m) (rate.times - n)
  run_sum m n h k = ground arith

  run-Open :
      (k : Key) (d : Time) (es : List Event) (n : ℕ) (w : World)
      → Open x rate path k (some d) n w
      → w.now ≤ d
      → InWindow k w.now d es
      → Ran k d n es (run x rate path es w)
  unfolding run
  run-Open k d [] n w o b h = record { passes = omega arith; total = n; now_lem = b; open_lem = o }
  run-Open k d (attempt t ∷ es) n w o b h =
      let s = step-Open x rate path k (some d) t n w o h.0 (live_before x rate path n t d h.1.0) in
      let after = (limit x rate path (record w { now = t })).1 in
      let rest =
        run-Open k d es (suc n) after s.open_lem (rw (s.now_lem) (before_le h.1.0))
          (rw (s.now_lem) (h.1.1)) in
      record {
        passes = run_sum (attempts es) n s.verdict rest.passes;
        total = rest.total;
        now_lem = rest.now_lem;
        open_lem = rest.open_lem;
      }
  run-Open k d (foreign c ∷ es) n w o b h =
      let rest =
        run-Open k d es n (give c w) (give-Open x rate path k (some d) n c w o h.0)
          (rw (give_now x rate path c w) b) (rw (give_now x rate path c w) (h.1)) in
      record {
        passes = rest.passes;
        total = rest.total;
        now_lem = rest.now_lem;
        open_lem = rest.open_lem;
      }

  less_zero : (n : ℕ) → n - 0 ≡ n
  less_zero n = omega arith

  pass_one :
      (r : Result (Unit {0}))
      → 1 ≤ rate.times
      → passed r ≡ (if leb 1 rate.times then 1 else 0)
      → r ≡ ok tt
  pass_one (ok tt) h e = refl
  pass_one (err e) h e' = ground arith

  -- Of the requests of one identity from the first one at a counter that is not there until the window
  -- ends, exactly as many pass as the rate allows, or all if they are fewer, whatever others do to other
  -- keys in between.
  pub run_passes :
      (k : Key) (log : List RedisCommand) (t : Time) (es : List Event) (w : World)
      → Works x rate path k log w
      → x.redis_counter log w.now k ≡ none
      → w.now ≤ t
      → InWindow k t (t + rate.seconds) es
      → (run x rate path (attempt t ∷ es) w).0 ≡ min (suc (attempts es)) rate.times
  unfolding run
  run_passes k log t es w works gone later inside =
      let s = step-fresh x rate path k log t w works later (ap (live t) gone) in
      let rest =
        run-Open k (t + rate.seconds) es 1 _ s.open_lem (rw (s.now_lem) (window_le t rate.seconds))
          (rw (s.now_lem) inside) in
      run_sum (attempts es) 0 s.verdict rest.passes
      ∙ ap (min (suc (attempts es))) (less_zero rate.times)

  -- After such a window, whatever was tried in it, a request of the identity passes, if the rate allows one
  -- at all.
  pub run_recovers :
      (k : Key) (log : List RedisCommand) (t later : Time) (es : List Event) (w : World)
      → Works x rate path k log w
      → x.redis_counter log w.now k ≡ none
      → w.now ≤ t
      → InWindow k t (t + rate.seconds) es
      → t + rate.seconds ≤ later
      → 1 ≤ rate.times
      → (limit x rate path (record (run x rate path (attempt t ∷ es) w).1 { now = later })).0
        ≡ ok tt
  unfolding run
  run_recovers k log t later es w works gone now inside beyond some_rate =
      let s = step-fresh x rate path k log t w works now (ap (live t) gone) in
      let rest =
        run-Open k (t + rate.seconds) es 1 _ s.open_lem (rw (s.now_lem) (window_le t rate.seconds))
          (rw (s.now_lem) inside) in
      let o = rest.open_lem in
      let v = (run x rate path es (limit x rate path (record w { now = t })).1).1 in
      let again = step-fresh x rate path k o.log later v o.works (le_trans rest.now_lem beyond) (
        ap (live later) o.counter
        ∙ live_after x rate path later (t + rate.seconds) rest.total beyond) in
      pass_one _ some_rate again.verdict

  suc_le : {a b : ℕ} → a ≤ b → a < suc b
  suc_le h = omega arith

  nothing :
      (n : ℕ) {a b : ℕ}
      → rate.times ≤ n
      → a ≡ (if leb (suc n) rate.times then 1 else 0)
      → b ≡ 0
      → a + b ≡ 0
  nothing n h p q = ground arith

  -- At a counter that has reached the rate and has no time of expiry, no request of the identity passes any
  -- more.
  pub run_locked :
      (k : Key) (d : Time) (es : List Event) (n : ℕ) (w : World)
      → Open x rate path k none n w
      → rate.times ≤ n
      → InWindow k w.now d es
      → (run x rate path es w).0 ≡ 0
  unfolding run
  run_locked k d [] n w o full h = refl
  run_locked k d (attempt t ∷ es) n w o full h =
      let s = step-Open x rate path k none t n w o h.0 refl in
      let after = (limit x rate path (record w { now = t })).1 in
      nothing n full s.verdict (
        run_locked k d es (suc n) after s.open_lem (before_le (suc_le full))
          (rw (s.now_lem) (h.1.1)))
  run_locked k d (foreign c ∷ es) n w o full h =
      run_locked k d es n (give c w) (give-Open x rate path k none n c w o h.0) full
        (rw (give_now x rate path c w) (h.1))
