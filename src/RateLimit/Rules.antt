-- ===== src/RateLimit/Rules.antt =====
-- The rate limiter under any relation that the writes of the repositories obey: it touches no table.
use lms_backend.Base.{ℕ, String, arith}
use lms_backend.Store.{World, Key, case_option}
use lms_backend.Store.Relations.{Obeys}
use lms_backend.Database.Rules.{IsStoreRelation, store_rules}
use lms_backend.External.{External}
use lms_backend.RateLimit.{Rate, incr_key, expire_key, count_hit, limit}

module _ {R : World → World → Type 0} (s : IsStoreRelation R) (x : External) where
  Obeys-incr_key : (k : Key) → Obeys R (incr_key x k)
  unfolding incr_key case_option
  Obeys-incr_key k = record { at = λ w. s.aside w _ (ground arith) (ground arith) }

  Obeys-expire_key : (k : Key) (n : ℕ) → Obeys R (expire_key x k n)
  unfolding expire_key case_option
  Obeys-expire_key k n = record { at = λ w. s.aside w _ (ground arith) (ground arith) }

  Obeys-count_hit : (k : Key) (n : ℕ) → Obeys R (count_hit x k n)
  unfolding count_hit
  Obeys-count_hit k n = search (store_rules, Obeys-incr_key, Obeys-expire_key) depth 12

  pub Obeys-limit : (rate : Rate) (path : String) → Obeys R (limit x rate path)
  unfolding limit
  Obeys-limit rate path = search (store_rules, Obeys-count_hit) depth 12
