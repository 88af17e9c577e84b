-- ===== src/Startup/Client.antt =====
-- The life of the Redis client: a state machine of two operations.
use lms_backend.Base.{
  ℕ, suc, ◌+◌, ◌≡◌, refl, ap, ◌∙◌, true, false, Option, none, some, ◌==◌, string_eq, or_empty,
  is_none, Bool, not, ◌||◌, Bool-cases, Option-cases, inl, inr, arith,
}
use lms_backend.Store.{Settings}
use lms_backend.External.{External}
use lms_backend.Startup.{Cache, fresh, get_redis, close_redis}

-- One call of `get_redis` or of `close_redis`.
pub data Step (x : External) (s : Settings) : Cache → Cache → Type 0 where
  get : {c : Cache} → Step x s c (get_redis x s c).1
  close : {c : Cache} → Step x s c (close_redis c)

-- The states that calls lead to from that in which the module is loaded.
pub data Reachable (x : External) (s : Settings) : Cache → Type 0 where
  start : Reachable x s fresh
  go_on : {c d : Cache} → Reachable x s c → Step x s c d → Reachable x s d

-- how many clients are open
abbrev pub held : Option ℕ → ℕ
held none = 0
held (some n) = 1

opens :
    (opened closed : ℕ) (o : Option ℕ)
    → o ≡ none
    → opened ≡ closed + held o
    → suc opened ≡ closed + 1
opens opened closed none e h = ground arith
opens opened closed (some n) e h = ground arith

closes :
    (opened closed : ℕ) (o : Option ℕ) (n : ℕ)
    → o ≡ some n
    → opened ≡ closed + held o
    → opened ≡ suc closed + 0
closes opened closed none n e h = ground arith
closes opened closed (some m) n e h = ground arith

-- no client can be made from the settings
abbrev pub is_offline : External → Settings → Bool
is_offline x s = or_empty s.redis_url == "" || not (x.accepts_url (or_empty s.redis_url))

-- Every client that was opened has been closed, but for the one that is held; and one is held exactly
-- if the module is initialised and the settings have a URL that is accepted.
pub record Balanced (x : External) (s : Settings) (c : Cache) : Type 0 where
  pub balance : c.opened ≡ c.closed + held c.client
  pub idle : c.initialised ≡ false → c.client ≡ none
  pub busy : c.initialised ≡ true → is_none c.client ≡ is_offline x s

module _ (x : External) (s : Settings) where
  fresh-Balanced : Balanced x s fresh
  fresh-Balanced = record { balance = refl; idle = λ h. refl; busy = λ h. ground arith }

  get_redis-Balanced : (c : Cache) → Balanced x s c → Balanced x s (get_redis x s c).1
  unfolding get_redis
  get_redis-Balanced c b = elim (Bool-cases c.initialised) [
    | inl e ↦ simp e b
    | inr e ↦ elim (Bool-cases (or_empty s.redis_url == "")) [
      | inl f ↦
          rw (e, f)
            (record {
              balance = b.balance;
              idle = λ h. ground arith;
              busy = λ h. rw f (ap is_none (b.idle e));
            })
      | inr f ↦ elim (Bool-cases (x.accepts_url (or_empty s.redis_url))) [
        | inl g ↦
            rw (e, f, g)
              (record {
                balance = opens c.opened c.closed c.client (b.idle e) b.balance;
                idle = λ h. ground arith;
                busy = λ h. rw (f, g) refl;
              })
        | inr g ↦
            rw (e, f, g)
              (record {
                balance = b.balance;
                idle = λ h. ground arith;
                busy = λ h. rw (f, g) (ap is_none (b.idle e));
              })
      ]
    ]
  ]

  close_redis-Balanced : (c : Cache) → Balanced x s c → Balanced x s (close_redis c)
  unfolding close_redis
  close_redis-Balanced c b = elim (Option-cases c.client) [
    | inl e ↦ rw e (record {
      balance = b.balance ∙ ap (λ o. c.closed + held o) e;
      idle = λ h. refl;
      busy = λ h. ground arith;
    })
    | inr (n, e) ↦ rw e (record {
      balance = closes c.opened c.closed c.client n e b.balance;
      idle = λ h. refl;
      busy = λ h. ground arith;
    })
  ]

  step-Balanced : (c d : Cache) → Step x s c d → Balanced x s c → Balanced x s d
  step-Balanced c _ get b = get_redis-Balanced c b
  step-Balanced c _ close b = close_redis-Balanced c b

  -- In every state that calls of get_redis, whether they return or raise, and of close_redis lead to, the
  -- clients that were opened are those that were closed and the one that is held, if any; none is held
  -- before the first call or after a close, and otherwise one is held exactly if a URL is set that
  -- `redis.from_url` accepts.
  pub Reachable-Balanced : (c : Cache) → Reachable x s c → Balanced x s c
  Reachable-Balanced _ start = fresh-Balanced
  Reachable-Balanced _ (go_on {c} {d} r step) = step-Balanced c d step (Reachable-Balanced c r)
