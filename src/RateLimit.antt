-- ===== src/RateLimit.antt =====
-- internal/ratelimit/limiter.go and middleware.go: a token bucket for each client. The bucket is that
-- of golang.org/x/time/rate, a parameter here.
pub mod Isolation
pub mod Manager
mod Tests
use rest_trans.Prelude.{
  ℕ, ◌+◌, ◌*◌, Bool, true, false, not, Option, none, some, List, [], ◌∷◌, Text, length, ltb,
  if◌then◌else◌,
}
use rest_trans.Prelude.Int.{ℤ}
use rest_trans.Schema.{find, store}

-- `rate.NewLimiter` and `Limiter.Allow` at a time. A rate is its literal. Nothing is assumed of them.
pub record TokenBucket (L : Type 0) : Type 0 where
  pub fresh : Text → ℤ → L
  pub take_token : L → ℕ → L × Bool

pub record KeyLimiter (L : Type 0) : Type 0 where
  pub limiter : L
  pub last_seen : ℕ

pub record Limiter (L : Type 0) : Type 0 where
  pub rate : Text
  pub burst : ℤ
  pub limiters : List (Text × KeyLimiter L)

-- 10 minutes in nanoseconds.
abbrev pub idle_limit : ℕ
idle_limit = 600 * 1000000000

module _ {L : Type 0} where
  -- `New`.
  abbrev pub new_limiter : Text → ℤ → Limiter L
  new_limiter rate burst = record { rate = rate; burst = burst; limiters = [] }

  abbrev pub or_fresh : TokenBucket L → Limiter L → Option (KeyLimiter L) → L
  or_fresh b l none = b.fresh l.rate l.burst
  or_fresh b l (some kl) = kl.limiter

  -- `Limiter.Allow`.
  unfoldable pub allow : TokenBucket L → Limiter L → Text → ℕ → Limiter L × Bool
  unfolding find store
  allow b l key now =
      let (bucket, allowed) = b.take_token (or_fresh b l (find key l.limiters)) now in
      (
        record l { limiters = store key (record { limiter = bucket; last_seen = now }) l.limiters },
        allowed,
      )

  abbrev pub is_idle : ℕ → KeyLimiter L → Bool
  is_idle now kl = ltb (kl.last_seen + idle_limit) now

  -- The loop of `cleanup`.
  unfoldable pub drop_idle : ℕ → List (Text × KeyLimiter L) → List (Text × KeyLimiter L)
  drop_idle now [] = []
  drop_idle now ((key, kl) ∷ m) =
      let rest = drop_idle now m in if is_idle now kl then rest else (key, kl) ∷ rest

  -- One tick of `cleanup`.
  abbrev pub cleanup : Limiter L → ℕ → Limiter L
  cleanup l now = record l { limiters = drop_idle now l.limiters }

  -- `Len`.
  abbrev pub len : Limiter L → ℕ
  len l = length l.limiters
