-- ===== src/Gate/Limiter.antt =====
-- src/dashanan/domain/write_rate_limiter.py. Instants are microseconds.
pub mod Bounds
use dashanan.Prelude.{ℕ, ◌-◌, Bool, true, false, leb, if◌then◌else◌, Result, ok, raise, value_error}
use dashanan.Prelude.Floats.{Floats, fmax, fmin}

module _ (f : Floats) where
  open f use {Float, le, add, sub, mul, of_int, seconds}

  pub record TokenBucketConfig : Type 0 where
    pub capacity : Float
    pub refill_per_second : Float

  -- `TokenBucketConfig.__post_init__`; the error is a WriteRateLimiterConfigError.
  unfoldable pub check_bucket_config : TokenBucketConfig → Result TokenBucketConfig
  check_bucket_config c =
      if le c.capacity (of_int 0)
      then raise value_error
      else if le c.refill_per_second (of_int 0)
      then raise value_error
      else ok c

  pub record TokenBucketState : Type 0 where
    pub tokens : Float
    pub last_refilled_at : ℕ

  unfoldable pub new_full_bucket : TokenBucketConfig → ℕ → TokenBucketState
  new_full_bucket config now = record { tokens = config.capacity; last_refilled_at = now }

  -- `max(0.0, (now - last).total_seconds())`, which is 0.0 for a negative difference.
  unfoldable pub elapsed_seconds : ℕ → ℕ → Float
  elapsed_seconds last now =
      if leb last now then fmax f (of_int 0) (seconds (now - last)) else of_int 0

  unfoldable pub refilled_tokens : TokenBucketState → TokenBucketConfig → ℕ → Float
  unfolding elapsed_seconds
  refilled_tokens state config now =
      fmin f config.capacity (
        add state.tokens
          (mul (elapsed_seconds state.last_refilled_at now) config.refill_per_second))

  unfoldable pub try_consume :
      TokenBucketState → TokenBucketConfig → ℕ → Float → TokenBucketState × Bool
  unfolding refilled_tokens
  try_consume state config now cost =
      let refilled = refilled_tokens state config now in
      if le cost refilled
      then (record { tokens = sub refilled cost; last_refilled_at = now }, true)
      else (record { tokens = refilled; last_refilled_at = now }, false)
