-- ===== src/Breaker.antt =====
-- src/dashanan/infrastructure/circuit_breaker.py. Every method holds the breaker's lock, so it is
-- one step; `now` is what the clock returns in it. Instants are microseconds.
pub mod Invariant
pub mod Recovery
pub mod Outage
use dashanan.Prelude.{
  ℕ, ◌+◌, ◌-◌, ◌^◌, ◌≡◌, Bool, true, false, ◌&&◌, ◌||◌, not, Option, none, some, List, [], ◌∷◌,
  ◌++◌, ltb, leb, ◌==◌, if◌then◌else◌, length, count_if, drop, sorted, min, max, is_none, Result,
  ok, raise, overflow_error, index_error, ◌>>=◌, zero, suc,
}
use dashanan.Prelude.Floats.{Floats, lt, fmin}

pub data BreakerState : Type 0 where
  closed open_state half_open : BreakerState

-- `float(2**exponent)`, which raises OverflowError from 2 ** 1024 on.
module _ (f : Floats) where
  open f use {Float, le, add, sub, mul, div, of_int, of_ratio, timestamp, ceil}

  unfoldable pub float_pow2 : ℕ → Result Float
  float_pow2 exponent =
      if leb 1024 exponent then raise overflow_error else ok (of_int (2 ^ exponent))

  pub record CallOutcome : Type 0 where
    pub success : Bool
    pub latency_seconds : Float

  -- The arguments of the constructor.
  pub record Config : Type 0 where
    pub window_size : ℕ
    pub failure_rate_threshold : Float
    pub slow_call_rate_threshold : Float
    pub slow_call_multiplier : Float
    pub base_backoff_seconds : Float
    pub max_backoff_seconds : Float
    pub half_open_probe_count : ℕ
    pub latency_baseline_size : ℕ

  pub record CircuitBreaker : Type 0 where
    pub ring : List CallOutcome
    pub latency_baseline : List Float
    pub state : BreakerState
    pub trip_count : ℕ
    pub opened_at : Option ℕ
    pub half_open_attempts : ℕ
    pub half_open_successes : ℕ

  abbrev pub init : CircuitBreaker
  init = record {
    ring = [];
    latency_baseline = [];
    state = closed;
    trip_count = 0;
    opened_at = none;
    half_open_attempts = 0;
    half_open_successes = 0;
  }

  -- `append` of a `deque` with the given `maxlen`.
  unfoldable pub deque_append : ℕ → List Float → Float → List Float
  deque_append maxlen xs x = if leb maxlen (length xs) then drop 1 (xs ++ x ∷ []) else xs ++ x ∷ []

  -- `baseline[index]`; the index is in range, as `p99_index` is below the length.
  unfoldable pub elem_at : ℕ → List Float → Option Float
  elem_at i [] = none
  elem_at zero (x ∷ xs) = some x
  elem_at (suc i) (x ∷ xs) = elem_at i xs

  -- `max(min(len(baseline) - 1, ceil(0.99 * len(baseline)) - 1), 0)`
  unfoldable pub p99_index : ℕ → ℕ
  p99_index n = min (n - 1) (ceil (mul (of_ratio 99 100) (of_int n)) - 1)

  -- `_p99_latency_locked`, with `_MIN_BASELINE_SAMPLES` 5.
  unfoldable pub p99_latency : List Float → Option Float
  unfolding p99_index elem_at sorted
  p99_latency baseline =
      if ltb (length baseline) 5
      then none
      else elem_at (p99_index (length baseline)) (sorted (lt f) baseline)

  module _ (cfg : Config) where
    open cfg use {
      window_size, failure_rate_threshold, slow_call_rate_threshold, slow_call_multiplier,
      base_backoff_seconds, max_backoff_seconds, half_open_probe_count, latency_baseline_size,
    }

    -- `_push_to_ring_locked`
    unfoldable pub push_to_ring : CircuitBreaker → CallOutcome → Result CircuitBreaker
    unfolding deque_append
    push_to_ring b outcome =
        if length b.ring == window_size
        then (elim b.ring [
          | [] ↦ raise index_error
          | evicted ∷ rest ↦ ok (record b {
            ring = rest ++ outcome ∷ [];
            latency_baseline =
                if evicted.success
                then deque_append latency_baseline_size b.latency_baseline evicted.latency_seconds
                else b.latency_baseline;
          })
        ])
        else ok (record b { ring = b.ring ++ outcome ∷ [] })

    -- `_trip_locked`
    unfoldable pub trip : CircuitBreaker → ℕ → CircuitBreaker
    trip b now = record b {
      trip_count = b.trip_count + 1;
      state = open_state;
      opened_at = some now;
      ring = [];
    }

    -- `_close_locked`
    unfoldable pub close : CircuitBreaker → CircuitBreaker
    close b = record b { state = closed; trip_count = 0; opened_at = none; ring = [] }

    unfoldable pub failure_rate : CircuitBreaker → Float
    failure_rate b = div (of_int (count_if (λ c. not c.success) b.ring)) (of_int (length b.ring))

    unfoldable pub slow_rate : CircuitBreaker → Float
    unfolding p99_latency
    slow_rate b = elim (p99_latency b.latency_baseline) [
      | none ↦ of_int 0
      | some p99 ↦
          div
            (of_int (
              count_if (λ c. c.success && lt f (mul p99 slow_call_multiplier) c.latency_seconds)
                b.ring))
            (of_int (length b.ring))
    ]

    -- The condition of `_evaluate_locked` under which it trips.
    unfoldable pub must_trip : CircuitBreaker → Bool
    unfolding failure_rate slow_rate
    must_trip b =
        not (ltb (length b.ring) window_size)
        && (le failure_rate_threshold (failure_rate b) || le slow_call_rate_threshold (slow_rate b))

    -- `_evaluate_locked`
    unfoldable pub evaluate : CircuitBreaker → ℕ → CircuitBreaker
    unfolding must_trip trip
    evaluate b now = if must_trip b then trip b now else b

    -- The part of `record_success` behind the push.
    unfoldable pub after_success : CircuitBreaker → ℕ → CircuitBreaker
    unfolding evaluate close
    after_success b now = elim b.state [
      | half_open ↦
          let counted = record b { half_open_successes = b.half_open_successes + 1 } in
          if leb half_open_probe_count counted.half_open_successes then close counted else counted
      | closed ↦ evaluate b now
      | open_state ↦ evaluate b now
    ]

    unfoldable pub record_success : CircuitBreaker → Float → ℕ → Result CircuitBreaker
    unfolding push_to_ring after_success
    record_success b latency now = do
      pushed ← push_to_ring b (record { success = true; latency_seconds = latency })
      ok (after_success pushed now)

    -- The part of `record_failure` behind the push.
    unfoldable pub after_failure : CircuitBreaker → ℕ → CircuitBreaker
    unfolding evaluate trip
    after_failure b now = elim b.state [
      | half_open ↦ trip b now
      | closed ↦ evaluate b now
      | open_state ↦ evaluate b now
    ]

    unfoldable pub record_failure : CircuitBreaker → Float → ℕ → Result CircuitBreaker
    unfolding push_to_ring after_failure
    record_failure b latency now = do
      pushed ← push_to_ring b (record { success = false; latency_seconds = latency })
      ok (after_failure pushed now)

    -- `_current_backoff_seconds_locked`
    unfoldable pub current_backoff_seconds : CircuitBreaker → Result Float
    unfolding float_pow2
    current_backoff_seconds b = do
      factor ← float_pow2 (b.trip_count - 1)
      ok (fmin f (mul base_backoff_seconds factor) max_backoff_seconds)

    -- `_backoff_elapsed_locked`
    unfoldable pub backoff_elapsed : CircuitBreaker → ℕ → Result Bool
    unfolding current_backoff_seconds
    backoff_elapsed b now = elim b.opened_at [
      | none ↦ ok true
      | some opened ↦ do
        backoff ← current_backoff_seconds b
        ok (le (add (timestamp opened) backoff) (timestamp now))
    ]

    unfoldable pub allow : CircuitBreaker → ℕ → Result (CircuitBreaker × Bool)
    unfolding backoff_elapsed
    allow b now = elim b.state [
      | closed ↦ ok (b, true)
      | open_state ↦ do
        elapsed ← backoff_elapsed b now
        if elapsed
            then ok (
              record b { state = half_open; half_open_attempts = 1; half_open_successes = 0 },
              true,
            )
            else ok (b, false)
      | half_open ↦
          if ltb b.half_open_attempts half_open_probe_count
          then ok (record b { half_open_attempts = b.half_open_attempts + 1 }, true)
          else ok (b, false)
    ]

    unfoldable pub retry_after_seconds : CircuitBreaker → ℕ → Result ℕ
    unfolding current_backoff_seconds
    retry_after_seconds b now = elim b.state [
      | closed ↦ ok 1
      | half_open ↦ ok 1
      | open_state ↦ elim b.opened_at [
        | none ↦ ok 1
        | some opened ↦ do
          backoff ← current_backoff_seconds b
          ok (max 1 (ceil (sub (add (timestamp opened) backoff) (timestamp now))))
      ]
    ]
