-- ===== src/Tests/Breaker.antt =====
-- Runs of the breaker of src/dashanan/infrastructure/circuit_breaker.py.
use dashanan.Prelude.{ℕ, ◌+◌, ◌≡◌, refl, true, some, arith, leb, le→leb, ok, raise, overflow_error}
use dashanan.Prelude.Floats.{micro_floats}
use dashanan.Breaker.{
  Config, CircuitBreaker, open_state, half_open, init, allow, record_failure, retry_after_seconds,
}
use dashanan.Breaker.Invariant.{IsBreaker}
use dashanan.Breaker.Recovery.{
  Steps, failed, here, next, Steps-IsBreaker, allow_recovers, IsStuck, stuck_for_ever,
}
use dashanan.Breaker.Outage.{FailingProbes, outage_for_ever}

abbrev config : Config micro_floats
config = record {
  window_size = 1;
  failure_rate_threshold = 500000;
  slow_call_rate_threshold = 1000000;
  slow_call_multiplier = 3000000;
  base_backoff_seconds = 1000000;
  max_backoff_seconds = 60000000;
  half_open_probe_count = 1;
  latency_baseline_size = 3;
}

abbrev tripped : CircuitBreaker micro_floats
tripped = record (init micro_floats) { state = open_state; trip_count = 1; opened_at = some 7 }

first_failure : record_failure micro_floats config (init micro_floats) 40 7 ≡ ok tripped
unfolding record_failure
first_failure = refl

tripped_reached : Steps micro_floats config (init micro_floats) tripped
tripped_reached = next here (failed 40 7 first_failure)

Steps-IsBreaker_example : IsBreaker micro_floats config tripped
Steps-IsBreaker_example =
    Steps-IsBreaker micro_floats config (omega arith) (omega arith) tripped_reached

backoff_passes : (t : ℕ) → (u : ℕ) × (leb (t + 60000000) u ≡ true)
backoff_passes t = (t + 60000000, le→leb (t + 60000000) (t + 60000000) (omega arith))

outage_for_ever_example :
    (c : CircuitBreaker micro_floats) × FailingProbes micro_floats config tripped c
    × ((d : CircuitBreaker micro_floats) (now : ℕ)
        → Steps micro_floats config c d
        → allow micro_floats config d now ≡ raise overflow_error)
outage_for_ever_example =
    outage_for_ever micro_floats config (omega arith) (omega arith) backoff_passes tripped
      tripped_reached refl

allow_recovers_example :
    allow micro_floats config tripped 60000007
    ≡ ok (
      record tripped { state = half_open; half_open_attempts = 1; half_open_successes = 0 },
      true,
    )
allow_recovers_example =
    allow_recovers micro_floats config tripped 7 60000007 refl refl (omega arith) refl

abbrev worn : CircuitBreaker micro_floats
worn = record tripped { trip_count = 1025 }

worn-IsStuck : IsStuck micro_floats config worn
worn-IsStuck = record { open_now = refl; opened = refl; trips = omega arith }

stuck_for_ever_example :
    (allow micro_floats config worn 8 ≡ raise overflow_error)
    × (retry_after_seconds micro_floats config worn 8 ≡ raise overflow_error)
stuck_for_ever_example = stuck_for_ever micro_floats config worn-IsStuck here 8
