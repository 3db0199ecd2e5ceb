-- ===== src/Breaker/Outage.antt =====
-- A long outage of the database behind the breaker of
-- src/dashanan/infrastructure/circuit_breaker.py: each probe fails.
use dashanan.Prelude.{
  ℕ, zero, suc, ◌+◌, ◌≡◌, ◌≤◌, ◌<◌, inl, inr, refl, Bool-cases, true, some, arith, leb, leb→le, ok,
  raise, overflow_error, Option-cases,
}
use dashanan.Prelude.Floats.{Floats}
use dashanan.Breaker.{open_state, half_open, Config, CircuitBreaker, init, allow, record_failure}
use dashanan.Breaker.Invariant.{IsBreaker, record_failure_total, allow-IsBreaker}
use dashanan.Breaker.Recovery.{
  Steps, next, asked, failed, IsStuck, allow_recovers, half_open_verdict, Steps-IsBreaker,
  stuck_for_ever,
}

module _ (f : Floats) (cfg : Config f) where
  -- A run of probes that fail: `allow` permits a call, and `record_failure` is the next call.
  pub data FailingProbes : CircuitBreaker f → CircuitBreaker f → Type 0 where
    no_probe : {b : CircuitBreaker f} → FailingProbes b b
    probe :
        {b c d e : CircuitBreaker f} (now at : ℕ) (latency : f.Float)
        → allow f cfg b now ≡ ok (c, true)
        → record_failure f cfg c latency at ≡ ok d
        → FailingProbes d e
        → FailingProbes b e

module _ (f : Floats) (cfg : Config f) (window : 0 < cfg.window_size)
    (probes : 0 < cfg.half_open_probe_count)
    (later : (t : ℕ)
      → (u : ℕ) × (f.le (f.add (f.timestamp t) cfg.max_backoff_seconds) (f.timestamp u)
          ≡ true)) where
  -- One probe after the backoff, which fails.
  failed_probe :
      (b : CircuitBreaker f)
      → Steps f cfg (init f) b
      → b.state ≡ open_state
      → b.trip_count ≤ 1024
      → (c : CircuitBreaker f) × ((e : CircuitBreaker f)
          → FailingProbes f cfg c e
          → FailingProbes f cfg b e)
        × Steps f cfg (init f) c
        × (c.state ≡ open_state)
        × (c.trip_count ≡ b.trip_count + 1)
  failed_probe b r s few =
      let v = Steps-IsBreaker f cfg window probes r in
      let (opened, at) = opening_time b v s in
      let (now, late) = later opened in
      let half = record b { state = half_open; half_open_attempts = 1; half_open_successes = 0 } in
      let permitted = allow_recovers f cfg b opened now s at few late in
      let w = allow-IsBreaker f cfg window probes b now v permitted in
      let (c, e, _) = record_failure_total f cfg window probes half (f.of_int 0) now w in
      let (o, t, _) = (half_open_verdict f cfg half c (f.of_int 0) now refl).0 e in
      (
        c,
        λ d q. probe now now (f.of_int 0) permitted e q,
        next (next r (asked now permitted)) (failed (f.of_int 0) now e),
        o,
        t,
      )
    where
      opening_time :
          (b : CircuitBreaker f)
          → IsBreaker f cfg b
          → b.state ≡ open_state
          → (opened : ℕ) × (b.opened_at ≡ some opened)
      opening_time b v s = elim (Option-cases b.opened_at) [
        | inr found ↦ found
        | inl missing ↦ absurd (ground arith)
      ]

  stuck :
      (b : CircuitBreaker f)
      → IsBreaker f cfg b
      → b.state ≡ open_state
      → 1025 ≤ b.trip_count
      → IsStuck f cfg b
  stuck b v s h = record { open_now = s; opened = (v.tripped (λ e. cc (e, s))).1; trips = h }

  outage :
      (n : ℕ) (b : CircuitBreaker f)
      → Steps f cfg (init f) b
      → b.state ≡ open_state
      → 1025 ≤ b.trip_count + n
      → (c : CircuitBreaker f) × FailingProbes f cfg b c × IsStuck f cfg c
  outage zero b r s h =
      (b, no_probe, stuck b (Steps-IsBreaker f cfg window probes r) s (omega arith))
  outage (suc n) b r s h = elim (Bool-cases (leb 1025 b.trip_count)) [
    | inl many ↦ (
      b,
      no_probe,
      stuck b (Steps-IsBreaker f cfg window probes r) s (leb→le 1025 b.trip_count many),
    )
    | inr few ↦
        let (c, q, r', s', t) = failed_probe b r s (ground arith) in
        let (d, q', v) = outage n c r' s' (omega arith) in (d, q d q', v)
  ]

  -- If every backoff passes at last, then from every reachable open breaker a run of nothing but probes
  -- that `allow` permits and `record_failure` follows leads to a breaker on which `allow` raises OverflowError at every instant and
  -- after every further run of calls: the breaker never permits a call again, also when the
  -- database is back.
  pub outage_for_ever :
      (b : CircuitBreaker f)
      → Steps f cfg (init f) b
      → b.state ≡ open_state
      → (c : CircuitBreaker f) × FailingProbes f cfg b c
        × ((d : CircuitBreaker f) (now : ℕ)
            → Steps f cfg c d
            → allow f cfg d now ≡ raise overflow_error)
  outage_for_ever b r s =
      let (c, q, v) = outage 1025 b r s (omega arith) in
      (c, q, λ d now p. (stuck_for_ever f cfg v p now).0)
