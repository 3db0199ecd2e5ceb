-- ===== src/Breaker/Recovery.antt =====
-- How the breaker of src/dashanan/infrastructure/circuit_breaker.py moves between its states, when
-- it recovers, and when it cannot.
use dashanan.Prelude.{
  ℕ, ◌+◌, ◌-◌, ◌≡◌, ◌≤◌, ◌<◌, Bool, true, false, none, some, arith, leb, is_none, ok, raise,
  overflow_error, >>=-eq-ok, sym, subst, ◌∙◌, ◌^◌, ok-injective,
}
use dashanan.Prelude.Floats.{Floats, fmin, fmin-le_right}
use dashanan.Breaker.{
  BreakerState, closed, open_state, half_open, CallOutcome, Config, CircuitBreaker, init,
  push_to_ring, after_success, record_success, after_failure, record_failure, float_pow2,
  current_backoff_seconds, backoff_elapsed, allow, retry_after_seconds,
}
use dashanan.Breaker.Invariant.{
  IsBreaker, SameControl, init-IsBreaker, record_success_total, record_failure_total,
  allow-IsBreaker,
}

module _ (f : Floats) (cfg : Config f) where
  -- One call of a method by any thread: each holds the lock throughout.
  pub data Step : CircuitBreaker f → CircuitBreaker f → Type 0 where
    asked :
        {b b' : CircuitBreaker f} {permitted : Bool} (now : ℕ)
        → allow f cfg b now ≡ ok (b', permitted)
        → Step b b'
    succeeded :
        {b b' : CircuitBreaker f} (latency : f.Float) (now : ℕ)
        → record_success f cfg b latency now ≡ ok b'
        → Step b b'
    failed :
        {b b' : CircuitBreaker f} (latency : f.Float) (now : ℕ)
        → record_failure f cfg b latency now ≡ ok b'
        → Step b b'

  pub data Steps (b : CircuitBreaker f) : CircuitBreaker f → Type 0 where
    here : Steps b b
    next : {c d : CircuitBreaker f} → Steps b c → Step c d → Steps b d

  pub Steps-append : {b c d : CircuitBreaker f} → Steps b c → Steps c d → Steps b d
  Steps-append r here = r
  Steps-append r (next q s) = next (Steps-append r q) s

  -- The edges of the state machine.
  abbrev pub may_move : BreakerState → BreakerState → Bool
  may_move closed half_open = false
  may_move open_state closed = false
  may_move _ _ = true

  push_to_ring-SameControl :
      (b : CircuitBreaker f) (o : CallOutcome f) {p : CircuitBreaker f}
      → push_to_ring f cfg b o ≡ ok p
      → SameControl f cfg p b
  unfolding push_to_ring
  push_to_ring-SameControl b o e = ground arith

  record_success-parts :
      (b : CircuitBreaker f) (latency : f.Float) (now : ℕ) {b' : CircuitBreaker f}
      → record_success f cfg b latency now ≡ ok b'
      → (p : CircuitBreaker f) × SameControl f cfg p b × (b' ≡ after_success f cfg p now)
  unfolding record_success
  record_success-parts b latency now {b'} e =
      let o : CallOutcome f = record { success = true; latency_seconds = latency } in
      let (p, pushed, e') =
        >>=-eq-ok (push_to_ring f cfg b o) (λ p. ok (after_success f cfg p now)) e in
      (p, push_to_ring-SameControl b o pushed, ground arith)

  record_failure-parts :
      (b : CircuitBreaker f) (latency : f.Float) (now : ℕ) {b' : CircuitBreaker f}
      → record_failure f cfg b latency now ≡ ok b'
      → (p : CircuitBreaker f) × SameControl f cfg p b × (b' ≡ after_failure f cfg p now)
  unfolding record_failure
  record_failure-parts b latency now {b'} e =
      let o : CallOutcome f = record { success = false; latency_seconds = latency } in
      let (p, pushed, e') =
        >>=-eq-ok (push_to_ring f cfg b o) (λ p. ok (after_failure f cfg p now)) e in
      (p, push_to_ring-SameControl b o pushed, ground arith)

  after_success-moves :
      (p : CircuitBreaker f) (now : ℕ) → may_move p.state (after_success f cfg p now).state ≡ true
  unfolding after_success
  after_success-moves p now = ground arith

  after_failure-moves :
      (p : CircuitBreaker f) (now : ℕ) → may_move p.state (after_failure f cfg p now).state ≡ true
  unfolding after_failure
  after_failure-moves p now = ground arith

  -- No call takes a closed breaker to half-open or an open one to closed: it closes only from
  -- half-open, and becomes half-open only from open.
  pub Step-may_move : {b b' : CircuitBreaker f} → Step b b' → may_move b.state b'.state ≡ true
  unfolding allow
  Step-may_move (asked {b = b} now e) = ground arith
  Step-may_move (succeeded {b = b} latency now e) =
      let (p, same, r) = record_success-parts b latency now e in
      subst (λ (x : CircuitBreaker f). may_move b.state x.state ≡ true) (sym r)
        (subst (λ (x : BreakerState). may_move x (after_success f cfg p now).state ≡ true) same.0
          (after_success-moves p now))
  Step-may_move (failed {b = b} latency now e) =
      let (p, same, r) = record_failure-parts b latency now e in
      subst (λ (x : CircuitBreaker f). may_move b.state x.state ≡ true) (sym r)
        (subst (λ (x : BreakerState). may_move x (after_failure f cfg p now).state ≡ true) same.0
          (after_failure-moves p now))

  -- A half-open breaker opens again at the first failure. At a success it closes if that is the
  -- last of the configured number of probes, with its trips forgotten, and stays half-open
  -- otherwise.
  pub half_open_verdict :
      (b b' : CircuitBreaker f) (latency : f.Float) (now : ℕ)
      → b.state ≡ half_open
      → (record_failure f cfg b latency now ≡ ok b'
          → (b'.state ≡ open_state)
            × (b'.trip_count ≡ b.trip_count + 1)
            × (b'.opened_at ≡ some now))
        × (record_success f cfg b latency now ≡ ok b'
            → (cfg.half_open_probe_count ≤ b.half_open_successes + 1
                → (b'.state ≡ closed) × (b'.trip_count ≡ 0) × (b'.opened_at ≡ none))
              × (b.half_open_successes + 1 < cfg.half_open_probe_count
                  → (b'.state ≡ half_open) × (b'.half_open_successes ≡ b.half_open_successes + 1)))
  unfolding after_success after_failure
  half_open_verdict b b' latency now h = (
    λ e. let (p, same, r) = record_failure-parts b latency now e in ground arith,
    λ e.
        let (p, same, r) = record_success-parts b latency now e in
        (λ k. ground arith, λ k. ground arith),
  )

  module _ (window : 0 < cfg.window_size) (probes : 0 < cfg.half_open_probe_count) where
    Step-IsBreaker : {b b' : CircuitBreaker f} → Step b b' → IsBreaker f cfg b → IsBreaker f cfg b'
    Step-IsBreaker (asked {b = b} now e) v = allow-IsBreaker f cfg window probes b now v e
    Step-IsBreaker (succeeded {b = b} latency now e) v =
        let (c, r, w) = record_success_total f cfg window probes b latency now v in
        rw (ok-injective (sym e ∙ r)) w
    Step-IsBreaker (failed {b = b} latency now e) v =
        let (c, r, w) = record_failure_total f cfg window probes b latency now v in
        rw (ok-injective (sym e ∙ r)) w

    -- With a positive window and a positive number of probes, every breaker that any sequence of
    -- calls reaches from a new one satisfies the invariant.
    pub Steps-IsBreaker : {b : CircuitBreaker f} → Steps (init f) b → IsBreaker f cfg b
    Steps-IsBreaker here = init-IsBreaker f cfg window probes
    Steps-IsBreaker (next r s) = Step-IsBreaker s (Steps-IsBreaker r)

  -- An open breaker with at most 1024 trips in a row recovers: once the longest backoff has passed
  -- since it opened, `allow` permits the call and makes the breaker half-open with one probe.
  pub allow_recovers :
      (b : CircuitBreaker f) (opened now : ℕ)
      → b.state ≡ open_state
      → b.opened_at ≡ some opened
      → b.trip_count ≤ 1024
      → f.le (f.add (f.timestamp opened) cfg.max_backoff_seconds) (f.timestamp now) ≡ true
      → allow f cfg b now
        ≡ ok (record b { state = half_open; half_open_attempts = 1; half_open_successes = 0 }, true)
  unfolding allow backoff_elapsed current_backoff_seconds float_pow2
  allow_recovers b opened now s o t late =
      let step = f.of_int (2 ^ (b.trip_count - 1)) in
      let backoff = fmin f (f.mul cfg.base_backoff_seconds step) cfg.max_backoff_seconds in
      let due : f.le (f.add (f.timestamp opened) backoff) (f.timestamp now) ≡ true =
        f.le-trans _ _ _
          (f.add-mono (f.timestamp opened) backoff cfg.max_backoff_seconds (fmin-le_right f _ _))
          late in
      let small : leb 1024 (b.trip_count - 1) ≡ false = ground arith in ground arith

  -- An open breaker with more trips in a row than `float` can raise 2 to.
  pub record IsStuck (b : CircuitBreaker f) : Type 0 where
    pub open_now : b.state ≡ open_state
    pub opened : is_none b.opened_at ≡ false
    pub trips : 1025 ≤ b.trip_count

  stuck_raises :
      (b : CircuitBreaker f) (now : ℕ)
      → IsStuck b
      → (allow f cfg b now ≡ raise overflow_error)
        × (retry_after_seconds f cfg b now ≡ raise overflow_error)
  unfolding allow backoff_elapsed retry_after_seconds current_backoff_seconds float_pow2
  stuck_raises b now v =
      let big : leb 1024 (b.trip_count - 1) ≡ true = ground arith in (ground arith, ground arith)

  Step-IsStuck : {b b' : CircuitBreaker f} → Step b b' → IsStuck b → IsStuck b'
  unfolding after_success after_failure
  Step-IsStuck (asked {b = b} now e) v = absurd (ground (arith, stuck_raises b now v))
  Step-IsStuck (succeeded {b = b} latency now e) v =
      let (p, same, r) = record_success-parts b latency now e in ground arith
  Step-IsStuck (failed {b = b} latency now e) v =
      let (p, same, r) = record_failure-parts b latency now e in ground arith

  -- From an open breaker with more than 1024 trips in a row no sequence of calls leads to a breaker
  -- whose `allow` returns: at every instant `allow` and `retry_after_seconds` raise OverflowError.
  pub stuck_for_ever :
      {b b' : CircuitBreaker f}
      → IsStuck b
      → Steps b b'
      → (now : ℕ)
      → (allow f cfg b' now ≡ raise overflow_error)
        × (retry_after_seconds f cfg b' now ≡ raise overflow_error)
  stuck_for_ever {b} {b'} v r now = stuck_raises b' now (all r)
    where
      all : {c : CircuitBreaker f} → Steps b c → IsStuck c
      all here = v
      all (next q s) = Step-IsStuck s (all q)
