-- ===== src/Breaker/Invariant.antt =====
-- The invariant of the breaker of src/dashanan/infrastructure/circuit_breaker.py, and that no
-- recorded outcome raises.
use dashanan.Prelude.{
  ℕ, ◌≡◌, ◌≢◌, ◌≤◌, ◌<◌, ◌⊎◌, inl, inr, refl, Bool, Bool-cases, true, false, none, List, [], ◌∷◌,
  ◌++◌, arith, ◌==◌, if◌then◌else◌, length, length-append, length-drop, is_none, ok,
}
use dashanan.Prelude.Floats.{Floats}
use dashanan.Breaker.{
  closed, half_open, CallOutcome, Config, CircuitBreaker, init, deque_append, push_to_ring, trip,
  close, after_success, record_success, after_failure, record_failure, allow,
}

List-cases {ℓ} : {A : Type ℓ} (l : List A) → (l ≡ []) ⊎ ((x : A) × (r : List A) × (l ≡ x ∷ r))
List-cases [] = inl refl
List-cases (x ∷ r) = inr (x, r, refl)

module _ (f : Floats) where
  length-deque_append :
      (n : ℕ) (xs : List f.Float) (x : f.Float) → length xs ≤ n → length (deque_append f n xs x) ≤ n
  unfolding deque_append
  length-deque_append n xs x h =
      ground (arith, length-append xs (x ∷ []), length-drop 1 (xs ++ x ∷ []))

  module _ (cfg : Config f) where
    -- The ring and the baseline fit their bounds; a closed breaker has no trips and no opening
    -- time; one that is not closed has both; a half-open one has let between 1 and the configured
    -- number of probes pass, and has seen fewer successes than that number.
    pub record IsBreaker (b : CircuitBreaker f) : Type 0 where
      pub ring_bounded : length b.ring ≤ cfg.window_size
      pub baseline_bounded : length b.latency_baseline ≤ cfg.latency_baseline_size
      pub closed_reset : b.state ≡ closed → (b.trip_count ≡ 0) × (b.opened_at ≡ none)
      pub tripped : b.state ≢ closed → (0 < b.trip_count) × (is_none b.opened_at ≡ false)
      pub probing :
          b.state ≡ half_open
          → (0 < b.half_open_attempts)
            × (b.half_open_attempts ≤ cfg.half_open_probe_count)
            × (b.half_open_successes < cfg.half_open_probe_count)

    -- All but the ring and the baseline.
    abbrev pub SameControl : CircuitBreaker f → CircuitBreaker f → Type 0
    SameControl p b =
        (p.state ≡ b.state)
        × (p.trip_count ≡ b.trip_count)
        × (p.opened_at ≡ b.opened_at)
        × (p.half_open_attempts ≡ b.half_open_attempts)
        × (p.half_open_successes ≡ b.half_open_successes)

    module _ (window : 0 < cfg.window_size) (probes : 0 < cfg.half_open_probe_count) where
      pub init-IsBreaker : IsBreaker (init f)
      init-IsBreaker = ground arith

      pub push_to_ring_total :
          (b : CircuitBreaker f) (o : CallOutcome f)
          → IsBreaker b
          → (p : CircuitBreaker f) × (push_to_ring f cfg b o ≡ ok p) × SameControl p b × IsBreaker p
      unfolding push_to_ring
      push_to_ring_total b o v = elim (Bool-cases (length b.ring == cfg.window_size)) [
        | inr room ↦
            let p = record b { ring = b.ring ++ o ∷ [] } in
            (
              p,
              rw room refl,
              (refl, refl, refl, refl, refl),
              ground (arith, length-append b.ring (o ∷ [])),
            )
        | inl full ↦ elim (List-cases b.ring) [
          | inl empty ↦ absurd (ground arith)
          | inr (x, rest, e) ↦
              let kept =
                if x.success
                then deque_append f cfg.latency_baseline_size b.latency_baseline x.latency_seconds
                else b.latency_baseline in
              let p = record b { ring = rest ++ o ∷ []; latency_baseline = kept } in
              (
                p,
                ground arith,
                (refl, refl, refl, refl, refl),
                ground (
                  arith,
                  length-append rest (o ∷ []),
                  length-deque_append cfg.latency_baseline_size b.latency_baseline
                      x.latency_seconds,
                ),
              )
        ]
      ]

      trip-IsBreaker : (b : CircuitBreaker f) (now : ℕ) → IsBreaker b → IsBreaker (trip f cfg b now)
      unfolding trip
      trip-IsBreaker b now v = ground arith

      close-IsBreaker : (b : CircuitBreaker f) → IsBreaker b → IsBreaker (close f cfg b)
      unfolding close
      close-IsBreaker b v = ground arith

      after_success-IsBreaker :
          (b : CircuitBreaker f) (now : ℕ) → IsBreaker b → IsBreaker (after_success f cfg b now)
      unfolding after_success
      after_success-IsBreaker b now v = ground (arith, trip-IsBreaker b now v)

      after_failure-IsBreaker :
          (b : CircuitBreaker f) (now : ℕ) → IsBreaker b → IsBreaker (after_failure f cfg b now)
      unfolding after_failure
      after_failure-IsBreaker b now v = ground (arith, trip-IsBreaker b now v)

      -- On a breaker that satisfies the invariant, neither recording method raises, and both keep
      -- the invariant.
      pub record_success_total :
          (b : CircuitBreaker f) (latency : f.Float) (now : ℕ)
          → IsBreaker b
          → (b' : CircuitBreaker f) × (record_success f cfg b latency now ≡ ok b') × IsBreaker b'
      unfolding record_success
      record_success_total b latency now v =
          let (p, e, _, w) =
            push_to_ring_total b (record { success = true; latency_seconds = latency }) v in
          (after_success f cfg p now, rw e refl, after_success-IsBreaker p now w)

      pub record_failure_total :
          (b : CircuitBreaker f) (latency : f.Float) (now : ℕ)
          → IsBreaker b
          → (b' : CircuitBreaker f) × (record_failure f cfg b latency now ≡ ok b') × IsBreaker b'
      unfolding record_failure
      record_failure_total b latency now v =
          let (p, e, _, w) =
            push_to_ring_total b (record { success = false; latency_seconds = latency }) v in
          (after_failure f cfg p now, rw e refl, after_failure-IsBreaker p now w)

      pub allow-IsBreaker :
          (b : CircuitBreaker f) (now : ℕ) {b' : CircuitBreaker f} {ok_to_call : Bool}
          → IsBreaker b
          → allow f cfg b now ≡ ok (b', ok_to_call)
          → IsBreaker b'
      unfolding allow
      allow-IsBreaker b now v e = ground arith
