-- ===== src/Gate/Limiter/Bounds.antt =====
-- How many writes the token bucket of src/dashanan/domain/write_rate_limiter.py lets pass.
use dashanan.Prelude.{
  ℕ, zero, suc, ◌+◌, ◌-◌, ◌*◌, ◌≡◌, ◌≤◌, ◌<◌, refl, ap, true, List, [], ◌∷◌, arith, if◌then◌else◌,
}
use dashanan.Prelude.Floats.{Floats, micro_floats, micro_unit, fmin-le_left}
use dashanan.Gate.Limiter.{TokenBucketConfig, TokenBucketState, refilled_tokens, try_consume}

-- The attempts at the given instants, each of one token: the last state, and how many passed.
unfoldable pub attempts :
    (f : Floats) → TokenBucketConfig f → TokenBucketState f → List ℕ → TokenBucketState f × ℕ
unfolding try_consume
attempts f config state [] = (state, 0)
attempts f config state (now ∷ later) =
    let (s, allowed) = try_consume f state config now (f.of_int 1) in
    let rest = attempts f config s later in (rest.0, (if allowed then suc rest.1 else rest.1))

-- The instants do not fall, from the given one on.
abbrev pub IsMonotone : ℕ → List ℕ → Type 0
IsMonotone t [] = Unit
IsMonotone t (u ∷ us) = (t ≤ u) × IsMonotone u us

module _ (f : Floats) (config : TokenBucketConfig f) where
  -- The refilled balance never exceeds the capacity, and an attempt is allowed exactly when it
  -- covers the cost; an attempt that is refused spends nothing, and one that is allowed spends the
  -- cost. Either way the bucket is as of the instant of the attempt.
  pub try_consume_lem :
      (state : TokenBucketState f) (now : ℕ) (cost : f.Float)
      → let balance = refilled_tokens f state config now in
        let after = try_consume f state config now cost in
        (f.le balance config.capacity ≡ true)
        × (after.1 ≡ f.le cost balance)
        × (after.0.tokens ≡ (if f.le cost balance then f.sub balance cost else balance))
        × (after.0.last_refilled_at ≡ now)
  unfolding try_consume refilled_tokens
  try_consume_lem state now cost = (fmin-le_left f _ _, ground arith, ground arith, ground arith)

abbrev M : Floats
M = micro_floats

module _ (config : TokenBucketConfig M) where
  -- A refill adds at most the elapsed time at the configured rate.
  refill-le :
      (state : TokenBucketState M) (now : ℕ)
      → state.last_refilled_at ≤ now
      → micro_unit * refilled_tokens M state config now
          + state.last_refilled_at * config.refill_per_second
        ≤ micro_unit * state.tokens + now * config.refill_per_second
  unfolding refilled_tokens
  refill-le state now h =
      let credit = (now - state.last_refilled_at) * config.refill_per_second in
      let split : credit + state.last_refilled_at * config.refill_per_second
          ≡ now * config.refill_per_second =
        grind arith in
      ground arith

  spend :
      (state : TokenBucketState M) (now : ℕ)
      → state.last_refilled_at ≤ now
      → let after = try_consume M state config now micro_unit in
        micro_unit * after.0.tokens
          + (if after.1 then micro_unit * micro_unit else 0)
          + state.last_refilled_at * config.refill_per_second
        ≤ micro_unit * state.tokens + now * config.refill_per_second
  unfolding try_consume
  spend state now h = ground (arith, refill-le state now h)

  attempts_spend :
      (state : TokenBucketState M) (instants : List ℕ)
      → IsMonotone state.last_refilled_at instants
      → let after = attempts M config state instants in
        micro_unit * micro_unit * after.1
          + micro_unit * after.0.tokens
          + state.last_refilled_at * config.refill_per_second
        ≤ micro_unit * state.tokens + after.0.last_refilled_at * config.refill_per_second
  unfolding attempts
  attempts_spend state [] m = omega arith
  attempts_spend state (now ∷ later) m =
      let (after, allowed) = try_consume M state config now micro_unit in
      let at : after.last_refilled_at ≡ now = (try_consume_lem M config state now micro_unit).3 in
      let ih = attempts_spend after later (rw at m.1) in ground (arith, spend state now m.0, ih)

  attempt_capped :
      (state : TokenBucketState M) (now : ℕ)
      → (try_consume M state config now micro_unit).0.tokens ≤ config.capacity
  unfolding try_consume refilled_tokens
  attempt_capped state now = ground arith

  attempts_capped :
      (state : TokenBucketState M) (instants : List ℕ)
      → state.tokens ≤ config.capacity
      → (attempts M config state instants).0.tokens ≤ config.capacity
  unfolding attempts
  attempts_capped state [] c = c
  attempts_capped state (now ∷ later) c =
      attempts_capped (try_consume M state config now micro_unit).0 later (attempt_capped state now)

  -- In fixed-point arithmetic, over attempts whose instants never fall, on a bucket with at most its
  -- capacity: the tokens spent and the tokens left are together at most the tokens at the start and the
  -- refill rate times the time that passed; the tokens left are again at most the capacity; and the
  -- attempts that pass are at most as many as the capacity and the refill of that time are worth.
  pub attempts_bound :
      (state : TokenBucketState M) (instants : List ℕ)
      → state.tokens ≤ config.capacity
      → IsMonotone state.last_refilled_at instants
      → let after = attempts M config state instants in
        (micro_unit * micro_unit * after.1
            + micro_unit * after.0.tokens
            + state.last_refilled_at * config.refill_per_second
          ≤ micro_unit * state.tokens + after.0.last_refilled_at * config.refill_per_second)
        × (after.0.tokens ≤ config.capacity)
        × (micro_unit * micro_unit * after.1 + state.last_refilled_at * config.refill_per_second
            ≤ micro_unit * config.capacity + after.0.last_refilled_at * config.refill_per_second)
  attempts_bound state instants c m =
      let spent = attempts_spend state instants m in
      (spent, attempts_capped state instants c, ground arith)

  go_back :
      (t u : ℕ) (state : TokenBucketState M)
      → u < t
      → state.last_refilled_at ≡ t
      → 2 * micro_unit ≤ config.capacity
      → micro_unit ≤ state.tokens
      → state.tokens ≤ config.capacity
      → (s : TokenBucketState M) × (try_consume M state config u micro_unit ≡ (s, true))
        × (s.last_refilled_at ≡ u)
  unfolding try_consume refilled_tokens
  go_back t u state h l c e b =
      (record { tokens = state.tokens - micro_unit; last_refilled_at = u }, ground arith, refl)

  come_back :
      (t u : ℕ) (s : TokenBucketState M)
      → u < t
      → 2 * (micro_unit * micro_unit) ≤ (t - u) * config.refill_per_second
      → 2 * micro_unit ≤ config.capacity
      → s.last_refilled_at ≡ u
      → (s' : TokenBucketState M) × (try_consume M s config t micro_unit ≡ (s', true))
        × (s'.last_refilled_at ≡ t)
        × (micro_unit ≤ s'.tokens)
        × (s'.tokens ≤ config.capacity)
  unfolding try_consume refilled_tokens
  come_back t u s h k c r =
      let balance = refilled_tokens M s config t in
      let enough : 2 * micro_unit ≤ balance = ground arith in
      let capped : balance ≤ config.capacity = ground arith in
      (
        record { tokens = balance - micro_unit; last_refilled_at = t },
        ground arith,
        refl,
        omega arith,
        omega arith,
      )

  -- Two attempts for each of `n` returns of the clock from `t` to `u` and back.
  abbrev pub jitter : ℕ → ℕ → ℕ → List ℕ
  jitter zero t u = []
  jitter (suc n) t u = u ∷ t ∷ jitter n t u

  -- In fixed-point arithmetic, a clock that goes back from `t` to `u` and returns to `t` again and
  -- again lets every attempt pass, however many there are, if the time between `u` and `t` is worth
  -- two tokens, the capacity is at least two tokens, and the bucket starts with one: each step back
  -- sets the instant of the last refill back, so that the same time is credited again.
  pub jitter_unbounded :
      (n t u : ℕ) (state : TokenBucketState M)
      → u < t
      → 2 * (micro_unit * micro_unit) ≤ (t - u) * config.refill_per_second
      → 2 * micro_unit ≤ config.capacity
      → state.last_refilled_at ≡ t
      → micro_unit ≤ state.tokens
      → state.tokens ≤ config.capacity
      → (attempts M config state (jitter n t u)).1 ≡ 2 * n
  unfolding attempts
  jitter_unbounded zero t u state h k c l e b = refl
  jitter_unbounded (suc n) t u state h k c l e b =
      let (s, a, r) = go_back t u state h l c e b in
      let (s', a', r', e', b') = come_back t u s h k c r in
      let ih = jitter_unbounded n t u s' h k c r' e' b' in
      ground (arith, ih, ap (λ q. q.0) a, ap (λ q. q.0) a', ap (λ q. q.1) a, ap (λ q. q.1) a')
