-- ===== src/Rotation/Deadline.antt =====
-- src/dashanan/domain/rotation_deadline.py and src/dashanan/domain/rotation_zone_policy.py
use dashanan.Prelude.{
  ◌≡◌, true, ◌&&◌, Option, none, some, ◌*◌, arith, if◌then◌else◌, Result, ok, raise, value_error,
  overflow_error, Bool-cases, inl, inr, not, ◌>>=◌,
}
use dashanan.Score.{lambda_from_half_life}
use dashanan.Prelude.Floats.{Floats, lt, fmax, fmin, fmin-le_right, le-fmin, le-fmax_right}

module _ (f : Floats) where
  open f use {Float, le, add, sub, mul, div, neg, exp, log, of_int, epsilon}

  -- `_U_EPS_GUARD`
  abbrev pub u_eps_guard : Float
  u_eps_guard = mul (of_int (10 * 6)) epsilon

  pub record Deadline : Type 0 where
    pub lambda_zone : Float
    pub theta : Float
    pub w_recency : Float
    pub c_weighted : Float
    pub max_age_remaining : Float
    pub cooldown_remaining : Float

  -- `u_floor`
  unfoldable pub u_floor : Deadline → Float
  u_floor d = fmax f u_eps_guard (exp (mul (neg d.lambda_zone) d.max_age_remaining))

  -- `min(max(delta_t, cooldown_remaining_s), max_age_remaining_s)`
  unfoldable pub effective_deadline : Deadline → Float → Float
  effective_deadline d delta_t = fmin f (fmax f delta_t d.cooldown_remaining) d.max_age_remaining

  -- The part of `compute_rotation_deadline` behind its two guards.
  unfoldable pub solve_deadline : Deadline → Option Float
  unfolding u_floor effective_deadline
  solve_deadline d =
      let u = div (sub d.theta d.c_weighted) d.w_recency in
      let delta_t = div (neg (log u)) d.lambda_zone in
      if le u (u_floor d)
      then none
      else if le (of_int 1) u
      then some (effective_deadline d (of_int 0))
      else if lt f d.max_age_remaining delta_t
      then none
      else some (effective_deadline d delta_t)

  unfoldable pub compute_rotation_deadline : Deadline → Result (Option Float)
  unfolding solve_deadline
  compute_rotation_deadline d =
      if le d.lambda_zone (of_int 0)
      then raise value_error
      else if le d.w_recency (of_int 0)
      then raise value_error
      else if f.exp_overflows (mul (neg d.lambda_zone) d.max_age_remaining)
      then raise overflow_error
      else ok (solve_deadline d)

  abbrev pub IsInWindow : Deadline → Float → Type 0
  IsInWindow d t =
      (le t d.max_age_remaining ≡ true)
      × (le d.cooldown_remaining d.max_age_remaining ≡ true → le d.cooldown_remaining t ≡ true)

  effective_deadline-IsInWindow : (d : Deadline) (x : Float) → IsInWindow d (effective_deadline d x)
  unfolding effective_deadline
  effective_deadline-IsInWindow d x = (
    fmin-le_right f (fmax f x d.cooldown_remaining) d.max_age_remaining,
    λ h.
        le-fmin f d.cooldown_remaining (fmax f x d.cooldown_remaining) d.max_age_remaining
          (le-fmax_right f x d.cooldown_remaining) h,
  )

  not_pinned :
      (d : Deadline) (t : Float)
      → solve_deadline d ≡ some t
      → lt f (u_floor d) (div (sub d.theta d.c_weighted) d.w_recency) ≡ true
  unfolding solve_deadline
  not_pinned d t h = ground arith

  solve_deadline-effective :
      (d : Deadline) (t : Float)
      → solve_deadline d ≡ some t
      → (x : Float) × (t ≡ effective_deadline d x)
  unfolding solve_deadline
  solve_deadline-effective d t h =
      let u = div (sub d.theta d.c_weighted) d.w_recency in
      let delta_t = div (neg (log u)) d.lambda_zone in
      elim (Bool-cases (le (of_int 1) u)) [
        | inl p ↦ (of_int 0, ground arith)
        | inr p ↦ (delta_t, ground arith)
      ]

  -- A deadline of an item whose MaxAge and cooldown have not passed is not negative.
  pub compute_rotation_deadline-nonneg :
      (d : Deadline) (t : Float)
      → le (of_int 0) d.max_age_remaining ≡ true
      → le (of_int 0) d.cooldown_remaining ≡ true
      → compute_rotation_deadline d ≡ ok (some t)
      → le (of_int 0) t ≡ true
  unfolding compute_rotation_deadline
  compute_rotation_deadline-nonneg d t m c h =
      let solved : solve_deadline d ≡ some t = ground arith in
      let (x, e) = solve_deadline-effective d t solved in
      rw (e, effective_deadline)
        (le-fmin f (of_int 0) (fmax f x d.cooldown_remaining) d.max_age_remaining
          (f.le-trans (of_int 0) d.cooldown_remaining (fmax f x d.cooldown_remaining) c
            (le-fmax_right f x d.cooldown_remaining))
          m)

  -- A deadline that `compute_rotation_deadline` returns comes from a positive decay constant and a
  -- positive recency weight, of an item that is not pinned by its floor; it is not beyond the
  -- remaining MaxAge, and not before the end of the cooldown if that ends within the remaining
  -- MaxAge.
  pub compute_rotation_deadline_window :
      (d : Deadline) (t : Float)
      → compute_rotation_deadline d ≡ ok (some t)
      → (lt f (of_int 0) d.lambda_zone ≡ true)
        × (lt f (of_int 0) d.w_recency ≡ true)
        × (lt f (u_floor d) (div (sub d.theta d.c_weighted) d.w_recency) ≡ true)
        × IsInWindow d t
  unfolding compute_rotation_deadline
  compute_rotation_deadline_window d t h =
      let solved : solve_deadline d ≡ some t = ground arith in
      let (x, e) = solve_deadline-effective d t solved in
      (ground arith, ground arith, not_pinned d t solved, rw e (effective_deadline-IsInWindow d x))

  -- src/dashanan/domain/rotation_deadline.py, `weighted_non_recency_sum`
  unfoldable pub weighted_non_recency_sum :
      Float → Float → Float → Float → Float → Float → Float → Float → Float → Float → Float
  weighted_non_recency_sum w_frequency frequency w_importance importance w_user_affinity
        user_affinity w_task_relevance task_relevance w_provenance_confidence
        provenance_confidence =
      add
        (add
          (add (add (mul w_frequency frequency) (mul w_importance importance))
            (mul w_user_affinity user_affinity))
          (mul w_task_relevance task_relevance))
        (mul w_provenance_confidence provenance_confidence)

  pub record RotationZonePolicy : Type 0 where
    pub lambda_zone : Float
    pub compress_threshold : Float
    pub max_age_seconds : Float
    pub cooldown_seconds : Float

  -- `RotationZonePolicy.__post_init__`
  unfoldable pub check_policy : RotationZonePolicy → Result RotationZonePolicy
  check_policy p =
      if le p.lambda_zone (of_int 0)
      then raise value_error
      else if not (le (of_int 0) p.compress_threshold && le p.compress_threshold (of_int 1))
      then raise value_error
      else if le p.max_age_seconds (of_int 0)
      then raise value_error
      else if lt f p.cooldown_seconds (of_int 0)
      then raise value_error
      else ok p

  -- `RotationZonePolicy.for_zone`: the decay rate of the half-life, which is the cooldown too.
  unfoldable pub for_zone : Float → Float → Float → Result RotationZonePolicy
  unfolding lambda_from_half_life check_policy
  for_zone t_half_seconds compress_threshold max_age_seconds = do
    lambda_zone ← lambda_from_half_life f (some t_half_seconds)
    check_policy (record {
      lambda_zone = lambda_zone;
      compress_threshold = compress_threshold;
      max_age_seconds = max_age_seconds;
      cooldown_seconds = t_half_seconds;
    })
