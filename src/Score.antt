-- ===== src/Score.antt =====
-- src/dashanan/domain/memory_score.py and `MemoryScoreEngine` of
-- src/dashanan/application/memory_score_engine.py. Its warning on a degenerate calibration is a log line
-- and left out.
use dashanan.Prelude.{
  ℕ, Bool, true, false, ◌&&◌, not, Option, none, some, List, [], ◌∷◌, leb, if◌then◌else◌, Text,
  codes, text_eq, Result, ok, raise, value_error, ◌>>=◌,
}
use dashanan.Prelude.Floats.{Floats, lt, fmax, fmin}

module _ (f : Floats) where
  open f use {Float, le, add, sub, mul, div, neg, exp, log, log1p, abs, of_int, of_ratio, sum}

  -- `_WEIGHT_SUM_EPSILON` and `_TERM_RANGE_EPSILON` are both 1e-9.
  abbrev pub range_epsilon : Float
  range_epsilon = of_ratio 1 1000000000

  -- `IMPORTANCE_TAG_VALUES.get(tag)`
  unfoldable pub importance_tag_value : Text → Option Float
  unfolding text_eq
  importance_tag_value tag =
      if text_eq tag (codes "critical")
      then some (of_int 1)
      else if text_eq tag (codes "high")
      then some (of_ratio 8 10)
      else if text_eq tag (codes "medium")
      then some (of_ratio 5 10)
      else if text_eq tag (codes "low")
      then some (of_ratio 2 10)
      else none

  unfoldable pub clamp01 : Float → Float
  clamp01 value = fmax f (of_int 0) (fmin f (of_int 1) value)

  unfoldable pub lambda_from_half_life : Option Float → Result Float
  lambda_from_half_life none = ok (of_int 0)
  lambda_from_half_life (some t_half) =
      if le t_half (of_int 0) then raise value_error else ok (div (log (of_int 2)) t_half)

  unfoldable pub compute_recency : Float → Float → Result Float
  compute_recency dt_seconds lambda_zone =
      if lt f lambda_zone (of_int 0)
      then raise value_error
      else ok (exp (mul (neg lambda_zone) (fmax f (of_int 0) dt_seconds)))

  -- The counts are natural numbers, so that the guard against a negative one has no counterpart.
  unfoldable pub compute_frequency : ℕ → ℕ → Result Float
  compute_frequency access_count f_cap =
      if leb f_cap 0
      then raise value_error
      else ok (fmin f (of_int 1) (div (log1p (of_int access_count)) (log1p (of_int f_cap))))

  -- The value of a tag, and that of the default tag for a missing one.
  unfoldable pub tag_or_default : Option Float → Float
  tag_or_default none = of_ratio 5 10
  tag_or_default (some value) = value

  unfoldable pub compute_importance : Option Text → Float
  unfolding importance_tag_value tag_or_default
  compute_importance none = tag_or_default none
  compute_importance (some tag) = tag_or_default (importance_tag_value tag)

  unfoldable pub is_degenerate_calibration : Float → Float → Bool
  is_degenerate_calibration cos_min cos_max = le cos_max cos_min && le cos_min cos_max

  unfoldable pub normalize_cosine : Float → Float → Float → Float
  unfolding clamp01 is_degenerate_calibration
  normalize_cosine cosine cos_min cos_max =
      if is_degenerate_calibration cos_min cos_max
      then clamp01 (div (add cosine (of_int 1)) (of_int 2))
      else clamp01 (div (sub cosine cos_min) (sub cos_max cos_min))

  unfoldable pub compute_user_affinity : Option Float → Float → Float → Float
  unfolding normalize_cosine
  compute_user_affinity none cos_min cos_max = of_ratio 5 10
  compute_user_affinity (some cosine) cos_min cos_max = normalize_cosine cosine cos_min cos_max

  unfoldable pub compute_task_relevance : Option Float → Float → Float → Float
  unfolding normalize_cosine
  compute_task_relevance none cos_min cos_max = of_int 0
  compute_task_relevance (some cosine) cos_min cos_max = normalize_cosine cosine cos_min cos_max

  pub record ScoreWeights : Type 0 where
    pub w_recency : Float
    pub w_frequency : Float
    pub w_importance : Float
    pub w_user_affinity : Float
    pub w_task_relevance : Float
    pub w_provenance_confidence : Float

  abbrev pub weights_of : ScoreWeights → List Float
  weights_of w =
      w.w_recency ∷ w.w_frequency ∷ w.w_importance ∷ w.w_user_affinity ∷ w.w_task_relevance
      ∷ w.w_provenance_confidence ∷ []

  -- The loop of `ScoreWeights.__post_init__`: whether it comes to its end.
  unfoldable pub are_weights : List Float → Bool
  are_weights [] = true
  are_weights (w ∷ ws) = let rest = are_weights ws in if lt f w (of_int 0) then false else rest

  -- `ScoreWeights.__post_init__`
  unfoldable pub check_weights : ScoreWeights → Result ScoreWeights
  unfolding are_weights
  check_weights w =
      if not (are_weights (weights_of w))
      then raise value_error
      else if lt f range_epsilon (abs (sub (sum (weights_of w)) (of_int 1)))
      then raise value_error
      else ok w

  -- `ScoreWeights.default`
  unfoldable pub default_weights : Result ScoreWeights
  unfolding check_weights
  default_weights =
      let sixth = div (of_int 1) (of_int 6) in
      check_weights (record {
        w_recency = sixth;
        w_frequency = sixth;
        w_importance = sixth;
        w_user_affinity = sixth;
        w_task_relevance = sixth;
        w_provenance_confidence = sixth;
      })

  pub record ScoreTerms : Type 0 where
    pub recency : Float
    pub frequency : Float
    pub importance : Float
    pub user_affinity : Float
    pub task_relevance : Float
    pub provenance_confidence : Float

  -- Whether a value lies in [0, 1] up to the epsilon.
  unfoldable pub is_in_range : Float → Bool
  is_in_range value = le (neg range_epsilon) value && le value (add (of_int 1) range_epsilon)

  -- `ScoreTerms.__post_init__`
  unfoldable pub check_terms : ScoreTerms → Result ScoreTerms
  unfolding is_in_range
  check_terms t =
      if is_in_range t.recency
        && is_in_range t.frequency
        && is_in_range t.importance
        && is_in_range t.user_affinity
        && is_in_range t.task_relevance
        && is_in_range t.provenance_confidence
      then ok t
      else raise value_error

  pub record MemoryScore : Type 0 where
    pub value : Float
    pub terms : ScoreTerms
    pub weights : ScoreWeights

  -- `MemoryScore.__post_init__`
  unfoldable pub check_score : MemoryScore → Result MemoryScore
  unfolding is_in_range
  check_score s = if is_in_range s.value then ok s else raise value_error

  unfoldable pub weighted_sum : ScoreTerms → ScoreWeights → Float
  weighted_sum t w =
      add
        (add
          (add
            (add (add (mul w.w_recency t.recency) (mul w.w_frequency t.frequency))
              (mul w.w_importance t.importance))
            (mul w.w_user_affinity t.user_affinity))
          (mul w.w_task_relevance t.task_relevance))
        (mul w.w_provenance_confidence t.provenance_confidence)

  -- `MemoryScore.compute`
  unfoldable pub compute : ScoreTerms → ScoreWeights → Result MemoryScore
  unfolding weighted_sum check_score
  compute terms weights =
      check_score (record { value = weighted_sum terms weights; terms = terms; weights = weights })

  pub record ScoreInputs : Type 0 where
    pub dt_seconds : Float
    pub half_life_seconds : Option Float
    pub access_count : ℕ
    pub f_cap : ℕ
    pub importance_tag : Option Text
    pub provenance_confidence : Float
    pub user_cosine : Option Float
    pub task_cosine : Option Float
    pub cos_min : Float
    pub cos_max : Float

  -- The terms of `score` once recency and frequency are there.
  unfoldable pub terms_of : ScoreInputs → Float → Float → ScoreTerms
  unfolding compute_importance compute_user_affinity compute_task_relevance
  terms_of i recency frequency = record {
    recency = recency;
    frequency = frequency;
    importance = compute_importance i.importance_tag;
    user_affinity = compute_user_affinity i.user_cosine i.cos_min i.cos_max;
    task_relevance = compute_task_relevance i.task_cosine i.cos_min i.cos_max;
    provenance_confidence = i.provenance_confidence;
  }

  -- `weights or ScoreWeights.default()`
  unfoldable pub weights_or_default : Option ScoreWeights → Result ScoreWeights
  unfolding default_weights
  weights_or_default none = default_weights
  weights_or_default (some w) = ok w

  -- `MemoryScoreEngine.score`
  unfoldable pub score : ScoreInputs → Option ScoreWeights → Result MemoryScore
  unfolding lambda_from_half_life compute_recency compute_frequency terms_of check_terms
      weights_or_default compute
  score i weights = do
    lambda_zone ← lambda_from_half_life i.half_life_seconds
    recency ← compute_recency i.dt_seconds lambda_zone
    frequency ← compute_frequency i.access_count i.f_cap
    terms ← check_terms (terms_of i recency frequency)
    w ← weights_or_default weights
    compute terms w
