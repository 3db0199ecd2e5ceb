-- ===== src/Tests/Score.antt =====
-- Runs of the score of src/dashanan/application/memory_score_engine.py.
use dashanan.Prelude.{◌*◌, ◌/◌, ◌≡◌, refl, ok, raise, value_error}
use dashanan.Prelude.Floats.{Floats, micro_floats}
use dashanan.Score.{ScoreWeights, ScoreTerms, check_terms, check_weights, compute}

-- The fixed-point numbers in units of 10 ^ -12, in which the epsilon is not 0.
abbrev pico_floats : Floats
pico_floats = record micro_floats {
  mul = λ a b. a * b / 1000000000000;
  div = λ a b. a * 1000000000000 / b;
  of_int = λ n. n * 1000000000000;
  of_ratio = λ n d. n * 1000000000000 / d;
}

-- All terms and the sum of the weights are 1 and the epsilon.
abbrev high_terms : ScoreTerms pico_floats
high_terms = record {
  recency = 1000000001000;
  frequency = 1000000001000;
  importance = 1000000001000;
  user_affinity = 1000000001000;
  task_relevance = 1000000001000;
  provenance_confidence = 1000000001000;
}

abbrev high_weights : ScoreWeights pico_floats
high_weights = record {
  w_recency = 1000000001000;
  w_frequency = 0;
  w_importance = 0;
  w_user_affinity = 0;
  w_task_relevance = 0;
  w_provenance_confidence = 0;
}

-- Terms and weights that their checks accept, and a score that its own check refuses.
compute_run :
    (check_terms pico_floats high_terms ≡ ok high_terms)
    × (check_weights pico_floats high_weights ≡ ok high_weights)
    × (compute pico_floats high_terms high_weights ≡ raise value_error)
unfolding check_terms check_weights compute
compute_run = (refl, refl, refl)
