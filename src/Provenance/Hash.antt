-- ===== src/Provenance/Hash.antt =====
-- The hashes and the confidence of src/dashanan/domain/provenance_record.py. SHA-256, `isoformat` and
-- the format `:.10f` are parameters. `_canonicalize_fields` is the function of write_gate.py, and the
-- source types are those of Gate/Request.
use dashanan.Prelude.{
  ℕ, ◌+◌, ◌≡◌, Bool, true, Option, none, some, List, [], ◌∷◌, ◌++◌, arith, if◌then◌else◌, length,
  Text, codes, Result, Result-cases, ok, raise, value_error, inl, inr, subst,
}
use dashanan.Prelude.Floats.{Floats, fmax, fmin, fmin-le_left, le-fmax_left}
use dashanan.Zone.{ZoneId, zone_value}
use dashanan.Gate.Canonical.{canonicalize_fields, decimal}
use dashanan.Gate.Request.{
  SourceType, user_stated, tool_output, llm_inferred, summarized_from_n, imported, system_derived,
}

pub data ConflictStatus : Type 0 where
  no_conflict disputed resolved_superseded resolved_confirmed : ConflictStatus

unfoldable pub status_value : ConflictStatus → Text
status_value no_conflict = codes "none"
status_value disputed = codes "disputed"
status_value resolved_superseded = codes "resolved_superseded"
status_value resolved_confirmed = codes "resolved_confirmed"

unfoldable pub source_type_value : SourceType → Text
source_type_value user_stated = codes "user_stated"
source_type_value tool_output = codes "tool_output"
source_type_value llm_inferred = codes "llm_inferred"
source_type_value summarized_from_n = codes "summarized_from_n"
source_type_value imported = codes "imported"
source_type_value system_derived = codes "system_derived"

-- `str(n)`
unfoldable pub str_of : ℕ → Text
str_of n = decimal (n + 1) 1 n

-- `"1" if flag else "0"`
unfoldable pub flag_text : Bool → Text
flag_text flag = if flag then codes "1" else codes "0"

-- `prev_hash or ""`
unfoldable pub text_or_empty : Option Text → Text
text_or_empty none = []
text_or_empty (some s) = s

module _ (f : Floats) where
  open f use {Float, le, add, mul, div, neg, of_int, of_ratio, pow, sum}

  unfoldable pub clamp01 : Float → Float
  clamp01 value = fmax f (of_int 0) (fmin f (of_int 1) value)

  -- `_BASE_CONFIDENCE_BY_SOURCE_TYPE`, and none for the type that it leaves out.
  unfoldable pub base_confidence : SourceType → Option Float
  base_confidence user_stated = some (of_int 1)
  base_confidence tool_output = some (of_ratio 9 10)
  base_confidence imported = some (of_ratio 8 10)
  base_confidence system_derived = some (of_ratio 7 10)
  base_confidence llm_inferred = some (of_ratio 6 10)
  base_confidence summarized_from_n = none

  -- The base of a summary: the mean of its sources, which must not be empty.
  unfoldable pub summary_confidence : Option (List Float) → Result Float
  summary_confidence none = raise value_error
  summary_confidence (some []) = raise value_error
  summary_confidence (some (x ∷ xs)) =
      ok (mul (of_ratio 6 10) (div (sum (x ∷ xs)) (of_int (length (x ∷ xs)))))

  unfoldable pub choose_base : Option Float → Option (List Float) → Result Float
  unfolding summary_confidence
  choose_base none source_confidences = summary_confidence source_confidences
  choose_base (some base) source_confidences = ok base

  -- What is added for a dispute and for a failed check.
  unfoldable pub modified : Float → ConflictStatus → Bool → Float
  modified base status failed_faithfulness_check =
      let value = elim status as (λ _. Float) [
        | disputed ↦ add base (neg (of_ratio 3 10))
        | _ ↦ base
      ] in
      if failed_faithfulness_check then add value (neg (of_ratio 2 10)) else value

  -- `compute_confidence`. The generation is a natural number, so that the guard against a negative one
  -- has no counterpart.
  unfoldable pub compute_confidence :
      SourceType → ConflictStatus → Bool → ℕ → Option (List Float) → Result Float
  unfolding clamp01 base_confidence choose_base modified
  compute_confidence source_type status failed generation source_confidences =
      elim (choose_base (base_confidence source_type) source_confidences) [
        | raise e ↦ raise e
        | ok base ↦
            ok (clamp01 (mul (modified base status failed) (pow (of_ratio 9 10) generation)))
      ]

  clamp01-bounds :
      (x : Float)
      → le (of_int 0) (of_int 1) ≡ true
      → (le (of_int 0) (clamp01 x) ≡ true) × (le (clamp01 x) (of_int 1) ≡ true)
  unfolding clamp01
  clamp01-bounds x unit =
      ground (arith, le-fmax_left f (of_int 0) (fmin f (of_int 1) x), fmin-le_left f (of_int 1) x)

  -- Whatever its arguments, a confidence that is computed lies between 0 and 1.
  pub compute_confidence-bounds :
      (t : SourceType) (s : ConflictStatus) (failed : Bool) (n : ℕ) (cs : Option (List Float))
      (v : Float)
      → le (of_int 0) (of_int 1) ≡ true
      → compute_confidence t s failed n cs ≡ ok v
      → (le (of_int 0) v ≡ true) × (le v (of_int 1) ≡ true)
  unfolding compute_confidence
  compute_confidence-bounds t s failed n cs v unit e =
      elim (Result-cases (choose_base (base_confidence t) cs)) [
        | inl (base, g) ↦
            let x = mul (modified base s failed) (pow (of_ratio 9 10) n) in
            let same : clamp01 x ≡ v = ground arith in
            subst (λ w. (le (of_int 0) w ≡ true) × (le w (of_int 1) ≡ true)) same
              (clamp01-bounds x unit)
        | inr (x, g) ↦ ground arith
      ]

  -- The arguments of `compute_record_hash`.
  pub record Hashed : Type 0 where
    pub tenant_id : Text
    pub provenance_id : Text
    pub item_id : Text
    pub source_zone : ZoneId
    pub source_type : SourceType
    pub source_refs : List Text
    pub write_timestamp : ℕ
    pub retrieval_context_hash : Text
    pub conflict_status : ConflictStatus
    pub invalidation_flag : Bool
    pub confidence : Float
    pub prev_hash : Option Text

  module _ (sha256 : List ℕ → Text) (isoformat : ℕ → Text) (format10 : Float → Text) where
    -- The fields behind the references, without the last one.
    unfoldable pub tail_fields : Hashed → List Text
    unfolding status_value flag_text
    tail_fields h =
        isoformat h.write_timestamp
        ∷ h.retrieval_context_hash
        ∷ status_value h.conflict_status
        ∷ flag_text h.invalidation_flag
        ∷ format10 h.confidence
        ∷ []

    unfoldable pub body_fields : Hashed → List Text
    unfolding tail_fields zone_value source_type_value str_of
    body_fields h =
        h.tenant_id
        ∷ h.provenance_id
        ∷ h.item_id
        ∷ zone_value h.source_zone
        ∷ source_type_value h.source_type
        ∷ str_of (length h.source_refs)
        ∷ (h.source_refs ++ tail_fields h)

    unfoldable pub hashed_fields : Hashed → List Text
    unfolding body_fields text_or_empty
    hashed_fields h = body_fields h ++ text_or_empty h.prev_hash ∷ []

    unfoldable pub compute_record_hash : Hashed → Text
    unfolding hashed_fields
    compute_record_hash h = sha256 (canonicalize_fields (hashed_fields h))
