-- ===== src/Backstop.antt =====
-- The eviction plan of Zone 2: src/dashanan/domain/zone2_capacity_backstop.py. Instants are
-- microseconds.
pub mod Plan
pub mod Overflow
pub mod Sweep
pub mod Account
pub mod Swept
use dashanan.Prelude.{
  ℕ, ◌-◌, ◌≡◌, Bool, true, false, ◌&&◌, ◌||◌, not, Option, none, some, List, [], ◌∷◌, map, leb, ltb,
  ◌==◌, if◌then◌else◌, length, take, keep_if, Text, text_eq, text_lt, is_blank, sorted, Dict,
  lookup, insert, Result, ok, raise, value_error, index_error, ◌>>=◌,
}
use dashanan.Prelude.Floats.{Floats, lt}

pub data EvictionReason : Type 0 where
  capacity max_age : EvictionReason

pub record EvictionDecision : Type 0 where
  pub item_id : Text
  pub reason : EvictionReason

module _ (f : Floats) where
  open f use {Float, le, add, neg, of_int, of_ratio}

  pub record Zone2BackstopConfig : Type 0 where
    pub capacity_cap : ℕ
    pub max_age_seconds : Float

  -- `Zone2BackstopConfig.__post_init__`; the error is a Zone2CapacityBackstopError.
  unfoldable pub check_backstop_config : Zone2BackstopConfig → Result Zone2BackstopConfig
  check_backstop_config c =
      if leb c.capacity_cap 0
      then raise value_error
      else if le c.max_age_seconds (of_int 0)
      then raise value_error
      else ok c

  pub record EvictionCandidate : Type 0 where
    pub item_id : Text
    pub memory_score : Float
    pub is_compressed : Bool
    pub age_seconds : Float
    pub written_at : ℕ

  -- `_SCORE_RANGE_EPSILON` is 1e-9.
  abbrev pub score_range_epsilon : Float
  score_range_epsilon = of_ratio 1 1000000000

  -- `EvictionCandidate.__post_init__`
  unfoldable pub check_candidate : EvictionCandidate → Result EvictionCandidate
  unfolding is_blank
  check_candidate c =
      if is_blank c.item_id
      then raise value_error
      else if not (
          le (neg score_range_epsilon) c.memory_score
          && le c.memory_score (add (of_int 1) score_range_epsilon))
      then raise value_error
      else if lt f c.age_seconds (of_int 0)
      then raise value_error
      else ok c

  -- The order of `_eviction_rank_key`, a tuple of the score, the instant of the write and the id.
  unfoldable pub ranks_before : EvictionCandidate → EvictionCandidate → Bool
  unfolding text_lt
  ranks_before a b =
      lt f a.memory_score b.memory_score
      || (le a.memory_score b.memory_score
          && le b.memory_score a.memory_score
          && (ltb a.written_at b.written_at
              || ((a.written_at == b.written_at) && text_lt a.item_id b.item_id)))

  unfoldable pub select_capacity_overflow : List EvictionCandidate → ℕ → List EvictionCandidate
  unfolding ranks_before sorted
  select_capacity_overflow candidates cap =
      let excess = length candidates - cap in
      if excess == 0 then [] else take excess (sorted ranks_before candidates)

  unfoldable pub select_max_age_exceeded : List EvictionCandidate → Float → List EvictionCandidate
  unfolding ranks_before sorted
  select_max_age_exceeded candidates max_age_seconds =
      sorted ranks_before
        (keep_if (λ c. c.is_compressed && lt f max_age_seconds c.age_seconds) candidates)

  -- The two loops over the selected candidates, one for each of the dictionaries.
  unfoldable pub put_reasons :
      EvictionReason → List EvictionCandidate → Dict EvictionReason → Dict EvictionReason
  unfolding insert
  put_reasons r [] d = d
  put_reasons r (c ∷ cs) d = put_reasons r cs (insert c.item_id r d)

  unfoldable pub put_items :
      List EvictionCandidate → Dict EvictionCandidate → Dict EvictionCandidate
  unfolding insert
  put_items [] d = d
  put_items (c ∷ cs) d = put_items cs (insert c.item_id c d)

  -- The list of the decisions; `reason_by_item[c.item_id]` raises KeyError on a missing key.
  unfoldable pub decide :
      Dict EvictionReason → List EvictionCandidate → Result (List EvictionDecision)
  unfolding lookup
  decide reason_by_item [] = ok []
  decide reason_by_item (c ∷ cs) = elim (lookup c.item_id reason_by_item) [
    | none ↦ raise index_error
    | some r ↦ do
      rest ← decide reason_by_item cs
      ok (record { item_id = c.item_id; reason = r } ∷ rest)
  ]

  unfoldable pub plan_backstop_eviction :
      List EvictionCandidate → Zone2BackstopConfig → Result (List EvictionDecision)
  unfolding select_capacity_overflow select_max_age_exceeded put_reasons put_items decide
  plan_backstop_eviction candidates config =
      let overflow = select_capacity_overflow candidates config.capacity_cap in
      let overaged = select_max_age_exceeded candidates config.max_age_seconds in
      decide (put_reasons max_age overaged (put_reasons capacity overflow []))
        (sorted ranks_before (map (λ e. e.1) (put_items overaged (put_items overflow []))))
