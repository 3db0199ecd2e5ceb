-- ===== src/Context/Builder.antt =====
-- src/dashanan/application/context_assembly_builder.py and assembly_result.py
use dashanan.Prelude.{
  ℕ, ◌+◌, ◌-◌, Bool, true, false, not, ◌||◌, List, [], ◌∷◌, ◌++◌, leb, if◌then◌else◌, Text, text_eq,
  sorted, Result, ok, raise, value_error,
}
use dashanan.Prelude.Floats.{Floats, lt}
use dashanan.Zone.{ZoneId, same_zone}
use dashanan.Item.{MemoryItem}

-- `zone in zones`
unfoldable pub has_zone : ZoneId → List ZoneId → Bool
unfolding same_zone
has_zone zone [] = false
has_zone zone (z ∷ zones) = let rest = has_zone zone zones in same_zone z zone || rest

-- `not zones`
unfoldable pub is_empty : List ZoneId → Bool
is_empty [] = true
is_empty (z ∷ zones) = false

module _ (f : Floats) where
  open f use {Float, div, of_int}

  pub record ContextAssemblyBuilder : Type 0 where
    pub candidates : List (MemoryItem f)
    pub zones_unavailable : List ZoneId
    pub token_budget : ℕ
    pub assembly_id : Text
    pub trace_id : Text

  pub record AssemblyResult : Type 0 where
    pub items : List (MemoryItem f)
    pub degraded : Bool
    pub zones_unavailable : List ZoneId
    pub assembly_id : Text
    pub trace_id : Text
    pub token_count_total : ℕ
    pub token_budget : ℕ

  abbrev pub new_builder : ContextAssemblyBuilder
  new_builder = record {
    candidates = [];
    zones_unavailable = [];
    token_budget = 0;
    assembly_id = [];
    trace_id = [];
  }

  unfoldable pub with_token_budget : ContextAssemblyBuilder → ℕ → ContextAssemblyBuilder
  with_token_budget b token_budget = record b { token_budget = token_budget }

  unfoldable pub with_identifiers : ContextAssemblyBuilder → Text → Text → ContextAssemblyBuilder
  with_identifiers b assembly_id trace_id = record b {
    assembly_id = assembly_id;
    trace_id = trace_id;
  }

  unfoldable pub add_candidates :
      ContextAssemblyBuilder → List (MemoryItem f) → ContextAssemblyBuilder
  add_candidates b items = record b { candidates = b.candidates ++ items }

  unfoldable pub mark_zone_unavailable : ContextAssemblyBuilder → ZoneId → ContextAssemblyBuilder
  unfolding has_zone
  mark_zone_unavailable b zone =
      if has_zone zone b.zones_unavailable
      then b
      else record b { zones_unavailable = b.zones_unavailable ++ zone ∷ [] }

  -- `item.score / item.token_count`
  unfoldable pub density : MemoryItem f → Float
  density i = div i.score (of_int i.token_count)

  -- `sorted(…, reverse=True)` puts `a` before `b` if its density is greater.
  unfoldable pub is_denser : MemoryItem f → MemoryItem f → Bool
  unfolding density
  is_denser a b = lt f (density b) (density a)

  -- The loop of `_greedy_knapsack_fill`.
  unfoldable pub fill : ℕ → List (MemoryItem f) → List (MemoryItem f)
  fill remaining_budget [] = []
  fill remaining_budget (i ∷ items) =
      let fits = fill (remaining_budget - i.token_count) items in
      let rest = fill remaining_budget items in
      if leb i.token_count remaining_budget then i ∷ fits else rest

  unfoldable pub greedy_knapsack_fill : ContextAssemblyBuilder → List (MemoryItem f)
  unfolding fill is_denser sorted
  greedy_knapsack_fill b = fill b.token_budget (sorted is_denser b.candidates)

  -- `sum(item.token_count for item in items)`
  unfoldable pub total_tokens : List (MemoryItem f) → ℕ
  total_tokens [] = 0
  total_tokens (i ∷ items) = i.token_count + total_tokens items

  unfoldable pub build : ContextAssemblyBuilder → Result AssemblyResult
  unfolding greedy_knapsack_fill total_tokens is_empty text_eq
  build b =
      if text_eq b.assembly_id [] || text_eq b.trace_id []
      then raise value_error
      else let selected = greedy_knapsack_fill b in
        ok (record {
          items = selected;
          degraded = not (is_empty b.zones_unavailable);
          zones_unavailable = b.zones_unavailable;
          assembly_id = b.assembly_id;
          trace_id = b.trace_id;
          token_count_total = total_tokens selected;
          token_budget = b.token_budget;
        })
