-- ===== src/Tests/Backstop.antt =====
-- Runs of the eviction plan of src/dashanan/domain/zone2_capacity_backstop.py.
use dashanan.Prelude.{
  ℕ, Bool, if◌then◌else◌, is_blank, text_eq, ◌-◌, ◌≡◌, ◌≢◌, refl, true, false, none, some, List, [],
  ◌∷◌, ◌++◌, Perm, Text, codes, length, All, Any, ok,
}
use dashanan.Prelude.Floats.{micro_floats}
use dashanan.Backstop.{
  EvictionCandidate, EvictionDecision, Zone2BackstopConfig, capacity, max_age,
  select_capacity_overflow, select_max_age_exceeded, plan_backstop_eviction,
}
use dashanan.Backstop.Plan.{expected, plan_backstop_eviction_exact}
use dashanan.Backstop.Sweep.{
  Answer, answers, port_fails, fulfils, deletes, evicts, publishes, SweepPorts, run_backstop,
}
use dashanan.Backstop.Account.{Returns, IsQuiet}
use dashanan.Backstop.Swept.{IsSwept, run_backstop_total}
use dashanan.Backstop.Overflow.{IsBelow, select_capacity_overflow_lem}

abbrev high : EvictionCandidate micro_floats
high = record {
  item_id = codes "h";
  memory_score = 900000;
  is_compressed = true;
  age_seconds = 70000000;
  written_at = 3;
}

abbrev low : EvictionCandidate micro_floats
low = record high { item_id = codes "l"; memory_score = 100000; is_compressed = false }

abbrev middle : EvictionCandidate micro_floats
middle = record high { item_id = codes "m"; memory_score = 500000; age_seconds = 10000000 }

abbrev candidates : List (EvictionCandidate micro_floats)
candidates = high ∷ low ∷ middle ∷ []

abbrev config : Zone2BackstopConfig micro_floats
config = record { capacity_cap = 2; max_age_seconds = 60000000 }

-- The lowest item goes for the capacity, the oldest compressed one for its age.
plan_run :
    plan_backstop_eviction micro_floats candidates config
    ≡ ok (
        record { item_id = codes "l"; reason = capacity }
        ∷ record { item_id = codes "h"; reason = max_age }
        ∷ [])
unfolding plan_backstop_eviction text_eq
plan_run = refl

plan_backstop_eviction_exact_example :
    (ds : List EvictionDecision) × (plan_backstop_eviction micro_floats candidates config ≡ ok ds)
    × All
        (λ x.
          expected micro_floats
            (select_capacity_overflow micro_floats candidates 2)
            (select_max_age_exceeded micro_floats candidates 60000000)
            x.item_id
          ≡ some x.reason)
        ds
    × ((id : Text)
        → expected micro_floats
            (select_capacity_overflow micro_floats candidates 2)
            (select_max_age_exceeded micro_floats candidates 60000000)
            id
          ≢ none
        → Any (λ x. x.item_id ≡ id) ds)
plan_backstop_eviction_exact_example = plan_backstop_eviction_exact micro_floats candidates config

select_capacity_overflow_lem_example :
    (length (select_capacity_overflow micro_floats candidates 2) ≡ 3 - 2)
    × ((kept : List (EvictionCandidate micro_floats)) × Perm
          (select_capacity_overflow micro_floats candidates 2 ++ kept)
          candidates
        × All (IsBelow micro_floats kept) (select_capacity_overflow micro_floats candidates 2))
select_capacity_overflow_lem_example = select_capacity_overflow_lem micro_floats candidates 2

abbrev clock_text : ℕ → Text
clock_text t = t ∷ []

-- The index refuses the lowest item, and nothing is to be erased.
abbrev refused : Text → Answer (Unit {0})
refused id = if text_eq id (codes "l") then port_fails (codes "down") else answers tt

abbrev ports : SweepPorts micro_floats
ports = record {
  load = λ t. ok config;
  now = 9;
  fetch_candidates = λ t now. ok candidates;
  fulfil_pending_erasure = λ calls t id. answers false;
  delete_item = λ calls t id. refused id;
  evict = λ calls t id. answers tt;
  publish = λ calls e. ok tt;
}

refused-Returns :
    (b : Bool) → Returns {A = Unit {0}} (if b then port_fails (codes "down") else answers tt)
refused-Returns true = tt
refused-Returns false = tt

ports-IsQuiet : IsQuiet micro_floats clock_text ports (codes "t")
ports-IsQuiet = record {
  fulfil_quiet = λ calls id. tt;
  delete_quiet = λ calls id. refused-Returns (text_eq id (codes "l"));
  evict_quiet = λ calls id. tt;
  publish_quiet = λ calls d. refl;
}

-- The last call first: the lowest item fails at its index entry, the oldest one is evicted.
sweep_run :
    (run_backstop micro_floats clock_text ports (codes "t")).0
    ≡ publishes (codes "h")
      ∷ evicts (codes "h") (answers tt)
      ∷ deletes (codes "h") (answers tt)
      ∷ fulfils (codes "h") (answers false)
      ∷ deletes (codes "l") (port_fails (codes "down"))
      ∷ fulfils (codes "l") (answers false)
      ∷ []
unfolding run_backstop text_eq
sweep_run = refl

run_backstop_total_example :
    (ds : List EvictionDecision) × (plan_backstop_eviction micro_floats candidates config ≡ ok ds)
    × IsSwept micro_floats clock_text ports
        (codes "t")
        ds
        (run_backstop micro_floats clock_text ports (codes "t"))
unfolding is_blank
run_backstop_total_example =
    run_backstop_total micro_floats clock_text ports (codes "t") config candidates refl refl refl
      ports-IsQuiet
