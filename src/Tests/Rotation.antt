-- ===== src/Tests/Rotation.antt =====
-- Runs of the rotation of src/dashanan/domain and src/dashanan/application/rotation_engine.py.
use dashanan.Prelude.{
  ℕ, ◌+◌, leb, Result, ok-injective, ◌≡◌, ◌≢◌, ◌≤◌, ◌<◌, ◌↔◌, refl, true, none, some, List, [], ◌∷◌,
  map, Perm, arith, Text, codes, ok, raise, transition_error, text_eq, is_blank, lookup,
  IsAscending, Any, All,
}
use dashanan.Prelude.Floats.{micro_floats}
use dashanan.Zone.{ZoneId, semantic}
use dashanan.Rotation.State.{active, compressed, archived, guarded_transition}
use dashanan.Rotation.Wheel.{
  RotationTimerWheel, empty_wheel, push_entry, schedule, invalidate, pop_due,
}
use dashanan.Rotation.Wheel.Due.{IsReturned, IsDue, IsDistinct, pop_due_iff, pop_due_order}
use dashanan.Rotation.Wheel.Reach.{
  start, next, scheduled, Reach-IsWheel, IsWheel, schedule-IsReturned, invalidate_reuses_generation,
}
use dashanan.Rotation.Deadline.{Deadline, RotationZonePolicy, compute_rotation_deadline}
use dashanan.Rotation.Engine.{
  RotationSweepResult, RotationScheduleOutcome, Effect, Wheels, Ports, set_wheel, run_sweep,
  schedule_or_pin,
}
use dashanan.Rotation.Engine.Sweep.{items_of, published, IsEligible, IsCompressCall, IsQuiet}
use dashanan.Rotation.Engine.Tick.{run_sweep_total, schedule_or_pin-IsApplied, IsApplied}

abbrev a : Text
a = codes "a"

abbrev one : RotationTimerWheel
one = record {
  heap = record { due_at = 5; generation = 1; item_id = a } ∷ [];
  generation = (a, 1) ∷ [];
  due_at_by_item = (a, 5) ∷ [];
}

scheduled_one : schedule empty_wheel a 5 ≡ ok one
unfolding schedule
scheduled_one = refl

popped_one : pop_due one 5 ≡ (empty_wheel, record { item_id = a; due_at = 5 } ∷ [])
unfolding pop_due text_eq
popped_one = refl

guarded_transition_example : guarded_transition archived compressed ≡ raise transition_error
unfolding guarded_transition
guarded_transition_example = refl

pop_due_iff_example : IsReturned a (pop_due one 7).1 ↔ IsDue one.heap one.generation 7 a
pop_due_iff_example = pop_due_iff one 7 a (tt, tt)

pop_due_order_example :
    IsAscending (λ s. s.due_at) (pop_due one 7).1
    × All (λ s. s.due_at ≤ 7) (pop_due one 7).1
    × IsDistinct (pop_due one 7).1
    × ((i : Text) → IsReturned i (pop_due one 7).1 → lookup i (pop_due one 7).0.generation ≡ none)
    × All (λ e. 7 < e.due_at) (pop_due one 7).0.heap
pop_due_order_example = pop_due_order one 7 (tt, tt)

Reach-IsWheel_example : IsWheel one
Reach-IsWheel_example = Reach-IsWheel (next start (scheduled a 5 scheduled_one))

schedule-IsReturned_example : IsReturned a (pop_due one 7).1
schedule-IsReturned_example = schedule-IsReturned a 5 7 start scheduled_one (omega arith)

invalidate_reuses_generation_example :
    let w = push_entry (invalidate (push_entry empty_wheel a 5) a) a 9 in
    ((pop_due w 7).1 ≡ record { item_id = a; due_at = 5 } ∷ [])
    × (lookup a (pop_due w 7).0.generation ≡ none)
    × (lookup a (pop_due w 7).0.due_at_by_item ≡ none)
invalidate_reuses_generation_example =
    invalidate_reuses_generation a 5 9 7 (omega arith) (omega arith)

abbrev ports : Ports micro_floats
ports = record {
  current_state = λ i. ok (record { lifecycle_state = active; memory_score = 200000 });
  compress = λ i. ok (record { generation = 3; original_tokens = 80; compressed_tokens = 20 });
  publish = λ i r. ok tt;
}

abbrev policy : RotationZonePolicy micro_floats
policy = record {
  lambda_zone = 1;
  compress_threshold = 300000;
  max_age_seconds = 90000000;
  cooldown_seconds = 60000000;
}

ports-IsQuiet : IsQuiet micro_floats ports policy 7
ports-IsQuiet = record {
  state_quiet = λ i e h. absurd (ground (arith, h));
  compress_quiet = λ i e h. absurd (ground (arith, h));
  publish_quiet = λ i r. refl;
}

abbrev wheels : Wheels
wheels z = one

run_sweep_total_example :
    (ws' : Wheels) × (r : RotationSweepResult) × (fx : List Effect) × (run_sweep micro_floats ports
        wheels
        (codes "t")
        semantic
        policy
        7
      ≡ (ws', ok r, fx))
    × Perm (items_of r) (map (λ s. s.item_id) (pop_due one 7).1)
    × ((i : Text)
        → (Any (IsCompressCall i) fx
            → IsReturned i (pop_due one 7).1 × IsEligible micro_floats ports policy 7 i)
          × (IsReturned i (pop_due one 7).1
              → IsEligible micro_floats ports policy 7 i
              → Any (IsCompressCall i) fx))
    × (map (λ o. o.item_id) r.transitioned ≡ published fx)
    × ((i : Text) → IsReturned i (pop_due one 7).1 → lookup i (ws' semantic).generation ≡ none)
    × ((z' : ZoneId) → semantic ≢ z' → ws' z' ≡ one)
unfolding is_blank
run_sweep_total_example =
    run_sweep_total micro_floats ports policy 7 wheels (codes "t") semantic refl (tt, tt)
      ports-IsQuiet

abbrev deadline : Deadline micro_floats
deadline = record {
  lambda_zone = 1000000;
  theta = 1500000;
  w_recency = 1000000;
  c_weighted = 0;
  max_age_remaining = 9000000;
  cooldown_remaining = 2000000;
}

computed : compute_rotation_deadline micro_floats deadline ≡ ok (some 2000000)
unfolding compute_rotation_deadline
computed = refl

-- The instant that a number of microseconds leads to.
abbrev shift : ℕ → ℕ → Result ℕ
shift now t = ok (now + t)

shift_later : (t u : ℕ) (x : ℕ) → leb 0 x ≡ true → shift t x ≡ ok u → t ≤ u
shift_later t u x p h = let e = ok-injective h in omega (arith, e)

abbrev none_scheduled : Wheels
none_scheduled z = empty_wheel

abbrev outcome : RotationScheduleOutcome
outcome = record { item_id = a; scheduled = true; due_at = some 2000003 }

applied :
    schedule_or_pin micro_floats shift none_scheduled semantic a deadline 3
    ≡ ok (set_wheel none_scheduled semantic (push_entry empty_wheel a 2000003), outcome)
unfolding schedule_or_pin compute_rotation_deadline schedule
applied = refl

schedule_or_pin-IsApplied_example :
    IsApplied a 3
      (set_wheel none_scheduled semantic (push_entry empty_wheel a 2000003) semantic)
      outcome
schedule_or_pin-IsApplied_example =
    schedule_or_pin-IsApplied micro_floats shift shift_later none_scheduled semantic a deadline 3
      start refl refl applied
