-- ===== src/Rotation/Engine.antt =====
-- src/dashanan/application/rotation_engine.py. The two ports, the event bus and the clock are
-- parameters; the log of effects holds the calls of `compress` and the events given to the bus, in order.
pub mod Sweep
pub mod Tick
use dashanan.Prelude.{
  ℕ, ◌+◌, ◌≡◌, Bool, true, false, Option, none, some, List, [], ◌∷◌, ◌++◌, if◌then◌else◌, Text,
  is_blank, Result, ok, raise, Error, value_error, transition_error, port_error, ◌>>=◌,
}
use dashanan.Prelude.Floats.{Floats, lt}
use dashanan.Zone.{ZoneId, same_zone}
use dashanan.Rotation.State.{RotationState, compressed, guarded_transition}
use dashanan.Rotation.Wheel.{
  ScheduledRotation, RotationTimerWheel, empty_wheel, schedule, invalidate, pop_due,
}
use dashanan.Rotation.Deadline.{Deadline, RotationZonePolicy, compute_rotation_deadline}

pub record RotationCompressionResult : Type 0 where
  pub generation : ℕ
  pub original_tokens : ℕ
  pub compressed_tokens : ℕ

pub record RotationTransitionOutcome : Type 0 where
  pub item_id : Text
  pub compressed_at : ℕ
  pub generation : ℕ

pub data SkipReason : Type 0 where
  rescored : SkipReason
  not_eligible : RotationState → SkipReason

pub record RotationSkip : Type 0 where
  pub item_id : Text
  pub reason : SkipReason

pub record RotationFailure : Type 0 where
  pub item_id : Text

pub record RotationSweepResult : Type 0 where
  pub tenant_id : Text
  pub zone_id : ZoneId
  pub transitioned : List RotationTransitionOutcome
  pub skipped : List RotationSkip
  pub failed : List RotationFailure

-- What the sweep does to the world outside, in order.
pub data Effect : Type 0 where
  compress_call : Text → Effect
  compressed_event : Text → RotationCompressionResult → Effect

-- `self._wheels`, with an empty wheel for a zone that has none yet, as `_wheel_for` creates it.
abbrev pub Wheels : Type 0
Wheels = ZoneId → RotationTimerWheel

unfoldable pub set_wheel : Wheels → ZoneId → RotationTimerWheel → Wheels
unfolding same_zone
set_wheel wheels z w z' = if same_zone z z' then w else wheels z'

pub record RotationScheduleOutcome : Type 0 where
  pub item_id : Text
  pub scheduled : Bool
  pub due_at : Option ℕ

module _ (f : Floats) where
  open f use {Float, add}

  pub record RotationCandidateSnapshot : Type 0 where
    pub lifecycle_state : RotationState
    pub memory_score : Float

  -- `_SCORE_GUARD_EPSILON` is 1e-9.
  abbrev pub score_guard_epsilon : Float
  score_guard_epsilon = f.of_ratio 1 1000000000

  -- `RotationCandidatePort.current_state` and `RotationTransitionPort.compress` for one tenant and
  -- zone, and `EventBus.publish`. Each may raise; RotationEnginePortError is `port_error`.
  pub record Ports : Type 0 where
    pub current_state : Text → Result RotationCandidateSnapshot
    pub compress : Text → Result RotationCompressionResult
    pub publish : Text → RotationCompressionResult → Result (Unit {0})

  pub data Outcome : Type 0 where
    transitioned : RotationTransitionOutcome → Outcome
    skipped : RotationSkip → Outcome
    failed : RotationFailure → Outcome

  -- `except RotationEnginePortError`: any other exception propagates.
  unfoldable pub port_failed : Text → Error → Result Outcome
  port_failed item_id port_error = ok (failed (record { item_id = item_id }))
  port_failed item_id error = raise error

  -- Behind a `compress` that returned.
  unfoldable pub announce : Ports → ℕ → Text → RotationCompressionResult → Result Outcome
  announce ports as_of item_id result = do
    _ ← ports.publish item_id result
    ok (
        transitioned
          (record { item_id = item_id; compressed_at = as_of; generation = result.generation }))

  -- The rest of the loop's body once the item is known to be eligible.
  unfoldable pub persist : Ports → ℕ → Text → Result Outcome × List Effect
  unfolding port_failed announce
  persist ports as_of item_id = elim (ports.compress item_id) [
    | raise error ↦ (port_failed item_id error, compress_call item_id ∷ [])
    | ok result ↦ (
      announce ports as_of item_id result,
      compress_call item_id ∷ compressed_event item_id result ∷ [],
    )
  ]

  unfoldable pub evaluate_snapshot :
      Ports
      → RotationZonePolicy f
      → ℕ
      → Text
      → RotationCandidateSnapshot
      → Result Outcome × List Effect
  unfolding persist guarded_transition
  evaluate_snapshot ports policy as_of item_id snapshot =
      if lt f (add policy.compress_threshold score_guard_epsilon) snapshot.memory_score
      then (ok (skipped (record { item_id = item_id; reason = rescored })), [])
      else elim (guarded_transition snapshot.lifecycle_state compressed) [
        | raise _ ↦ (
          ok (
              skipped
                (record { item_id = item_id; reason = not_eligible snapshot.lifecycle_state })),
          [],
        )
        | ok _ ↦ persist ports as_of item_id
      ]

  -- The body of the loop of `run_sweep` for one due entry.
  unfoldable pub evaluate_entry :
      Ports → RotationZonePolicy f → ℕ → ScheduledRotation → Result Outcome × List Effect
  unfolding evaluate_snapshot port_failed
  evaluate_entry ports policy as_of entry = elim (ports.current_state entry.item_id) [
    | raise error ↦ (port_failed entry.item_id error, [])
    | ok snapshot ↦ evaluate_snapshot ports policy as_of entry.item_id snapshot
  ]

  unfoldable pub add_outcome : Outcome → RotationSweepResult → RotationSweepResult
  add_outcome (transitioned o) r = record r { transitioned = o ∷ r.transitioned }
  add_outcome (skipped o) r = record r { skipped = o ∷ r.skipped }
  add_outcome (failed o) r = record r { failed = o ∷ r.failed }

  -- The outcome of one entry in front of what the later entries give.
  unfoldable pub sweep_rest :
      Result Outcome × List Effect
      → Result RotationSweepResult × List Effect
      → Result RotationSweepResult × List Effect
  unfolding add_outcome
  sweep_rest (raise error, effects) rest = (raise error, effects)
  sweep_rest (ok o, effects) rest = (do r ← rest.0; ok (add_outcome o r), effects ++ rest.1)

  -- The loop over the due entries: the result of the later entries goes behind each list, and an
  -- exception that is not caught ends it.
  unfoldable pub sweep_loop :
      Ports
      → RotationZonePolicy f
      → ℕ
      → Text
      → ZoneId
      → List ScheduledRotation
      → Result RotationSweepResult × List Effect
  unfolding evaluate_entry sweep_rest
  sweep_loop ports policy as_of tenant_id zone_id [] = (
    ok (record {
      tenant_id = tenant_id;
      zone_id = zone_id;
      transitioned = [];
      skipped = [];
      failed = [];
    }),
    [],
  )
  sweep_loop ports policy as_of tenant_id zone_id (entry ∷ entries) =
      sweep_rest (evaluate_entry ports policy as_of entry)
        (sweep_loop ports policy as_of tenant_id zone_id entries)

  -- The wheels behind the call, what it returns or raises, and its effects.
  unfoldable pub run_sweep :
      Ports
      → Wheels
      → Text
      → ZoneId
      → RotationZonePolicy f
      → ℕ
      → Wheels × Result RotationSweepResult × List Effect
  unfolding sweep_loop set_wheel is_blank
  run_sweep ports wheels tenant_id zone_id policy as_of =
      let popped = pop_due (wheels zone_id) as_of in
      let swept = sweep_loop ports policy as_of tenant_id zone_id popped.1 in
      if is_blank tenant_id
      then (wheels, raise value_error, [])
      else (set_wheel wheels zone_id popped.0, swept.0, swept.1)

  -- `shift now t` is `now + timedelta(seconds=t)`, which may raise OverflowError.
  unfoldable pub schedule_or_pin :
      (ℕ → Float → Result ℕ)
      → Wheels
      → ZoneId
      → Text
      → Deadline f
      → ℕ
      → Result (Wheels × RotationScheduleOutcome)
  unfolding set_wheel
  schedule_or_pin shift wheels zone_id item_id d now = do
    delta ← compute_rotation_deadline f d
    elim delta [
      | none ↦ ok (
        set_wheel wheels zone_id (invalidate (wheels zone_id) item_id),
        record { item_id = item_id; scheduled = false; due_at = none },
      )
      | some t ↦ do
        due_at ← shift now t
        w ← schedule (wheels zone_id) item_id due_at
        ok (
          set_wheel wheels zone_id w,
          record { item_id = item_id; scheduled = true; due_at = some due_at },
        )
    ]
