-- ===== src/Rotation/Engine/Tick.antt =====
-- `run_sweep` and `schedule_or_pin` of src/dashanan/application/rotation_engine.py as a whole.
use dashanan.Prelude.{
  ℕ, ◌≡◌, ◌≢◌, ◌≤◌, refl, ◌⊎◌, inl, inr, false, true, none, some, List, map, Perm, arith, Text, ok,
  is_blank, lookup, IsAscending, Any, Result-cases, lookup-remove_self, subst, sym, ap, ◌∙◌,
  ok-injective, Result, >>=-eq-ok,
}
use dashanan.Prelude.Floats.{Floats}
use dashanan.Zone.{ZoneId, same_zone_iff}
use dashanan.Rotation.Wheel.{RotationTimerWheel, schedule, invalidate, pop_due}
use dashanan.Rotation.Wheel.Due.{IsReturned, pop_due_order}
use dashanan.Rotation.Wheel.Reach.{Reach, schedule-IsReturned}
use dashanan.Rotation.Deadline.{
  Deadline, RotationZonePolicy, compute_rotation_deadline, compute_rotation_deadline-nonneg,
}
use dashanan.Rotation.Engine.{
  RotationSweepResult, Effect, Wheels, set_wheel, Ports, sweep_loop, run_sweep, schedule_or_pin,
  RotationScheduleOutcome,
}
use dashanan.Rotation.Engine.Sweep.{
  items_of, published, IsEligible, IsCompressCall, IsQuiet, sweep_loop-IsSwept,
}

set_wheel_self : (ws : Wheels) (z : ZoneId) (w : RotationTimerWheel) → set_wheel ws z w z ≡ w
unfolding set_wheel
set_wheel_self ws z w = ground (arith, same_zone_iff z z)

at_zone :
    (ws ws' : Wheels) (z : ZoneId) (w : RotationTimerWheel) → set_wheel ws z w ≡ ws' → ws' z ≡ w
at_zone ws ws' z w e = ap (λ (v : Wheels). v z) (sym e) ∙ set_wheel_self ws z w

set_wheel_ne :
    (ws : Wheels) (z z' : ZoneId) (w : RotationTimerWheel) → z ≢ z' → set_wheel ws z w z' ≡ ws z'
unfolding set_wheel
set_wheel_ne ws z z' w h = ground (arith, same_zone_iff z z')

module _ (f : Floats) (ports : Ports f) (policy : RotationZonePolicy f) (as_of : ℕ) where
  -- With a tenant that is not blank, a zone whose heap is in order, ports that raise nothing but
  -- RotationEnginePortError and a bus that raises nothing, `run_sweep` returns. The transitioned, skipped
  -- and failed items are together the items that were due, `compress` was called for exactly the due items
  -- that are Active with a score not above the threshold and its tolerance, and the events are those of
  -- the transitioned items. Afterwards no due item is scheduled, also if it was skipped or failed, and the
  -- wheels of the other zones are as before.
  pub run_sweep_total :
      (ws : Wheels) (tenant_id : Text) (z : ZoneId)
      → is_blank tenant_id ≡ false
      → IsAscending (λ e. e.due_at) (ws z).heap
      → IsQuiet f ports policy as_of
      → (ws' : Wheels) × (r : RotationSweepResult) × (fx : List Effect) × (run_sweep f ports ws
            tenant_id z policy as_of
          ≡ (ws', ok r, fx))
        × Perm (items_of r) (map (λ s. s.item_id) (pop_due (ws z) as_of).1)
        × ((i : Text)
            → (Any (IsCompressCall i) fx
                → IsReturned i (pop_due (ws z) as_of).1 × IsEligible f ports policy as_of i)
              × (IsReturned i (pop_due (ws z) as_of).1
                  → IsEligible f ports policy as_of i
                  → Any (IsCompressCall i) fx))
        × (map (λ o. o.item_id) r.transitioned ≡ published fx)
        × ((i : Text) → IsReturned i (pop_due (ws z) as_of).1 → lookup i (ws' z).generation ≡ none)
        × ((z' : ZoneId) → z ≢ z' → ws' z' ≡ ws z')
  unfolding run_sweep
  run_sweep_total ws tenant_id z named a q =
      let popped = pop_due (ws z) as_of in
      let swept = sweep_loop f ports policy as_of tenant_id z popped.1 in
      let (r, returned, accounts, calls, events) =
        sweep_loop-IsSwept f ports policy as_of tenant_id z popped.1 q in
      (
        set_wheel ws z popped.0,
        r,
        swept.1,
        rw (named, returned) refl,
        accounts,
        λ i. let both = calls i in (both.0, λ r v. both.1 (r, v)),
        events,
        λ i r.
            subst (λ (w : RotationTimerWheel). lookup i w.generation ≡ none)
              (sym (set_wheel_self ws z popped.0)) ((pop_due_order (ws z) as_of a).3 i r),
        λ z' h. set_wheel_ne ws z z' popped.0 h,
      )

-- What an outcome says of the wheel: the item is pinned and no longer scheduled, or it has a
-- deadline at or after `now`, and a pop of this wheel at or after that deadline returns it.
abbrev pub IsApplied : Text → ℕ → RotationTimerWheel → RotationScheduleOutcome → Type 0
IsApplied i now w o =
    ((o.due_at ≡ none) × (o.scheduled ≡ false) × (lookup i w.generation ≡ none))
    ⊎ ((t : ℕ) × (o.due_at ≡ some t)
        × (o.scheduled ≡ true)
        × (now ≤ t)
        × ((as_of : ℕ) → t ≤ as_of → IsReturned i (pop_due w as_of).1))

pinned-IsApplied :
    (i : Text) (now : ℕ) (w w' : RotationTimerWheel) (o : RotationScheduleOutcome)
    → w' ≡ invalidate w i
    → o.due_at ≡ none
    → o.scheduled ≡ false
    → IsApplied i now w' o
unfolding invalidate
pinned-IsApplied i now w w' o e d s = inl (d, s, rw e (lookup-remove_self i w.generation))

scheduled-IsApplied :
    (i : Text) (now t : ℕ) (w w' : RotationTimerWheel) (o : RotationScheduleOutcome)
    → Reach w
    → now ≤ t
    → schedule w i t ≡ ok w'
    → o.due_at ≡ some t
    → o.scheduled ≡ true
    → IsApplied i now w' o
scheduled-IsApplied i now t w w' o r late e d s =
    inr (t, d, s, late, λ as_of due. schedule-IsReturned i t as_of r e due)

module _ (f : Floats) (shift : ℕ → f.Float → Result ℕ)
    (later : (t u : ℕ) (x : f.Float) → f.le (f.of_int 0) x ≡ true → shift t x ≡ ok u → t ≤ u) where
  -- A timedelta that is not negative never takes an instant back. Then, if `schedule_or_pin` returns on
  -- a reachable wheel, for an item whose remaining MaxAge and remaining cooldown are not negative, either
  -- the outcome says that the item is pinned and the item is not scheduled, or it has a deadline at or
  -- after the present instant, and a pop of the wheel that the call leaves, at or after that deadline,
  -- returns the item.
  pub schedule_or_pin-IsApplied :
      (ws : Wheels) (z : ZoneId) (i : Text) (d : Deadline f) (now : ℕ) {ws' : Wheels}
      {o : RotationScheduleOutcome}
      → Reach (ws z)
      → f.le (f.of_int 0) d.max_age_remaining ≡ true
      → f.le (f.of_int 0) d.cooldown_remaining ≡ true
      → schedule_or_pin f shift ws z i d now ≡ ok (ws', o)
      → IsApplied i now (ws' z) o
  unfolding schedule_or_pin
  schedule_or_pin-IsApplied ws z i d now {ws'} {o} r m c h =
      elim (Result-cases (compute_rotation_deadline f d)) [
        | inr (x, e) ↦ absurd (cc (rw (e, schedule_or_pin) at h))
        | inl (none, e) ↦
            let w = invalidate (ws z) i in
            let p = ok-injective (rw (e, schedule_or_pin) at h) in
            pinned-IsApplied i now (ws z) (ws' z) o (at_zone ws ws' z w (ap (λ q. q.0) p))
              (sym (ap (λ q. q.1.due_at) p)) (sym (ap (λ q. q.1.scheduled) p))
        | inl (some t, e) ↦
            let (u, moved, h') = >>=-eq-ok (shift now t) _ (rw (e, schedule_or_pin) at h) in
            let (w, e', h'') = >>=-eq-ok (schedule (ws z) i u) _ h' in
            let p = ok-injective h'' in
            let late = later now u t (compute_rotation_deadline-nonneg f d t m c e) moved in
            scheduled-IsApplied i now u (ws z) (ws' z) o r late
              (rw (at_zone ws ws' z w (ap (λ q. q.0) p)) e') (sym (ap (λ q. q.1.due_at) p))
              (sym (ap (λ q. q.1.scheduled) p))
      ]
