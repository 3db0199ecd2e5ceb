-- ===== src/Rotation/Engine/Sweep.antt =====
-- What one sweep of src/dashanan/application/rotation_engine.py does with the due items.
use mathlib.Core.List.Perm
use mathlib.Core.List.{perm_middle}
use dashanan.Prelude.{
  ℕ, ◌≡◌, ◌↔◌, ◌⊎◌, inl, inr, refl, ap, sym, ◌∙◌, false, Bool-cases, List, [], ◌∷◌, ◌++◌, map, Perm,
  Any, arith, Text, Result, Result-cases, ok, raise, Error, port_error,
}
use dashanan.Prelude.Floats.{Floats, lt}
use dashanan.Zone.{ZoneId}
use dashanan.Rotation.State.{active, compressed, guarded_transition}
use dashanan.Rotation.Wheel.{ScheduledRotation}
use dashanan.Rotation.Wheel.Due.{IsReturned}
use dashanan.Rotation.Deadline.{RotationZonePolicy}
use dashanan.Rotation.Engine.{
  RotationSweepResult, Effect, compress_call, compressed_event, RotationCandidateSnapshot, Ports,
  Outcome, transitioned, skipped, failed, score_guard_epsilon, evaluate_snapshot, evaluate_entry,
  add_outcome, sweep_rest, sweep_loop, port_failed, announce, persist, RotationCompressionResult,
  rescored, not_eligible,
}

-- Every item that the result accounts for.
unfoldable pub items_of : RotationSweepResult → List Text
items_of r =
    map (λ o. o.item_id) r.transitioned
    ++ (map (λ o. o.item_id) r.skipped ++ map (λ o. o.item_id) r.failed)

-- The items of the published events, in order.
unfoldable pub published : List Effect → List Text
published [] = []
published (compress_call i ∷ es) = published es
published (compressed_event i r ∷ es) = i ∷ published es

abbrev pub IsCompressCall : Text → Effect → Type 0
IsCompressCall i e = e ≡ compress_call i

Any-append_left : {A : Type 0} (P : A → Type 0) (xs ys : List A) → Any P xs → Any P (xs ++ ys)
Any-append_left P [] ys h = elim h [ ]
Any-append_left P (x ∷ xs) ys (inl h) = inl h
Any-append_left P (x ∷ xs) ys (inr h) = inr (Any-append_left P xs ys h)

Any-append_right : {A : Type 0} (P : A → Type 0) (xs ys : List A) → Any P ys → Any P (xs ++ ys)
Any-append_right P [] ys h = h
Any-append_right P (x ∷ xs) ys h = inr (Any-append_right P xs ys h)

Any-append_split :
    {A : Type 0} (P : A → Type 0) (xs ys : List A) → Any P (xs ++ ys) → Any P xs ⊎ Any P ys
Any-append_split P [] ys h = inr h
Any-append_split P (x ∷ xs) ys (inl h) = inl (inl h)
Any-append_split P (x ∷ xs) ys (inr h) = elim (Any-append_split P xs ys h) [
  | inl a ↦ inl (inr a)
  | inr b ↦ inr b
]

published-append : (es fs : List Effect) → published (es ++ fs) ≡ published es ++ published fs
unfolding published
published-append [] fs = refl
published-append (compress_call i ∷ es) fs = published-append es fs
published-append (compressed_event i r ∷ es) fs = ap (◌∷◌ i) (published-append es fs)

module _ (f : Floats) (ports : Ports f) (policy : RotationZonePolicy f) (as_of : ℕ) where
  -- The item is Active, and its score is not above the threshold.
  pub record IsEligible (i : Text) : Type 0 where
    pub snapshot : RotationCandidateSnapshot f
    pub answered : ports.current_state i ≡ ok snapshot
    pub is_active : snapshot.lifecycle_state ≡ active
    pub low :
        lt f (f.add policy.compress_threshold (score_guard_epsilon f)) snapshot.memory_score ≡ false

  -- The item that one outcome is about.
  unfoldable pub outcome_item : Outcome f → Text
  outcome_item (transitioned o) = o.item_id
  outcome_item (skipped o) = o.item_id
  outcome_item (failed o) = o.item_id

  -- The ports raise nothing but RotationEnginePortError, and the bus nothing.
  pub record IsQuiet : Type 0 where
    pub state_quiet : (i : Text) (e : Error) → ports.current_state i ≡ raise e → e ≡ port_error
    pub compress_quiet : (i : Text) (e : Error) → ports.compress i ≡ raise e → e ≡ port_error
    pub publish_quiet : (i : Text) (r : RotationCompressionResult) → ports.publish i r ≡ ok tt

  persist-Returns :
      (i : Text)
      → IsQuiet
      → (o : Outcome f) × ((persist f ports as_of i).0 ≡ ok o) × (outcome_item o ≡ i)
  unfolding persist port_failed announce outcome_item
  persist-Returns i q = elim (Result-cases (ports.compress i)) [
    | inr (x, e) ↦
        let caught = q.compress_quiet i x e in (failed (record { item_id = i }), ground arith, refl)
    | inl (r, e) ↦
        let heard = q.publish_quiet i r in
        (
          transitioned (record { item_id = i; compressed_at = as_of; generation = r.generation }),
          ground arith,
          refl,
        )
  ]

  evaluate_snapshot-Returns :
      (i : Text) (s : RotationCandidateSnapshot f)
      → IsQuiet
      → (o : Outcome f) × ((evaluate_snapshot f ports policy as_of i s).0 ≡ ok o)
        × (outcome_item o ≡ i)
  unfolding evaluate_snapshot outcome_item
  evaluate_snapshot-Returns i s q =
      let (o, e, same) = persist-Returns i q in
      elim (Bool-cases
        (lt f (f.add policy.compress_threshold (score_guard_epsilon f)) s.memory_score)) [
          | inl high ↦ (skipped (record { item_id = i; reason = rescored }), ground arith, refl)
          | inr low ↦ elim (Result-cases (guarded_transition s.lifecycle_state compressed)) [
            | inl (t, e') ↦ (o, rw (low, e', evaluate_snapshot) e, same)
            | inr (x, e') ↦ (
              skipped (record { item_id = i; reason = not_eligible s.lifecycle_state }),
              rw (low, e', evaluate_snapshot) refl,
              refl,
            )
          ]
        ]

  -- One entry gives an outcome, which is about its item.
  evaluate_entry-Returns :
      (e : ScheduledRotation)
      → IsQuiet
      → (o : Outcome f) × ((evaluate_entry f ports policy as_of e).0 ≡ ok o)
        × (outcome_item o ≡ e.item_id)
  unfolding evaluate_entry port_failed outcome_item
  evaluate_entry-Returns e q = elim (Result-cases (ports.current_state e.item_id)) [
    | inr (x, r) ↦
        let caught = q.state_quiet e.item_id x r in
        (failed (record { item_id = e.item_id }), rw (r, caught, evaluate_entry) refl, refl)
    | inl (s, r) ↦
        let (o, done, same) = evaluate_snapshot-Returns e.item_id s q in
        (o, rw (r, evaluate_entry) done, same)
  ]

  items_of-add_outcome :
      (o : Outcome f) (r : RotationSweepResult)
      → Perm (items_of (add_outcome f o r)) (outcome_item o ∷ items_of r)
  unfolding items_of add_outcome outcome_item
  items_of-add_outcome (transitioned o) r = Perm.refl _
  items_of-add_outcome (skipped o) r = perm_middle _ _
  items_of-add_outcome (failed o) r =
      Perm.trans (Perm.append_left _ (perm_middle _ _)) (perm_middle _ _)

  evaluate_snapshot-calls :
      (j i : Text) (s : RotationCandidateSnapshot f)
      → Any (IsCompressCall i) (evaluate_snapshot f ports policy as_of j s).1
      → (j ≡ i)
        × (s.lifecycle_state ≡ active)
        × (lt f (f.add policy.compress_threshold (score_guard_epsilon f)) s.memory_score ≡ false)
  unfolding evaluate_snapshot
  evaluate_snapshot-calls j i s h = ground arith

  evaluate_snapshot_eligible :
      (j : Text) (s : RotationCandidateSnapshot f)
      → s.lifecycle_state ≡ active
      → lt f (f.add policy.compress_threshold (score_guard_epsilon f)) s.memory_score ≡ false
      → Any (IsCompressCall j) (evaluate_snapshot f ports policy as_of j s).1
  unfolding evaluate_snapshot
  evaluate_snapshot_eligible j s a l = ground arith

  evaluate_entry-calls :
      (e : ScheduledRotation) (i : Text)
      → Any (IsCompressCall i) (evaluate_entry f ports policy as_of e).1
      → (e.item_id ≡ i) × IsEligible i
  unfolding evaluate_entry
  evaluate_entry-calls e i h = elim (Result-cases (ports.current_state e.item_id)) [
    | inr (x, r) ↦ absurd (rw (r, evaluate_entry) at h)
    | inl (s, r) ↦
        let (same, a, l) = evaluate_snapshot-calls e.item_id i s (rw (r, evaluate_entry) at h) in
        (same, record { snapshot = s; answered = rw (← same) r; is_active = a; low = l })
  ]

  evaluate_entry_eligible :
      (e : ScheduledRotation)
      → IsEligible e.item_id
      → Any (IsCompressCall e.item_id) (evaluate_entry f ports policy as_of e).1
  unfolding evaluate_entry
  evaluate_entry_eligible e v =
      rw (v.answered, evaluate_entry)
        (evaluate_snapshot_eligible e.item_id v.snapshot v.is_active v.low)

  evaluate_entry-published :
      (e : ScheduledRotation) (o : Outcome f) (r : RotationSweepResult)
      → (evaluate_entry f ports policy as_of e).0 ≡ ok o
      → map (λ o. o.item_id) (add_outcome f o r).transitioned
        ≡ published (evaluate_entry f ports policy as_of e).1 ++ map (λ o. o.item_id) r.transitioned
  unfolding evaluate_entry add_outcome published
  evaluate_entry-published e o r h = ground arith

  module _ (tenant_id : Text) (zone_id : ZoneId) where
    -- What a sweep of due items leaves: a result whose transitioned, skipped and failed items together
    -- are the due items, each as often as it is due; calls of `compress` for exactly the due items that
    -- are eligible; and events for the transitioned items, one for each, in order.
    abbrev pub IsSwept : List ScheduledRotation → Result RotationSweepResult × List Effect → Type 0
    IsSwept due out =
        (r : RotationSweepResult) × (out.0 ≡ ok r)
        × Perm (items_of r) (map (λ s. s.item_id) due)
        × ((i : Text) → Any (IsCompressCall i) out.1 ↔ (IsReturned i due × IsEligible i))
        × (map (λ o. o.item_id) r.transitioned ≡ published out.1)

    step-IsSwept :
        (e : ScheduledRotation) (due : List ScheduledRotation)
        (rest : Result RotationSweepResult × List Effect)
        → IsQuiet
        → IsSwept due rest
        → IsSwept (e ∷ due) (sweep_rest f (evaluate_entry f ports policy as_of e) rest)
    unfolding sweep_rest published
    step-IsSwept e due rest q (r, returned, accounts, calls, events) =
        let (o, done, same) = evaluate_entry-Returns e q in
        let here = (evaluate_entry f ports policy as_of e).1 in
        (
          add_outcome f o r,
          rw (done, returned) refl,
          Perm.trans (items_of-add_outcome o r) (rw same (Perm.cons e.item_id accounts)),
          λ i. rw done (
            λ h. elim (Any-append_split (IsCompressCall i) here rest.1 h) [
              | inl a ↦ let (same, v) = evaluate_entry-calls e i a in (inl same, v)
              | inr b ↦ let (r, v) = (calls i).0 b in (inr r, v)
            ],
            λ p. elim p.0 [
              | inl same ↦
                  Any-append_left (IsCompressCall i) here rest.1
                    (rw (← same) (evaluate_entry_eligible e (rw (← same) at p.1)))
              | inr r ↦ Any-append_right (IsCompressCall i) here rest.1 ((calls i).1 (r, p.1))
            ],
          ),
          rw done (
              evaluate_entry-published e o r done
              ∙ ap (λ l. published here ++ l) events
              ∙ sym (published-append here rest.1)),
        )

    pub sweep_loop-IsSwept :
        (due : List ScheduledRotation)
        → IsQuiet
        → IsSwept due (sweep_loop f ports policy as_of tenant_id zone_id due)
    unfolding sweep_loop items_of published
    sweep_loop-IsSwept [] q = (_, refl, Perm.refl [], λ i. (λ h. elim h [ ], λ h. h.0), refl)
    sweep_loop-IsSwept (e ∷ due) q =
        step-IsSwept e due (sweep_loop f ports policy as_of tenant_id zone_id due) q
          (sweep_loop-IsSwept due q)
