-- ===== src/Backstop/Account.antt =====
-- What a run of src/dashanan/application/zone2_capacity_backstop_sweep.py accounts for.
use dashanan.Prelude.{
  ℕ, ap, subst, ◌≡◌, ◌⊎◌, inl, inr, refl, Bool, true, false, List, [], ◌∷◌, ◌++◌, map, Text, ok,
  Error,
}
use dashanan.Prelude.Floats.{Floats}
use dashanan.Backstop.{EvictionDecision}
use dashanan.Backstop.Sweep.{
  Answer, answers, port_fails, raises, PortCall, fulfils, deletes, evicts, publishes,
  EvictionOutcome, EvictionFailure, SweepPorts, evict_unless, delete_and_evict, execute_one,
  event_of,
}

-- The last calls have removed the item: its index entry was deleted, and either it was erased before, or it
-- was not and the port evicted it.
abbrev pub IsDone : Text → Bool → List PortCall → Type 0
IsDone id true calls =
    (before : List PortCall) × (calls
      ≡ deletes id (answers tt) ∷ fulfils id (answers true) ∷ before)
IsDone id false calls =
    (before : List PortCall) × (calls
      ≡ evicts id (answers tt) ∷ deletes id (answers tt) ∷ fulfils id (answers false) ∷ before)

-- Whether an event behind these calls is about an erased item.
abbrev pub by_cascade : List PortCall → Bool
by_cascade (deletes id a ∷ calls) = true
by_cascade _ = false

-- A call that evicts comes right behind the deletion of the item's index entry, which returned, for an item
-- without a pending erasure; an event comes right behind the calls that removed its item.
abbrev pub Follows : PortCall → List PortCall → Type 0
Follows (evicts id a) calls =
    (before : List PortCall) × (calls
      ≡ deletes id (answers tt) ∷ fulfils id (answers false) ∷ before)
Follows (fulfils id a) calls = Unit
Follows (deletes id a) calls = Unit
Follows (publishes id) calls = IsDone id (by_cascade calls) calls

abbrev pub IsIndexFirst : List PortCall → Type 0
IsIndexFirst [] = Unit
IsIndexFirst (c ∷ calls) = Follows c calls × IsIndexFirst calls

-- The items of the events, in their order, each with whether it was erased.
abbrev pub published : List PortCall → List (Text × Bool)
published [] = []
published (publishes id ∷ calls) = published calls ++ (id, by_cascade calls) ∷ []
published (fulfils id a ∷ calls) = published calls
published (deletes id a ∷ calls) = published calls
published (evicts id a ∷ calls) = published calls

abbrev pub evicted_decision : EvictionOutcome → EvictionDecision
evicted_decision o = record { item_id = o.item_id; reason = o.reason }

abbrev pub failed_decision : EvictionFailure → EvictionDecision
failed_decision o = record { item_id = o.item_id; reason = o.reason }

-- The decisions that the lists of a result name.
abbrev pub accounted : List EvictionOutcome → List EvictionFailure → List EvictionDecision
accounted evicted failed = map evicted_decision evicted ++ map failed_decision failed

-- A port returns or raises what the sweep catches.
abbrev pub Returns {ℓ} : {A : Type ℓ} → Answer A → Type 0
Returns (answers x) = Unit
Returns (port_fails text) = Unit
Returns (raises e) = ⊥

-- An answer that is an exception.
abbrev pub Fails {ℓ} : {A : Type ℓ} → Answer A → Type 0
Fails (answers x) = ⊥
Fails _ = Unit

module _ (f : Floats) (isoformat : ℕ → Text) (ports : SweepPorts f) (tenant_id : Text) where
  pub Answer-cases {ℓ} :
      {A : Type ℓ} (a : Answer A)
      → ((x : A) × (a ≡ answers x))
        ⊎ (((t : Text) × (a ≡ port_fails t)) ⊎ ((e : Error) × (a ≡ raises e)))
  Answer-cases (answers x) = inl (x, refl)
  Answer-cases (port_fails t) = inr (inl (t, refl))
  Answer-cases (raises e) = inr (inr (e, refl))

  -- What holds on each way through one execution holds of it.
  execute_one_ways :
      (P : List PortCall × Answer Bool → Type 0) (id : Text) (calls : List PortCall)
      → ((a b : Answer Bool) → Fails b → P (fulfils id a ∷ calls, b))
      → ((a : Answer (Unit {0})) (b x : Answer Bool)
          → Fails b
          → P (deletes id a ∷ fulfils id x ∷ calls, b))
      → P (deletes id (answers tt) ∷ fulfils id (answers true) ∷ calls, answers true)
      → ((a : Answer (Unit {0})) (b : Answer Bool)
          → Fails b
          → P (evicts id a ∷ deletes id (answers tt) ∷ fulfils id (answers false) ∷ calls, b))
      → P (
        evicts id (answers tt) ∷ deletes id (answers tt) ∷ fulfils id (answers false) ∷ calls,
        answers false,
      )
      → P (execute_one f isoformat ports tenant_id id calls)
  unfolding execute_one delete_and_evict evict_unless
  execute_one_ways P id calls p q r s t =
      fulfilled_cases (ports.fulfil_pending_erasure calls tenant_id id)
    where
      evicted_cases :
          (a : Answer (Unit {0}))
          → P (
            evicts id a ∷ deletes id (answers tt) ∷ fulfils id (answers false) ∷ calls,
            elim a as (λ x. Answer Bool) [
              | answers u ↦ answers false
              | port_fails e ↦ port_fails e
              | raises e ↦ raises e
            ],
          )
      evicted_cases (answers u) = t
      evicted_cases (port_fails e) = s (port_fails e) (port_fails e) tt
      evicted_cases (raises e) = s (raises e) (raises e) tt

      deleted_cases :
          (b : Bool) (a : Answer (Unit {0}))
          → P (elim a as (λ x. List PortCall × Answer Bool) [
            | answers u ↦
                evict_unless f isoformat ports tenant_id b id
                  (deletes id (answers u) ∷ fulfils id (answers b) ∷ calls)
            | port_fails e ↦
                (deletes id (port_fails e) ∷ fulfils id (answers b) ∷ calls, port_fails e)
            | raises e ↦ (deletes id (raises e) ∷ fulfils id (answers b) ∷ calls, raises e)
          ])
      deleted_cases true (answers u) = r
      deleted_cases false (answers u) =
          evicted_cases
            (ports.evict (deletes id (answers u) ∷ fulfils id (answers false) ∷ calls) tenant_id id)
      deleted_cases b (port_fails e) = q (port_fails e) (port_fails e) (answers b) tt
      deleted_cases b (raises e) = q (raises e) (raises e) (answers b) tt

      fulfilled_cases :
          (a : Answer Bool)
          → P (elim a as (λ x. List PortCall × Answer Bool) [
            | answers b ↦
                delete_and_evict f isoformat ports tenant_id b id (fulfils id (answers b) ∷ calls)
            | port_fails e ↦ (fulfils id (port_fails e) ∷ calls, port_fails e)
            | raises e ↦ (fulfils id (raises e) ∷ calls, raises e)
          ])
      fulfilled_cases (answers b) =
          deleted_cases b (ports.delete_item (fulfils id (answers b) ∷ calls) tenant_id id)
      fulfilled_cases (port_fails e) = p (port_fails e) (port_fails e) tt
      fulfilled_cases (raises e) = p (raises e) (raises e) tt

  pub execute_one-IsIndexFirst :
      (id : Text) (calls : List PortCall)
      → IsIndexFirst calls
      → IsIndexFirst (execute_one f isoformat ports tenant_id id calls).0
  execute_one-IsIndexFirst id calls v =
      execute_one_ways (λ out. IsIndexFirst out.0) id calls (λ a b h. (tt, v))
        (λ a b x h. (tt, (tt, v))) (tt, (tt, v)) (λ a b h. ((calls, refl), (tt, (tt, v))))
        ((calls, refl), (tt, (tt, v)))

  pub published-execute_one :
      (id : Text) (calls : List PortCall)
      → published (execute_one f isoformat ports tenant_id id calls).0 ≡ published calls
  published-execute_one id calls =
      execute_one_ways (λ out. published out.0 ≡ published calls) id calls (λ a b h. refl)
        (λ a b x h. refl) refl (λ a b h. refl) refl

  -- An execution that returns has removed its item, and says whether it was erased.
  pub execute_one-IsDone :
      (id : Text) (calls : List PortCall) (via : Bool)
      → (execute_one f isoformat ports tenant_id id calls).1 ≡ answers via
      → (via ≡ by_cascade (execute_one f isoformat ports tenant_id id calls).0)
        × IsDone id via (execute_one f isoformat ports tenant_id id calls).0
  execute_one-IsDone id calls via =
      execute_one_ways (λ out. out.1 ≡ answers via → (via ≡ by_cascade out.0) × IsDone id via out.0)
        id calls (λ a b h e. absurd (subst Fails e h)) (λ a b x h e. absurd (subst Fails e h))
        (λ e.
          done true (deletes id (answers tt) ∷ fulfils id (answers true) ∷ calls) via e refl
            (calls, refl))
        (λ a b h e. absurd (subst Fails e h))
        (λ e.
          done false
            (evicts id (answers tt) ∷ deletes id (answers tt) ∷ fulfils id (answers false) ∷ calls)
            via e refl (calls, refl))
    where
      answer_or : Answer Bool → Bool
      answer_or (answers b) = b
      answer_or _ = true

      done :
          (b : Bool) (now : List PortCall) (v : Bool)
          → answers b ≡ answers v
          → b ≡ by_cascade now
          → IsDone id b now
          → (v ≡ by_cascade now) × IsDone id v now
      done b now v e c d =
          subst (λ x. (x ≡ by_cascade now) × IsDone id x now) (ap answer_or e) (c, d)

  -- The ports raise nothing but Zone2BackstopPortError, and the bus nothing.
  pub record IsQuiet : Type 0 where
    pub fulfil_quiet :
        (calls : List PortCall) (id : Text)
        → Returns (ports.fulfil_pending_erasure calls tenant_id id)
    pub delete_quiet :
        (calls : List PortCall) (id : Text) → Returns (ports.delete_item calls tenant_id id)
    pub evict_quiet : (calls : List PortCall) (id : Text) → Returns (ports.evict calls tenant_id id)
    pub publish_quiet :
        (calls : List PortCall) (d : EvictionDecision)
        → ports.publish calls (event_of f isoformat ports tenant_id d) ≡ ok tt

  evict_unless-Returns :
      (b : Bool) (id : Text) (calls : List PortCall)
      → IsQuiet
      → Returns (evict_unless f isoformat ports tenant_id b id calls).1
  unfolding evict_unless
  evict_unless-Returns true id calls q = tt
  evict_unless-Returns false id calls q =
      passed (ports.evict calls tenant_id id) (q.evict_quiet calls id)
    where
      passed :
          (a : Answer (Unit {0}))
          → Returns a
          → Returns (elim a as (λ x. Answer Bool) [
            | answers u ↦ answers false
            | port_fails e ↦ port_fails e
            | raises e ↦ raises e
          ])
      passed (answers u) r = tt
      passed (port_fails e) r = tt
      passed (raises e) r = r

  -- An execution raises only what is caught.
  pub execute_one-Returns :
      (id : Text) (calls : List PortCall)
      → IsQuiet
      → Returns (execute_one f isoformat ports tenant_id id calls).1
  unfolding execute_one delete_and_evict
  execute_one-Returns id calls q =
      fulfilled_cases (ports.fulfil_pending_erasure calls tenant_id id) (q.fulfil_quiet calls id)
    where
      deleted_cases :
          (b : Bool) (a : Answer (Unit {0}))
          → Returns a
          → Returns
              (elim a as (λ x. List PortCall × Answer Bool) [
                | answers u ↦
                    evict_unless f isoformat ports tenant_id b id
                      (deletes id (answers u) ∷ fulfils id (answers b) ∷ calls)
                | port_fails e ↦
                    (deletes id (port_fails e) ∷ fulfils id (answers b) ∷ calls, port_fails e)
                | raises e ↦ (deletes id (raises e) ∷ fulfils id (answers b) ∷ calls, raises e)
              ]).1
      deleted_cases b (answers u) r =
          evict_unless-Returns b id (deletes id (answers u) ∷ fulfils id (answers b) ∷ calls) q
      deleted_cases b (port_fails e) r = tt
      deleted_cases b (raises e) r = r

      fulfilled_cases :
          (a : Answer Bool)
          → Returns a
          → Returns
              (elim a as (λ x. List PortCall × Answer Bool) [
                | answers b ↦
                    delete_and_evict f isoformat ports tenant_id b id
                      (fulfils id (answers b) ∷ calls)
                | port_fails e ↦ (fulfils id (port_fails e) ∷ calls, port_fails e)
                | raises e ↦ (fulfils id (raises e) ∷ calls, raises e)
              ]).1
      fulfilled_cases (answers b) r =
          deleted_cases b (ports.delete_item (fulfils id (answers b) ∷ calls) tenant_id id)
            (q.delete_quiet (fulfils id (answers b) ∷ calls) id)
      fulfilled_cases (port_fails e) r = tt
      fulfilled_cases (raises e) r = r
