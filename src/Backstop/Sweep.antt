-- ===== src/Backstop/Sweep.antt =====
-- The sweep that carries a plan out: src/dashanan/application/zone2_capacity_backstop_sweep.py. The ports,
-- the event bus and the clock are parameters: what a port answers may depend on all calls before it. The
-- calls are kept, the last one first.
use dashanan.Prelude.{
  ℕ, Bool, true, false, List, [], ◌∷◌, ◌++◌, if◌then◌else◌, Text, codes, is_blank, Result, ok,
  raise, Error, value_error,
}
use dashanan.Prelude.Floats.{Floats}
use dashanan.Backstop.{
  EvictionReason, EvictionDecision, EvictionCandidate, Zone2BackstopConfig, plan_backstop_eviction,
}

-- What a port does: it returns, it raises Zone2BackstopPortError with a text, or it raises something else.
pub data Answer {ℓ} (A : Type ℓ) : Type ℓ where
  answers : A → Answer A
  port_fails : Text → Answer A
  raises : Error → Answer A

-- The calls of the ports and of the bus on an item, with what each port did.
pub data PortCall : Type 0 where
  fulfils : Text → Answer Bool → PortCall
  deletes evicts : Text → Answer (Unit {0}) → PortCall
  publishes : Text → PortCall

-- The payload of the event.
pub record EvictedEvent : Type 0 where
  pub tenant_id : Text
  pub item_id : Text
  pub zone : Text
  pub reason : EvictionReason
  pub evicted_at : Text

pub record EvictionOutcome : Type 0 where
  pub item_id : Text
  pub reason : EvictionReason
  pub via_dpdp_cascade : Bool

pub record EvictionFailure : Type 0 where
  pub item_id : Text
  pub reason : EvictionReason
  pub error : Text

pub record BackstopSweepResult : Type 0 where
  pub tenant_id : Text
  pub evicted : List EvictionOutcome
  pub failed : List EvictionFailure

module _ (f : Floats) where
  pub record SweepPorts : Type 0 where
    pub load : Text → Result (Zone2BackstopConfig f)
    pub now : ℕ
    pub fetch_candidates : Text → ℕ → Result (List (EvictionCandidate f))
    pub fulfil_pending_erasure : List PortCall → Text → Text → Answer Bool
    pub delete_item : List PortCall → Text → Text → Answer (Unit {0})
    pub evict : List PortCall → Text → Text → Answer (Unit {0})
    pub publish : List PortCall → EvictedEvent → Result (Unit {0})

  module _ (isoformat : ℕ → Text) (ports : SweepPorts) (tenant_id : Text) where
    -- The end of `_execute_one`.
    unfoldable pub evict_unless : Bool → Text → List PortCall → List PortCall × Answer Bool
    evict_unless true id calls = (calls, answers true)
    evict_unless false id calls = (
      evicts id (ports.evict calls tenant_id id) ∷ calls,
      elim (ports.evict calls tenant_id id) [
        | answers u ↦ answers false
        | port_fails e ↦ port_fails e
        | raises e ↦ raises e
      ],
    )

    -- From `delete_item` on.
    unfoldable pub delete_and_evict : Bool → Text → List PortCall → List PortCall × Answer Bool
    unfolding evict_unless
    delete_and_evict fulfilled id calls = elim (ports.delete_item calls tenant_id id) [
      | answers u ↦ evict_unless fulfilled id (deletes id (answers u) ∷ calls)
      | port_fails e ↦ (deletes id (port_fails e) ∷ calls, port_fails e)
      | raises e ↦ (deletes id (raises e) ∷ calls, raises e)
    ]

    -- `_execute_one`
    unfoldable pub execute_one : Text → List PortCall → List PortCall × Answer Bool
    unfolding delete_and_evict
    execute_one id calls = elim (ports.fulfil_pending_erasure calls tenant_id id) [
      | answers fulfilled ↦ delete_and_evict fulfilled id (fulfils id (answers fulfilled) ∷ calls)
      | port_fails e ↦ (fulfils id (port_fails e) ∷ calls, port_fails e)
      | raises e ↦ (fulfils id (raises e) ∷ calls, raises e)
    ]

    unfoldable pub event_of : EvictionDecision → EvictedEvent
    event_of d = record {
      tenant_id = tenant_id;
      item_id = d.item_id;
      zone = codes "episodic";
      reason = d.reason;
      evicted_at = isoformat ports.now;
    }

    -- The loop of `run`, with the lists so far.
    unfoldable pub sweep_loop :
        List EvictionDecision
        → List EvictionOutcome
        → List EvictionFailure
        → List PortCall
        → List PortCall × Result BackstopSweepResult
    unfolding execute_one event_of
    sweep_loop [] evicted failed calls =
        (calls, ok (record { tenant_id = tenant_id; evicted = evicted; failed = failed }))
    sweep_loop (d ∷ ds) evicted failed calls =
        let one = execute_one d.item_id calls in
        elim one.1 [
          | raises e ↦ (one.0, raise e)
          | port_fails text ↦
              sweep_loop ds evicted
                (failed ++ record { item_id = d.item_id; reason = d.reason; error = text } ∷ [])
                one.0
          | answers via ↦ elim (ports.publish one.0 (event_of d)) [
            | raise e ↦ (publishes d.item_id ∷ one.0, raise e)
            | ok u ↦
                sweep_loop ds
                  (evicted
                    ++ record { item_id = d.item_id; reason = d.reason; via_dpdp_cascade = via }
                      ∷ [])
                  failed (publishes d.item_id ∷ one.0)
          ]
        ]

    -- From the plan on.
    unfoldable pub sweep_planned :
        Result (List EvictionDecision) → List PortCall × Result BackstopSweepResult
    unfolding sweep_loop
    sweep_planned (raise e) = ([], raise e)
    sweep_planned (ok decisions) = sweep_loop decisions [] [] []

    unfoldable pub sweep_candidates :
        Zone2BackstopConfig f
        → Result (List (EvictionCandidate f))
        → List PortCall × Result BackstopSweepResult
    unfolding sweep_planned plan_backstop_eviction
    sweep_candidates config (raise e) = ([], raise e)
    sweep_candidates config (ok candidates) =
        sweep_planned (plan_backstop_eviction f candidates config)

    unfoldable pub sweep_config :
        Result (Zone2BackstopConfig f) → List PortCall × Result BackstopSweepResult
    unfolding sweep_candidates
    sweep_config (raise e) = ([], raise e)
    sweep_config (ok config) = sweep_candidates config (ports.fetch_candidates tenant_id ports.now)

    -- `run`
    unfoldable pub run_backstop : List PortCall × Result BackstopSweepResult
    unfolding is_blank sweep_config
    run_backstop =
        if is_blank tenant_id then ([], raise value_error) else sweep_config (ports.load tenant_id)
