-- ===== src/Backstop/Swept.antt =====
-- The whole of a run of src/dashanan/application/zone2_capacity_backstop_sweep.py.
use dashanan.Prelude.{
  ℕ, ◌≡◌, inl, inr, refl, sym, ap, ap₂, ◌∙◌, subst, Bool, false, List, [], ◌∷◌, ◌++◌, map, Perm,
  Text, is_blank, Result, ok,
}
use mathlib.Core.List.{append-nil, append_assoc, map-append, perm_middle}
use mathlib.Core.List.Perm
use dashanan.Prelude.Floats.{Floats}
use dashanan.Backstop.{
  EvictionDecision, EvictionCandidate, Zone2BackstopConfig, plan_backstop_eviction,
}
use dashanan.Backstop.Plan.{plan_backstop_eviction_exact}
use dashanan.Backstop.Account.{
  IsIndexFirst, published, evicted_decision, failed_decision, accounted, Returns, IsQuiet,
  execute_one-IsIndexFirst, published-execute_one, execute_one-Returns, Answer-cases, IsDone,
  execute_one-IsDone,
}
use dashanan.Backstop.Sweep.{
  answers, port_fails, PortCall, publishes, EvictionOutcome, EvictionFailure, BackstopSweepResult,
  SweepPorts, execute_one, sweep_loop, sweep_planned, sweep_candidates, sweep_config, run_backstop,
}

module _ {A : Type 0} where
  -- An element that moves behind two lists.
  done_perm :
      (es fs ds : List A) (d : A) → Perm (((es ++ d ∷ []) ++ fs) ++ ds) ((es ++ fs) ++ d ∷ ds)
  done_perm es fs ds d =
      subst (λ x. Perm x ((es ++ fs) ++ d ∷ ds))
        (sym (append_assoc (es ++ d ∷ []) fs ds ∙ append_assoc es (d ∷ []) (fs ++ ds)))
        (Perm.trans (perm_middle es (fs ++ ds)) (
          Perm.trans
            (subst (λ x. Perm (d ∷ (es ++ (fs ++ ds))) (d ∷ x)) (sym (append_assoc es fs ds))
              (Perm.refl (d ∷ (es ++ (fs ++ ds)))))
            (Perm.symm (perm_middle (es ++ fs) ds))))

  fail_assoc : (es fs ds : List A) (d : A) → (es ++ (fs ++ d ∷ [])) ++ ds ≡ (es ++ fs) ++ d ∷ ds
  fail_assoc es fs ds d =
      ap (λ x. x ++ ds) (sym (append_assoc es fs (d ∷ []))) ∙ append_assoc (es ++ fs) (d ∷ []) ds

-- One entry more in a list of a result accounts for one decision more.
failed_more :
    (evicted : List EvictionOutcome) (failed : List EvictionFailure) (ds : List EvictionDecision)
    (o : EvictionFailure)
    → accounted evicted (failed ++ o ∷ []) ++ ds
      ≡ accounted evicted failed ++ failed_decision o ∷ ds
failed_more evicted failed ds o =
    ap (λ x. (map evicted_decision evicted ++ x) ++ ds) (map-append failed_decision failed (o ∷ []))
    ∙ fail_assoc (map evicted_decision evicted) (map failed_decision failed) ds (failed_decision o)

evicted_more :
    (evicted : List EvictionOutcome) (failed : List EvictionFailure) (ds : List EvictionDecision)
    (o : EvictionOutcome)
    → Perm
        (accounted (evicted ++ o ∷ []) failed ++ ds)
        (accounted evicted failed ++ evicted_decision o ∷ ds)
evicted_more evicted failed ds o =
    subst
      (λ x.
        Perm ((x ++ map failed_decision failed) ++ ds)
          (accounted evicted failed ++ evicted_decision o ∷ ds))
      (sym (map-append evicted_decision evicted (o ∷ [])))
      (done_perm (map evicted_decision evicted) (map failed_decision failed) ds
        (evicted_decision o))

module _ (f : Floats) (isoformat : ℕ → Text) (ports : SweepPorts f) (tenant_id : Text) where
  -- What a sweep of some decisions leaves: a result that accounts for what was and for each decision, with
  -- an event for each item that it names as evicted, in calls that are in their order.
  abbrev pub IsSwept : List EvictionDecision → List PortCall × Result BackstopSweepResult → Type 0
  IsSwept expected out =
      (r : BackstopSweepResult) × (out.1 ≡ ok r)
      × Perm (accounted r.evicted r.failed) expected
      × (published out.0 ≡ map (λ o. (o.item_id, o.via_dpdp_cascade)) r.evicted)
      × IsIndexFirst out.0

  sweep_loop_failed :
      (d : EvictionDecision) (ds : List EvictionDecision) (evicted : List EvictionOutcome)
      (failed : List EvictionFailure) (calls : List PortCall) (text : Text)
      → (execute_one f isoformat ports tenant_id d.item_id calls).1 ≡ port_fails text
      → sweep_loop f isoformat ports tenant_id (d ∷ ds) evicted failed calls
        ≡ sweep_loop f isoformat ports tenant_id ds evicted
            (failed ++ record { item_id = d.item_id; reason = d.reason; error = text } ∷ [])
            (execute_one f isoformat ports tenant_id d.item_id calls).0
  unfolding sweep_loop
  sweep_loop_failed d ds evicted failed calls text g = simp (sweep_loop, g) refl

  sweep_loop_evicted :
      (d : EvictionDecision) (ds : List EvictionDecision) (evicted : List EvictionOutcome)
      (failed : List EvictionFailure) (calls : List PortCall) (via : Bool)
      → IsQuiet f isoformat ports tenant_id
      → (execute_one f isoformat ports tenant_id d.item_id calls).1 ≡ answers via
      → sweep_loop f isoformat ports tenant_id (d ∷ ds) evicted failed calls
        ≡ sweep_loop f isoformat ports tenant_id ds
            (evicted
              ++ record { item_id = d.item_id; reason = d.reason; via_dpdp_cascade = via } ∷ [])
            failed
            (publishes d.item_id ∷ (execute_one f isoformat ports tenant_id d.item_id calls).0)
  unfolding sweep_loop
  sweep_loop_evicted d ds evicted failed calls via q g =
      simp
        (
          sweep_loop,
          g,
          q.publish_quiet (execute_one f isoformat ports tenant_id d.item_id calls).0 d,
        )
        refl

  sweep_loop-IsSwept :
      (ds : List EvictionDecision) (evicted : List EvictionOutcome) (failed : List EvictionFailure)
      (calls : List PortCall)
      → IsQuiet f isoformat ports tenant_id
      → IsIndexFirst calls
      → published calls ≡ map (λ o. (o.item_id, o.via_dpdp_cascade)) evicted
      → IsSwept
          (accounted evicted failed ++ ds)
          (sweep_loop f isoformat ports tenant_id ds evicted failed calls)
  unfolding sweep_loop
  sweep_loop-IsSwept [] evicted failed calls q v p = (
    record { tenant_id = tenant_id; evicted = evicted; failed = failed },
    refl,
    subst (Perm (accounted evicted failed)) (sym (append-nil (accounted evicted failed)))
        (Perm.refl (accounted evicted failed)),
    p,
    v,
  )
  sweep_loop-IsSwept (d ∷ ds) evicted failed calls q v p =
      let one = execute_one f isoformat ports tenant_id d.item_id calls in
      let first = execute_one-IsIndexFirst f isoformat ports tenant_id d.item_id calls v in
      let same = published-execute_one f isoformat ports tenant_id d.item_id calls in
      elim (Answer-cases f isoformat ports tenant_id one.1) [
        | inr (inr (e, g)) ↦
            absurd
              (subst Returns g (execute_one-Returns f isoformat ports tenant_id d.item_id calls q))
        | inr (inl (text, g)) ↦
            let o : EvictionFailure = record {
              item_id = d.item_id;
              reason = d.reason;
              error = text;
            } in
            subst (IsSwept (accounted evicted failed ++ d ∷ ds))
              (sym (sweep_loop_failed d ds evicted failed calls text g))
              (subst
                (λ x.
                  IsSwept x
                    (sweep_loop f isoformat ports tenant_id ds evicted (failed ++ o ∷ []) one.0))
                (failed_more evicted failed ds o)
                (sweep_loop-IsSwept ds evicted (failed ++ o ∷ []) one.0 q first (same ∙ p)))
        | inl (via, g) ↦
            let o : EvictionOutcome = record {
              item_id = d.item_id;
              reason = d.reason;
              via_dpdp_cascade = via;
            } in
            let (kind, removed) =
              execute_one-IsDone f isoformat ports tenant_id d.item_id calls via g in
            let (r, e, accounts, events, order) =
              sweep_loop-IsSwept ds (evicted ++ o ∷ []) failed (publishes d.item_id ∷ one.0) q
                (subst (λ b. IsDone d.item_id b one.0) kind removed, first)
                (ap₂ (λ x b. x ++ (d.item_id, b) ∷ []) (same ∙ p) (sym kind)
                  ∙ sym (map-append (λ x. (x.item_id, x.via_dpdp_cascade)) evicted (o ∷ []))) in
            subst (IsSwept (accounted evicted failed ++ d ∷ ds))
              (sym (sweep_loop_evicted d ds evicted failed calls via q g))
              (r, e, Perm.trans accounts (evicted_more evicted failed ds o), events, order)
      ]

  run_of_plan :
      (config : Zone2BackstopConfig f) (candidates : List (EvictionCandidate f))
      (ds : List EvictionDecision)
      → is_blank tenant_id ≡ false
      → ports.load tenant_id ≡ ok config
      → ports.fetch_candidates tenant_id ports.now ≡ ok candidates
      → plan_backstop_eviction f candidates config ≡ ok ds
      → run_backstop f isoformat ports tenant_id
        ≡ sweep_loop f isoformat ports tenant_id ds [] [] []
  unfolding run_backstop
  run_of_plan config candidates ds ht hc hk e =
      simp ht refl
      ∙ ap (sweep_config f isoformat ports tenant_id) hc
      ∙ ap (sweep_candidates f isoformat ports tenant_id config) hk
      ∙ ap (sweep_planned f isoformat ports tenant_id) e

  -- A run for a tenant that is not blank, where the configuration and the candidates are there and the
  -- ports raise nothing but Zone2BackstopPortError and the bus nothing, returns a result: its evicted and
  -- failed items are together the decisions of the plan, each once; an event is published for each evicted
  -- item and no other, in their order; the port evicts an item only right behind a deletion of its index
  -- entry that returned, for an item that no pending erasure removed; and each event comes right behind
  -- the calls that removed its item, either such an eviction, which returned, or an erasure and the
  -- deletion of the index entry, which the result tells apart.
  pub run_backstop_total :
      (config : Zone2BackstopConfig f) (candidates : List (EvictionCandidate f))
      → is_blank tenant_id ≡ false
      → ports.load tenant_id ≡ ok config
      → ports.fetch_candidates tenant_id ports.now ≡ ok candidates
      → IsQuiet f isoformat ports tenant_id
      → (ds : List EvictionDecision) × (plan_backstop_eviction f candidates config ≡ ok ds)
        × IsSwept ds (run_backstop f isoformat ports tenant_id)
  unfolding run_backstop sweep_config
  run_backstop_total config candidates ht hc hk q =
      let (ds, e, exact, complete) = plan_backstop_eviction_exact f candidates config in
      (
        ds,
        e,
        subst (IsSwept ds) (sym (run_of_plan config candidates ds ht hc hk e))
            (sweep_loop-IsSwept ds [] [] [] q tt refl),
      )
