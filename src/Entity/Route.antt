-- ===== src/Entity/Route.antt =====
-- Where `classify` of src/dashanan/domain/entity_ownership_specification.py sends a fact.
use dashanan.Prelude.{
  ℕ, suc, ◌≡◌, ◌≤◌, true, false, List, [], ◌∷◌, length, Text, is_blank, Result, ok,
}
use dashanan.Prelude.Floats.{Floats}
use dashanan.Entity.Ownership.{
  are_refs, CandidateFact, SemanticEdge, EntityOwnershipRouting, semantic_edge_routing,
  general_fact_routing, zone_five_only_routing, all_pairs, edge_of, general_fact_of,
}

module _ (f : Floats) (edge_id_factory : ℕ → Text) (fact_id_factory : ℕ → Text) where
  -- What `classify` needs of a fact and of the factories to make its edges and facts.
  pub record IsComplete (c : CandidateFact) : Type 0 where
    pub tenant_named : is_blank c.tenant_id ≡ false
    pub subjects_named : are_refs c.subjects ≡ true
    pub objects_named : are_refs c.objects ≡ true
    pub predicate_named : is_blank c.predicate ≡ false
    pub statement_named : is_blank c.statement ≡ false
    pub scope_named : is_blank c.subject_scope ≡ false
    pub edge_ids_named : (n : ℕ) → is_blank (edge_id_factory n) ≡ false
    pub fact_ids_named : (n : ℕ) → is_blank (fact_id_factory n) ≡ false

  -- The edges of some pairs, with the ids of the calls from the n-th on.
  abbrev pub edges_of : CandidateFact → ℕ → List (Text × Text) → List (SemanticEdge f)
  edges_of c n [] = []
  edges_of c n (p ∷ pairs) =
      edge_of f edge_id_factory fact_id_factory c n p ∷ edges_of c (suc n) pairs

  -- Where the specification sends a fact with some subjects and objects: to the edges of all pairs, to a
  -- general fact, or to Zone 5 only.
  abbrev RoutesBy : CandidateFact → List Text → List Text → EntityOwnershipRouting f → Type 0
  RoutesBy c subjects objects (semantic_edge_routing es) =
      (1 ≤ length subjects)
      × (length subjects ≡ 1 → (c.index_reverse ≡ true) × (1 ≤ length objects))
      × (es ≡ edges_of c 0 (all_pairs f subjects objects))
  RoutesBy c subjects objects (general_fact_routing g) =
      (length subjects ≡ 0) × (g ≡ general_fact_of f edge_id_factory fact_id_factory c)
  RoutesBy c subjects objects (zone_five_only_routing reason) =
      (length subjects ≡ 1) × (1 ≤ length objects → c.index_reverse ≡ false)

  abbrev pub Routes : CandidateFact → EntityOwnershipRouting f → Type 0
  Routes c r = RoutesBy c c.subjects c.objects r

  NamedPair : Text × Text → Type 0
  NamedPair p = (is_blank p.0 ≡ false) × (is_blank p.1 ≡ false)

  abbrev IsRouted :
      CandidateFact → List Text → List Text → Result (EntityOwnershipRouting f) → Type 0
  IsRouted c subjects objects out =
      (r : EntityOwnershipRouting f) × (out ≡ ok r) × RoutesBy c subjects objects r
