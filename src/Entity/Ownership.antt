-- ===== src/Entity/Ownership.antt =====
-- src/dashanan/domain/entity_ownership_specification.py with the edges and facts of
-- src/dashanan/domain/semantic_memory.py. A factory of ids is a function from the number of the call.
use dashanan.Prelude.{
  ℕ, suc, Bool, true, false, not, List, [], ◌∷◌, ◌++◌, map, if◌then◌else◌, Text, codes, is_blank,
  Dict, Result, ok, raise, value_error, ◌>>=◌,
}
use dashanan.Prelude.Floats.{Floats}

pub data SemanticState : Type 0 where
  active compressed archived : SemanticState

-- The check on each reference of a fact: whether its loop comes to its end.
unfoldable pub are_refs : List Text → Bool
unfolding is_blank
are_refs [] = true
are_refs (r ∷ refs) = let rest = are_refs refs in if is_blank r then false else rest

pub record CandidateFact : Type 0 where
  pub tenant_id : Text
  pub subjects : List Text
  pub objects : List Text
  pub predicate : Text
  pub qualifiers : Dict Text
  pub statement : Text
  pub subject_scope : Text
  pub index_reverse : Bool

-- `CandidateFact.__post_init__`
unfoldable pub check_fact : CandidateFact → Result CandidateFact
unfolding is_blank are_refs
check_fact c =
    if is_blank c.tenant_id
    then raise value_error
    else if not (are_refs c.subjects)
    then raise value_error
    else if not (are_refs c.objects)
    then raise value_error
    else ok c

module _ (f : Floats) where
  pub record SemanticEdge : Type 0 where
    pub tenant_id : Text
    pub edge_id : Text
    pub subject_ref : Text
    pub predicate : Text
    pub object_ref : Text
    pub qualifiers : Dict Text
    pub state : SemanticState
    pub score_terms : Dict f.Float

  -- `SemanticEdge.__post_init__`
  unfoldable pub check_edge : SemanticEdge → Result SemanticEdge
  unfolding is_blank
  check_edge e =
      if is_blank e.tenant_id
      then raise value_error
      else if is_blank e.edge_id
      then raise value_error
      else if is_blank e.subject_ref
      then raise value_error
      else if is_blank e.predicate
      then raise value_error
      else if is_blank e.object_ref
      then raise value_error
      else ok e

  pub record GeneralFact : Type 0 where
    pub tenant_id : Text
    pub fact_id : Text
    pub statement : Text
    pub subject_scope : Text
    pub state : SemanticState
    pub score_terms : Dict f.Float

  -- `GeneralFact.__post_init__`
  unfoldable pub check_general_fact : GeneralFact → Result GeneralFact
  unfolding is_blank
  check_general_fact g =
      if is_blank g.tenant_id
      then raise value_error
      else if is_blank g.fact_id
      then raise value_error
      else if is_blank g.statement
      then raise value_error
      else if is_blank g.subject_scope
      then raise value_error
      else ok g

  pub data EntityOwnershipRouting : Type 0 where
    semantic_edge_routing : List SemanticEdge → EntityOwnershipRouting
    general_fact_routing : GeneralFact → EntityOwnershipRouting
    zone_five_only_routing : Text → EntityOwnershipRouting

  abbrev pub reason_single_subject_no_object : Text
  reason_single_subject_no_object = codes "single_subject_no_object"

  abbrev pub reason_single_subject_index_reverse_false : Text
  reason_single_subject_index_reverse_false = codes "single_subject_index_reverse_false"

  -- `for subject_ref in subjects for object_ref in objects`
  unfoldable pub all_pairs : List Text → List Text → List (Text × Text)
  all_pairs [] objects = []
  all_pairs (s ∷ subjects) objects = map (λ o. (s, o)) objects ++ all_pairs subjects objects

  module _ (edge_id_factory : ℕ → Text) (fact_id_factory : ℕ → Text) where
    -- The edge of a pair, with the id of the n-th call.
    unfoldable pub edge_of : CandidateFact → ℕ → Text × Text → SemanticEdge
    edge_of c n p = record {
      tenant_id = c.tenant_id;
      edge_id = edge_id_factory n;
      subject_ref = p.0;
      predicate = c.predicate;
      object_ref = p.1;
      qualifiers = c.qualifiers;
      state = active;
      score_terms = [];
    }

    -- The generator behind a tuple of edges, after n calls of the factory.
    unfoldable pub make_edges : CandidateFact → ℕ → List (Text × Text) → Result (List SemanticEdge)
    unfolding edge_of check_edge
    make_edges c n [] = ok []
    make_edges c n (p ∷ pairs) = do
      e ← check_edge (edge_of c n p)
      rest ← make_edges c (suc n) pairs
      ok (e ∷ rest)

    unfoldable pub general_fact_of : CandidateFact → GeneralFact
    general_fact_of c = record {
      tenant_id = c.tenant_id;
      fact_id = fact_id_factory 0;
      statement = c.statement;
      subject_scope = c.subject_scope;
      state = active;
      score_terms = [];
    }

    unfoldable pub route_edges : Result (List SemanticEdge) → Result EntityOwnershipRouting
    route_edges edges = edges >>= (λ es. ok (semantic_edge_routing es))

    -- The branches of `classify` by the numbers of subjects and objects.
    unfoldable pub classify_by :
        CandidateFact → List Text → List Text → Result EntityOwnershipRouting
    unfolding check_general_fact general_fact_of route_edges make_edges all_pairs
    classify_by c [] objects =
        check_general_fact (general_fact_of c) >>= (λ g. ok (general_fact_routing g))
    classify_by c (s ∷ []) [] = ok (zone_five_only_routing reason_single_subject_no_object)
    classify_by c (s ∷ []) (o ∷ objects) =
        if c.index_reverse
        then route_edges (make_edges c 0 (map (λ x. (s, x)) (o ∷ objects)))
        else ok (zone_five_only_routing reason_single_subject_index_reverse_false)
    classify_by c (s ∷ t ∷ subjects) objects =
        route_edges (make_edges c 0 (all_pairs (s ∷ t ∷ subjects) objects))

    unfoldable pub classify : CandidateFact → Result EntityOwnershipRouting
    unfolding classify_by
    classify c = classify_by c c.subjects c.objects
