-- ===== src/Provenance/Conflict.antt =====
-- src/dashanan/domain/conflict_detection.py and the decorator of
-- src/dashanan/application/conflict_detection_sweep.py. The wrapped repository is an interface: its
-- journal is the list of the records in the order of their appends; an `append` puts a record behind
-- it or raises; and a `find_by_item_id` gives the records of an item in the order of their timestamps
-- or raises. `uuid4`, the clock and `repr` are parameters.
use dashanan.Prelude.{
  ℕ, ◌≡◌, Bool, true, false, ◌&&◌, Option, none, some, List, [], ◌∷◌, ◌++◌, reverse, keep_if, Perm,
  IsAscending, if◌then◌else◌, Text, codes, text_eq, Result, ok, raise, Error, foreign_error,
  index_error,
}
use dashanan.Prelude.Floats.{Floats}
use dashanan.Provenance.Hash.{disputed}
use dashanan.Provenance.Record.{
  ProvenanceRecord, ProvenanceUpdateEntry, Creation, create, same_option,
}

pub record ConflictDetectionResult : Type 0 where
  pub conflicting : Bool
  pub disputed_provenance_id : Option Text

-- What one call meets.
pub record SweepWorld : Type 0 where
  pub correction_id : Text
  pub now : ℕ

module _ (f : Floats) where
  unfoldable pub first_active : List (ProvenanceRecord f) → Option (ProvenanceRecord f)
  first_active [] = none
  first_active (r ∷ rs) = if r.invalidation_flag then first_active rs else some r

  -- `for record in reversed(…)`
  unfoldable pub latest_active_record : List (ProvenanceRecord f) → Option (ProvenanceRecord f)
  unfolding first_active
  latest_active_record rs = first_active (reverse rs)

  unfoldable pub detect_against :
      Option (ProvenanceRecord f) → Option Text → ConflictDetectionResult
  unfolding same_option
  detect_against none incoming = record { conflicting = false; disputed_provenance_id = none }
  detect_against (some active) incoming =
      if same_option incoming (some active.provenance_id)
      then record { conflicting = false; disputed_provenance_id = none }
      else record { conflicting = true; disputed_provenance_id = some active.provenance_id }

  unfoldable pub detect_conflict : List (ProvenanceRecord f) → Option Text → ConflictDetectionResult
  unfolding latest_active_record detect_against
  detect_conflict records incoming = detect_against (latest_active_record records) incoming

  abbrev pub Journal : Type 0
  Journal = List (ProvenanceRecord f)

  -- The records of an item, in the order of their appends.
  abbrev pub of_item : Journal → Text → Text → Journal
  of_item j tenant_id item_id =
      keep_if (λ r. text_eq r.tenant_id tenant_id && text_eq r.item_id item_id) j

  -- The records of an item in chronological order, in any order where their timestamps are the same.
  abbrev pub IsLineage : Journal → Text → Text → Journal → Type 0
  IsLineage j tenant_id item_id found =
      Perm found (of_item j tenant_id item_id) × IsAscending (λ r. r.write_timestamp) found

  -- `ProvenanceRepositoryPort`
  pub record ProvenanceRepository : Type 0 where
    pub append_record : Journal → ProvenanceRecord f → Result Journal
    pub append_record-appends :
        (j k : Journal) (r : ProvenanceRecord f) → append_record j r ≡ ok k → k ≡ j ++ r ∷ []
    pub find_by_item_id : Journal → Text → Text → Result Journal
    pub find_by_item_id-IsLineage :
        (j found : Journal) (tenant_id item_id : Text)
        → find_by_item_id j tenant_id item_id ≡ ok found
        → IsLineage j tenant_id item_id found

  -- `next(r for r in existing if r.provenance_id == …)`
  unfoldable pub find_provenance : Option Text → Journal → Option (ProvenanceRecord f)
  unfolding same_option
  find_provenance id [] = none
  find_provenance id (r ∷ rs) =
      if same_option (some r.provenance_id) id then some r else find_provenance id rs

  module _ (sha256 : List ℕ → Text) (isoformat : ℕ → Text) (format10 : f.Float → Text)
      (repr : Text → Text) (repository : ProvenanceRepository) where
    -- The correction of the disputed record.
    abbrev pub correction_of : ProvenanceRecord f → ProvenanceRecord f → SweepWorld → Creation f
    correction_of d r w = record {
      tenant_id = d.tenant_id;
      provenance_id = w.correction_id;
      item_id = d.item_id;
      source_zone = d.source_zone;
      source_type = d.source_type;
      write_timestamp = w.now;
      actor = codes "conflict-detection-sweep";
      change =
          codes "flagged disputed (FR-013): write "
          ++ repr r.provenance_id
          ++ codes
              " for the same item_id arrived without chaining from this record via prev_provenance_id";
      retrieval_context_hash = d.retrieval_context_hash;
      source_refs = d.source_refs;
      prev_provenance_id = some d.provenance_id;
      prev_hash = some d.record_hash;
      conflict_status = disputed;
      invalidation_flag = false;
      failed_faithfulness_check = false;
      compression_generation = 0;
      source_confidences = none;
    }

    -- The incoming record again, as disputed.
    abbrev pub downgrade_of : ProvenanceRecord f → ProvenanceUpdateEntry → Creation f
    downgrade_of r e = record {
      tenant_id = r.tenant_id;
      provenance_id = r.provenance_id;
      item_id = r.item_id;
      source_zone = r.source_zone;
      source_type = r.source_type;
      write_timestamp = r.write_timestamp;
      actor = e.actor;
      change = e.change;
      retrieval_context_hash = r.retrieval_context_hash;
      source_refs = r.source_refs;
      prev_provenance_id = e.prev_provenance_id;
      prev_hash = r.prev_hash;
      conflict_status = disputed;
      invalidation_flag = r.invalidation_flag;
      failed_faithfulness_check = false;
      compression_generation = 0;
      source_confidences = none;
    }

    -- `self._wrapped.append(record)`: the journal afterwards, and whether it raised.
    unfoldable pub wrapped_append : Journal → ProvenanceRecord f → Journal × Option Error
    wrapped_append j r = elim (repository.append_record j r) [
      | ok k ↦ (k, none)
      | raise e ↦ (j, some e)
    ]

    -- `create` and then the append of what it returns.
    unfoldable pub append_created : Journal → Creation f → Journal × Option Error
    unfolding wrapped_append create
    append_created j c = elim (create f sha256 isoformat format10 c) [
      | raise e ↦ (j, some e)
      | ok r ↦ wrapped_append j r
    ]

    -- The branch of a conflict.
    unfoldable pub flag_both :
        Journal
        → ProvenanceRecord f
        → ProvenanceUpdateEntry
        → ProvenanceRecord f
        → SweepWorld
        → Journal × Option Error
    unfolding append_created
    flag_both j r e d w =
        let corrected = append_created j (correction_of d r w) in
        elim corrected.1 [
          | some x ↦ (corrected.0, some x)
          | none ↦ append_created corrected.0 (downgrade_of r e)
        ]

    -- From the detection on, with the records that were found.
    unfoldable pub sweep_found :
        Journal
        → ProvenanceRecord f
        → ProvenanceUpdateEntry
        → SweepWorld
        → Journal
        → Journal × Option Error
    unfolding detect_conflict find_provenance flag_both wrapped_append
    sweep_found j r e w existing =
        let result = detect_conflict existing e.prev_provenance_id in
        elim result.conflicting [
          | false ↦ wrapped_append j r
          | true ↦ elim (find_provenance result.disputed_provenance_id existing) [
            | none ↦ (j, some foreign_error)
            | some d ↦ flag_both j r e d w
          ]
        ]

    unfoldable pub sweep_entry :
        Journal → ProvenanceRecord f → ProvenanceUpdateEntry → SweepWorld → Journal × Option Error
    unfolding sweep_found
    sweep_entry j r e w = elim (repository.find_by_item_id j r.tenant_id r.item_id) [
      | raise x ↦ (j, some x)
      | ok existing ↦ sweep_found j r e w existing
    ]

    -- `ConflictDetectingProvenanceRepository.append`
    unfoldable pub append : Journal → ProvenanceRecord f → SweepWorld → Journal × Option Error
    unfolding sweep_entry
    append j r w = elim r.update_history [
      | [] ↦ (j, some index_error)
      | e ∷ _ ↦ sweep_entry j r e w
    ]
