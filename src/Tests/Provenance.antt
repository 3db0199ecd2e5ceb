-- ===== src/Tests/Provenance.antt =====
-- Runs of the lineages of src/dashanan/domain/provenance_record.py and of the decorator of
-- src/dashanan/application/conflict_detection_sweep.py.
use dashanan.Prelude.{
  ℕ, ◌+◌, ◌%◌, ◌≡◌, ◌⊎◌, refl, Bool, true, false, none, some, List, [], ◌∷◌, ◌++◌, map, ◌&&◌, ltb,
  arith, length, All, Text, codes, ok, ok-injective, sym, subst, sorted, sorted-perm,
  sorted-IsAscending,
}
use dashanan.Prelude.Floats.{micro_floats}
use dashanan.Zone.{semantic}
use dashanan.Gate.Request.{tool_output}
use dashanan.Gate.Canonical.{canonicalize_fields, IsField}
use dashanan.Prelude.Utf8.{IsText, utf8}
use dashanan.Provenance.Hash.{ConflictStatus, hashed_fields, no_conflict, disputed}
use dashanan.Provenance.Record.{
  hashed_of, ProvenanceRecord, Creation, creation_entry, create, made_record, verify_chain,
}
use dashanan.Provenance.Chain.{fields_of, AllSame, Collision, verify_chain-tamper}
use dashanan.Provenance.Growth.{with_history, verify_chain-create, verify_chain-history}
use dashanan.Provenance.Conflict.{
  Journal, of_item, IsLineage, ProvenanceRepository, SweepWorld, append,
}

-- A digest of 64 hexadecimal digits that tells messages apart by their length only.
abbrev digest : List ℕ → Text
digest bytes =
    codes "000000000000000000000000000000000000000000000000000000000000000"
    ++ (48 + length bytes % 10) ∷ []

abbrev clock_text : ℕ → Text
clock_text t = t ∷ []

abbrev format10 : ℕ → Text
format10 x = x ∷ []

abbrev first_creation : Creation micro_floats
first_creation = record {
  tenant_id = codes "t";
  provenance_id = codes "p1";
  item_id = codes "i";
  source_zone = semantic;
  source_type = tool_output;
  write_timestamp = 5;
  actor = codes "a";
  change = codes "c";
  retrieval_context_hash = digest [];
  source_refs = codes "r" ∷ [];
  prev_provenance_id = none;
  prev_hash = none;
  conflict_status = no_conflict;
  invalidation_flag = false;
  failed_faithfulness_check = false;
  compression_generation = 0;
  source_confidences = none;
}

abbrev first : ProvenanceRecord micro_floats
first =
    made_record micro_floats digest clock_text format10 first_creation 900000
      (creation_entry micro_floats first_creation)

first_created : create micro_floats digest clock_text format10 first_creation ≡ ok first
unfolding create made_record canonicalize_fields
first_created = refl

abbrev second_creation : Creation micro_floats
second_creation = record first_creation {
  provenance_id = codes "p2";
  prev_provenance_id = some (codes "p1");
  prev_hash = some first.record_hash;
}

abbrev second : ProvenanceRecord micro_floats
second =
    made_record micro_floats digest clock_text format10 second_creation 900000
      (creation_entry micro_floats second_creation)

second_created : create micro_floats digest clock_text format10 second_creation ≡ ok second
unfolding create made_record canonicalize_fields
second_created = refl

first_verified : verify_chain micro_floats digest clock_text format10 (first ∷ []) ≡ true
unfolding verify_chain made_record canonicalize_fields
first_verified = refl

verify_chain-create_example :
    verify_chain micro_floats digest clock_text format10 (first ∷ second ∷ []) ≡ true
verify_chain-create_example =
    verify_chain-create micro_floats digest clock_text format10 first second [] second_creation
      first_verified refl second_created

-- The histories of all records are emptied.
verify_chain-history_example :
    verify_chain micro_floats digest clock_text format10
      (map (with_history micro_floats digest clock_text format10 (λ r. [])) (first ∷ second ∷ []))
    ≡ verify_chain micro_floats digest clock_text format10 (first ∷ second ∷ [])
verify_chain-history_example =
    verify_chain-history micro_floats digest clock_text format10 (λ r. []) (first ∷ second ∷ [])

-- The fields that the canonical bytes tell apart, as a test.
abbrev is_text : Text → Bool
is_text [] = true
is_text (c ∷ s) = ltb c 1114112 && is_text s

abbrev are_fields : List Text → Bool
are_fields [] = true
are_fields (s ∷ ss) = is_text s && ltb (length (utf8 s)) 10000000000 && are_fields ss

is_text-IsText : (s : Text) → is_text s ≡ true → IsText s
is_text-IsText [] h = tt
is_text-IsText (c ∷ s) h = (ground arith, is_text-IsText s (ground arith))

are_fields-IsField : (ss : List Text) → are_fields ss ≡ true → All IsField ss
are_fields-IsField [] h = tt
are_fields-IsField (s ∷ ss) h =
    ((is_text-IsText s (ground arith), ground arith), are_fields-IsField ss (ground arith))

-- The same facts with another history.
abbrev edited : ProvenanceRecord micro_floats
edited = record second { update_history = [] }

lineage_fields :
    All
      (λ x. All IsField (fields_of micro_floats digest clock_text format10 x))
      (first ∷ second ∷ [])
unfolding made_record canonicalize_fields hashed_of hashed_fields utf8
lineage_fields = (
  are_fields-IsField (fields_of micro_floats digest clock_text format10 first) refl,
  (are_fields-IsField (fields_of micro_floats digest clock_text format10 second) refl, tt),
)

edited_fields :
    All
      (λ x. All IsField (fields_of micro_floats digest clock_text format10 x))
      (first ∷ edited ∷ [])
unfolding made_record canonicalize_fields hashed_of hashed_fields utf8
edited_fields = (
  are_fields-IsField (fields_of micro_floats digest clock_text format10 first) refl,
  (are_fields-IsField (fields_of micro_floats digest clock_text format10 edited) refl, tt),
)

lineage_verified : verify_chain micro_floats digest clock_text format10 (first ∷ second ∷ []) ≡ true
unfolding verify_chain made_record canonicalize_fields
lineage_verified = refl

edited_verified : verify_chain micro_floats digest clock_text format10 (first ∷ edited ∷ []) ≡ true
unfolding verify_chain made_record canonicalize_fields
edited_verified = refl

verify_chain-tamper_example :
    AllSame micro_floats digest clock_text format10 (first ∷ second ∷ []) (first ∷ edited ∷ [])
    ⊎ Collision micro_floats digest clock_text format10
verify_chain-tamper_example =
    verify_chain-tamper micro_floats digest clock_text format10 first first (second ∷ [])
      (edited ∷ []) refl lineage_verified edited_verified refl lineage_fields edited_fields

-- The order of the timestamps.
abbrev earlier : ProvenanceRecord micro_floats → ProvenanceRecord micro_floats → Bool
earlier r s = ltb r.write_timestamp s.write_timestamp

abbrev lineage_of : Journal micro_floats → Text → Text → Journal micro_floats
lineage_of j t i = sorted earlier (of_item micro_floats j t i)

lineage_of-IsLineage :
    (j : Journal micro_floats) (t i : Text) → IsLineage micro_floats j t i (lineage_of j t i)
lineage_of-IsLineage j t i = (
  sorted-perm earlier (of_item micro_floats j t i),
  sorted-IsAscending earlier (λ r. r.write_timestamp) (λ x y h. ground arith)
      (λ x y h. ground arith) (of_item micro_floats j t i),
)

-- A repository that refuses no record.
abbrev journals : ProvenanceRepository micro_floats
journals = record {
  append_record = λ j r. ok (j ++ r ∷ []);
  append_record-appends = λ j k r e. sym (ok-injective e);
  find_by_item_id = λ j t i. ok (lineage_of j t i);
  find_by_item_id-IsLineage = λ j found t i e.
      subst (IsLineage micro_floats j t i) (ok-injective e) (lineage_of-IsLineage j t i);
}

abbrev quoted : Text → Text
quoted s = codes "'" ++ s ++ codes "'"

-- A second fact of the item that names no predecessor.
abbrev rival : ProvenanceRecord micro_floats
rival = record first { provenance_id = codes "p3" }

abbrev sweep_world : SweepWorld
sweep_world = record { correction_id = codes "p4"; now = 9 }

abbrev after_first : Journal micro_floats
after_first =
    (append micro_floats digest clock_text format10 quoted journals [] first sweep_world).0

abbrev after_rival : Journal micro_floats
after_rival =
    (append micro_floats digest clock_text format10 quoted journals after_first rival sweep_world).0

-- The rival is appended as disputed, behind the correction of the first fact.
rival_run :
    map {B = Text × ConflictStatus} (λ r. (r.provenance_id, r.conflict_status)) after_rival
    ≡ (codes "p1", no_conflict) ∷ (codes "p4", disputed) ∷ (codes "p3", disputed) ∷ []
unfolding append made_record canonicalize_fields sorted
rival_run = refl
