-- ===== src/Provenance/Record.antt =====
-- `ProvenanceRecord` of src/dashanan/domain/provenance_record.py, its construction and `verify_chain`.
use dashanan.Prelude.{
  ℕ, Bool, true, false, ◌&&◌, not, Option, none, some, List, [], ◌∷◌, if◌then◌else◌, Text, text_eq,
  is_blank, Result, ok, raise, value_error, ◌>>=◌,
}
use dashanan.Prelude.Floats.{Floats}
use dashanan.Zone.{ZoneId}
use dashanan.Gate.Request.{SourceType, is_hex_sha256}
use dashanan.Provenance.Hash.{ConflictStatus, compute_confidence, Hashed, compute_record_hash}

pub record ProvenanceUpdateEntry : Type 0 where
  pub ts : ℕ
  pub actor : Text
  pub change : Text
  pub prev_provenance_id : Option Text

-- `ProvenanceUpdateEntry.__post_init__`
unfoldable pub check_entry : ProvenanceUpdateEntry → Result ProvenanceUpdateEntry
unfolding is_blank
check_entry e =
    if is_blank e.actor
    then raise value_error
    else if is_blank e.change
    then raise value_error
    else ok e

-- `a == b` for two `str | None`.
unfoldable pub same_option : Option Text → Option Text → Bool
unfolding text_eq
same_option none none = true
same_option (some a) (some b) = text_eq a b
same_option none (some b) = false
same_option (some a) none = false

-- `_require_hex_sha256` fails for a hash that is there.
unfoldable pub is_bad_hash : Option Text → Bool
unfolding is_hex_sha256
is_bad_hash none = false
is_bad_hash (some h) = not (is_hex_sha256 h)

module _ (f : Floats) where
  open f use {Float, le, of_int}

  pub record ProvenanceRecord : Type 0 where
    pub tenant_id : Text
    pub provenance_id : Text
    pub item_id : Text
    pub source_zone : ZoneId
    pub source_type : SourceType
    pub source_refs : List Text
    pub write_timestamp : ℕ
    pub update_history : List ProvenanceUpdateEntry
    pub retrieval_context_hash : Text
    pub conflict_status : ConflictStatus
    pub invalidation_flag : Bool
    pub confidence : Float
    pub prev_hash : Option Text
    pub record_hash : Text

  unfoldable pub has_no_history : List ProvenanceUpdateEntry → Bool
  has_no_history [] = true
  has_no_history (e ∷ es) = false

  -- `ProvenanceRecord.__post_init__`
  unfoldable pub check_record : ProvenanceRecord → Result ProvenanceRecord
  unfolding is_blank is_hex_sha256 is_bad_hash has_no_history
  check_record r =
      if is_blank r.tenant_id
      then raise value_error
      else if is_blank r.provenance_id
      then raise value_error
      else if is_blank r.item_id
      then raise value_error
      else if not (le (of_int 0) r.confidence && le r.confidence (of_int 1))
      then raise value_error
      else if has_no_history r.update_history
      then raise value_error
      else if not (is_hex_sha256 r.record_hash)
      then raise value_error
      else if is_bad_hash r.prev_hash
      then raise value_error
      else if not (is_hex_sha256 r.retrieval_context_hash)
      then raise value_error
      else ok r

  -- The keyword arguments of `create`.
  pub record Creation : Type 0 where
    pub tenant_id : Text
    pub provenance_id : Text
    pub item_id : Text
    pub source_zone : ZoneId
    pub source_type : SourceType
    pub write_timestamp : ℕ
    pub actor : Text
    pub change : Text
    pub retrieval_context_hash : Text
    pub source_refs : List Text
    pub prev_provenance_id : Option Text
    pub prev_hash : Option Text
    pub conflict_status : ConflictStatus
    pub invalidation_flag : Bool
    pub failed_faithfulness_check : Bool
    pub compression_generation : ℕ
    pub source_confidences : Option (List Float)

  -- The one entry of the history.
  abbrev pub creation_entry : Creation → ProvenanceUpdateEntry
  creation_entry c = record {
    ts = c.write_timestamp;
    actor = c.actor;
    change = c.change;
    prev_provenance_id = c.prev_provenance_id;
  }

  unfoldable pub hashed_of : ProvenanceRecord → Hashed f
  hashed_of r = record {
    tenant_id = r.tenant_id;
    provenance_id = r.provenance_id;
    item_id = r.item_id;
    source_zone = r.source_zone;
    source_type = r.source_type;
    source_refs = r.source_refs;
    write_timestamp = r.write_timestamp;
    retrieval_context_hash = r.retrieval_context_hash;
    conflict_status = r.conflict_status;
    invalidation_flag = r.invalidation_flag;
    confidence = r.confidence;
    prev_hash = r.prev_hash;
  }

  module _ (sha256 : List ℕ → Text) (isoformat : ℕ → Text) (format10 : Float → Text) where
    -- The record that `create` makes once the confidence and the entry are there.
    unfoldable pub made_record : Creation → Float → ProvenanceUpdateEntry → ProvenanceRecord
    unfolding compute_record_hash
    made_record c confidence entry = record {
      tenant_id = c.tenant_id;
      provenance_id = c.provenance_id;
      item_id = c.item_id;
      source_zone = c.source_zone;
      source_type = c.source_type;
      source_refs = c.source_refs;
      write_timestamp = c.write_timestamp;
      update_history = entry ∷ [];
      retrieval_context_hash = c.retrieval_context_hash;
      conflict_status = c.conflict_status;
      invalidation_flag = c.invalidation_flag;
      confidence = confidence;
      prev_hash = c.prev_hash;
      record_hash = compute_record_hash f sha256 isoformat format10 (record {
        tenant_id = c.tenant_id;
        provenance_id = c.provenance_id;
        item_id = c.item_id;
        source_zone = c.source_zone;
        source_type = c.source_type;
        source_refs = c.source_refs;
        write_timestamp = c.write_timestamp;
        retrieval_context_hash = c.retrieval_context_hash;
        conflict_status = c.conflict_status;
        invalidation_flag = c.invalidation_flag;
        confidence = confidence;
        prev_hash = c.prev_hash;
      });
    }

    -- `ProvenanceRecord.create`
    unfoldable pub create : Creation → Result ProvenanceRecord
    unfolding compute_confidence check_entry made_record check_record
    create c = do
      confidence ←
          compute_confidence f c.source_type c.conflict_status c.failed_faithfulness_check
            c.compression_generation c.source_confidences
      entry ← check_entry (creation_entry c)
      check_record (made_record c confidence entry)

    unfoldable pub is_hash_of : ProvenanceRecord → Bool
    unfolding compute_record_hash hashed_of text_eq
    is_hash_of r =
        text_eq (compute_record_hash f sha256 isoformat format10 (hashed_of r)) r.record_hash

    -- The loop of `verify_chain` from an expected `prev_hash` on.
    unfoldable pub verify_from : Option Text → List ProvenanceRecord → Bool
    unfolding same_option is_hash_of
    verify_from expected [] = true
    verify_from expected (r ∷ rs) =
        let rest = verify_from (some r.record_hash) rs in
        if not (same_option r.prev_hash expected)
        then false
        else if not (is_hash_of r)
        then false
        else rest

    unfoldable pub verify_chain : List ProvenanceRecord → Bool
    unfolding verify_from
    verify_chain [] = true
    verify_chain (r ∷ rs) = verify_from r.prev_hash (r ∷ rs)
