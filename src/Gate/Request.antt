-- ===== src/Gate/Request.antt =====
-- The requests, results and journal entries of src/dashanan/domain/write_gate.py.
use dashanan.Prelude.{
  ℕ, ◌≡◌, Bool, true, false, ◌&&◌, ◌||◌, Option, none, some, List, [], ◌∷◌, arith, leb, ◌==◌,
  if◌then◌else◌, Text, codes, text_eq, is_blank, length, Result, ok, raise, value_error,
}
use dashanan.Zone.{ZoneId}
use dashanan.Gate.Attestation.{UserTurnAttestation, Claim}

-- src/dashanan/domain/provenance_record.py
pub data SourceType : Type 0 where
  user_stated tool_output llm_inferred summarized_from_n imported system_derived : SourceType

unfoldable pub same_source : SourceType → SourceType → Bool
same_source user_stated user_stated = true
same_source tool_output tool_output = true
same_source llm_inferred llm_inferred = true
same_source summarized_from_n summarized_from_n = true
same_source imported imported = true
same_source system_derived system_derived = true
same_source _ _ = false

pub same_source→eq : (a b : SourceType) → same_source a b ≡ true → a ≡ b
unfolding same_source
same_source→eq a b h = ground arith

pub same_source_refl : (a : SourceType) → same_source a a ≡ true
unfolding same_source
same_source_refl a = ground arith

-- `SourceType(raw)`: the member with the value, if there is one.
unfoldable pub source_type_of_value : Text → Option SourceType
unfolding text_eq
source_type_of_value raw =
    if text_eq raw (codes "user_stated")
    then some user_stated
    else if text_eq raw (codes "tool_output")
    then some tool_output
    else if text_eq raw (codes "llm_inferred")
    then some llm_inferred
    else if text_eq raw (codes "summarized_from_n")
    then some summarized_from_n
    else if text_eq raw (codes "imported")
    then some imported
    else if text_eq raw (codes "system_derived")
    then some system_derived
    else none

-- `none` stands for a value that is no `str`.
unfoldable pub resolve_source_type : Option Text → Option SourceType
unfolding is_blank source_type_of_value
resolve_source_type none = none
resolve_source_type (some raw) = if is_blank raw then none else source_type_of_value raw

unfoldable pub requires_user_turn_marker : SourceType → Bool
unfolding same_source
requires_user_turn_marker t = same_source t user_stated

unfoldable pub all_hex : Text → Bool
all_hex [] = true
all_hex (c ∷ s) = ((leb b'0' c && leb c b'9') || (leb b'a' c && leb c b'f')) && all_hex s

unfoldable pub is_hex_sha256 : Text → Bool
unfolding all_hex
is_hex_sha256 value = (length value == 64) && all_hex value

pub record WriteRequest : Type 0 where
  pub tenant_id : Text
  pub item_id : Text
  pub source_zone : ZoneId
  pub source_type_raw : Option Text
  pub caller_identity : Text
  pub retrieval_context_hash : Text
  pub idempotency_key : Text
  pub source_refs : List Text
  pub user_turn_marker : Bool
  pub user_turn_attestation : Option UserTurnAttestation

-- `WriteRequest.__post_init__`
unfoldable pub check_request : WriteRequest → Result WriteRequest
unfolding is_blank
check_request r =
    if is_blank r.tenant_id
    then raise value_error
    else if is_blank r.item_id
    then raise value_error
    else if is_blank r.idempotency_key
    then raise value_error
    else ok r

abbrev pub claim_of : WriteRequest → Claim
claim_of r = record {
  tenant_id = r.tenant_id;
  item_id = r.item_id;
  caller_identity = r.caller_identity;
  retrieval_context_hash = r.retrieval_context_hash;
}

pub record ProvenanceJournalEntry : Type 0 where
  pub tenant_id : Text
  pub write_id : Text
  pub item_id : Text
  pub source_zone : ZoneId
  pub source_type : SourceType
  pub source_refs : List Text
  pub caller_identity : Text
  pub retrieval_context_hash : Text
  pub idempotency_key : Text
  pub user_turn_marker : Bool
  pub written_at : ℕ

pub data ErrorCode : Type 0 where
  unresolvable_source_type missing_user_turn_marker forged_user_turn_marker : ErrorCode
  missing_caller_binding idempotency_key_reused rate_limit_exceeded : ErrorCode

-- `WriteGateResult`: the write id and the instant, or the HTTP status and the error code.
pub data WriteGateResult : Type 0 where
  accepted : Text → ℕ → WriteGateResult
  rejected : ℕ → ErrorCode → WriteGateResult
