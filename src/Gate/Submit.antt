-- ===== src/Gate/Submit.antt =====
-- src/dashanan/application/provenance_write_gate.py. The journal is the list of its entries in the
-- order of their appends, behind `ProvenanceJournalPort`; `submit_write` is one step
-- here; Threads takes it apart for calls of different keys, whose locks do not exclude each other. What the clock, `uuid4`, the journal and the callback do in one call is
-- the record `World`.
pub mod Cases
pub mod Replay
pub mod Threads
pub mod Audit
use dashanan.Prelude.{
  ℕ, ◌≡◌, Bool, true, false, ◌&&◌, ◌||◌, not, Option, none, some, List, [], ◌∷◌, ◌++◌,
  if◌then◌else◌, Text, text_eq, is_blank, Dict, lookup, insert, Result, ok, raise, foreign_error,
}
use dashanan.Prelude.Floats.{Floats}
use dashanan.Zone.{same_zone}
use dashanan.Gate.Limiter.{TokenBucketConfig, TokenBucketState, new_full_bucket, try_consume}
use dashanan.Gate.Attestation.{UserTurnAttestation, verify_user_turn_attestation}
use dashanan.Gate.Request.{
  SourceType, same_source, resolve_source_type, requires_user_turn_marker, is_hex_sha256,
  WriteRequest, claim_of, ProvenanceJournalEntry, WriteGateResult, accepted, rejected,
  unresolvable_source_type, missing_user_turn_marker, forged_user_turn_marker,
  missing_caller_binding, idempotency_key_reused, rate_limit_exceeded,
}

-- `find_by_idempotency_key`
unfoldable pub find_by_idempotency_key :
    List ProvenanceJournalEntry → Text → Text → Option ProvenanceJournalEntry
unfolding text_eq
find_by_idempotency_key [] tenant_id key = none
find_by_idempotency_key (e ∷ es) tenant_id key =
    if text_eq e.tenant_id tenant_id && text_eq e.idempotency_key key
    then some e
    else find_by_idempotency_key es tenant_id key

unfoldable pub same_refs : List Text → List Text → Bool
unfolding text_eq
same_refs [] [] = true
same_refs (a ∷ as_) (b ∷ bs) = text_eq a b && same_refs as_ bs
same_refs [] (b ∷ bs) = false
same_refs (a ∷ as_) [] = false

unfoldable pub same_bool : Bool → Bool → Bool
same_bool true b = b
same_bool false b = not b

-- `replayed.source_type == resolve_source_type(…)`
unfoldable pub resolves_to : SourceType → Option SourceType → Bool
unfolding same_source
resolves_to t none = false
resolves_to t (some s) = same_source t s

unfoldable pub is_verbatim_replay : WriteRequest → ProvenanceJournalEntry → Bool
unfolding same_refs same_bool resolves_to same_zone text_eq
is_verbatim_replay request replayed =
    text_eq replayed.item_id request.item_id
    && same_zone replayed.source_zone request.source_zone
    && resolves_to replayed.source_type (resolve_source_type request.source_type_raw)
    && same_refs replayed.source_refs request.source_refs
    && text_eq replayed.caller_identity request.caller_identity
    && text_eq replayed.retrieval_context_hash request.retrieval_context_hash
    && same_bool replayed.user_turn_marker request.user_turn_marker

-- What one call meets: the readings of the clock for the bucket, the attestation and the entry, the
-- `uuid4`, and whether the journal's append and the callback return.
pub record World : Type 0 where
  pub bucket_now : ℕ
  pub verify_now : ℕ
  pub written_now : ℕ
  pub write_id : Text
  pub append_returns : Bool
  pub persist_returns : Bool

module _ (f : Floats) (hmac : List ℕ → List ℕ → Text) (isoformat : ℕ → Text) where
  -- The parts of the gate that the constructor sets.
  pub record GateConfig : Type 0 where
    pub rate_limit_config : TokenBucketConfig f
    pub user_turn_signing_keys : Dict (List ℕ)

  -- The state, with the journal behind it; `persisted` holds the write ids whose callback returned.
  pub record Gate : Type 0 where
    pub journal : List ProvenanceJournalEntry
    pub rate_limit_buckets : Dict (TokenBucketState f)
    pub persisted : List Text

  module _ (cfg : GateConfig) where
    open cfg use {rate_limit_config, user_turn_signing_keys}

    -- `_consume_rate_limit_token`
    unfoldable pub consume_rate_limit_token : Gate → Text → ℕ → Gate × Bool
    unfolding new_full_bucket lookup insert
    consume_rate_limit_token g tenant_id now =
        let state = elim (lookup tenant_id g.rate_limit_buckets) as (λ _. TokenBucketState f) [
          | none ↦ new_full_bucket f rate_limit_config now
          | some s ↦ s
        ] in
        let consumed = try_consume f state rate_limit_config now (f.of_int 1) in
        (
          record g { rate_limit_buckets = insert tenant_id consumed.0 g.rate_limit_buckets },
          consumed.1,
        )

    -- `_resolve_user_turn_signing_key`, and the verification under the key that it finds.
    unfoldable pub is_attested : WriteRequest → ℕ → Bool
    unfolding lookup
    is_attested request now = elim request.user_turn_attestation [
      | none ↦ false
      | some a ↦ elim (lookup a.key_id user_turn_signing_keys) [
        | none ↦ false
        | some secret ↦
            verify_user_turn_attestation hmac isoformat (some a) secret (claim_of request) now
      ]
    ]

    abbrev pub entry_of : WriteRequest → SourceType → World → ProvenanceJournalEntry
    entry_of request source_type w = record {
      tenant_id = request.tenant_id;
      write_id = w.write_id;
      item_id = request.item_id;
      source_zone = request.source_zone;
      source_type = source_type;
      source_refs = request.source_refs;
      caller_identity = request.caller_identity;
      retrieval_context_hash = request.retrieval_context_hash;
      idempotency_key = request.idempotency_key;
      user_turn_marker = request.user_turn_marker;
      written_at = w.written_now;
    }

    -- From the making of the entry on.
    unfoldable pub journal_and_persist :
        Gate → WriteRequest → SourceType → World → Gate × Result WriteGateResult
    journal_and_persist g request source_type w =
        let journaled = record g { journal = g.journal ++ entry_of request source_type w ∷ [] } in
        if w.append_returns
        then (if w.persist_returns
            then (
              record journaled { persisted = g.persisted ++ w.write_id ∷ [] },
              ok (accepted w.write_id w.written_now),
            )
            else (journaled, raise foreign_error))
        else (g, raise foreign_error)

    -- The guards behind the rate limit.
    unfoldable pub admit :
        Gate → WriteRequest → Option SourceType → World → Gate × Result WriteGateResult
    unfolding journal_and_persist is_attested is_blank
    admit g request none w = (g, ok (rejected 422 unresolvable_source_type))
    admit g request (some source_type) w =
        if requires_user_turn_marker source_type && not request.user_turn_marker
        then (g, ok (rejected 422 missing_user_turn_marker))
        else if requires_user_turn_marker source_type && not (is_attested request w.verify_now)
        then (g, ok (rejected 422 forged_user_turn_marker))
        else if is_blank request.caller_identity
            || not (is_hex_sha256 request.retrieval_context_hash)
        then (g, ok (rejected 422 missing_caller_binding))
        else journal_and_persist g request source_type w

    -- `submit_write`
    unfoldable pub submit_write : Gate → WriteRequest → World → Gate × Result WriteGateResult
    unfolding admit consume_rate_limit_token is_verbatim_replay
    submit_write g request w =
        elim (find_by_idempotency_key g.journal request.tenant_id request.idempotency_key) [
          | some replayed ↦
              if is_verbatim_replay request replayed
              then (g, ok (accepted replayed.write_id replayed.written_at))
              else (g, ok (rejected 422 idempotency_key_reused))
          | none ↦
              let limited = consume_rate_limit_token g request.tenant_id w.bucket_now in
              if limited.1
              then admit limited.0 request (resolve_source_type request.source_type_raw) w
              else (limited.0, ok (rejected 429 rate_limit_exceeded))
        ]
