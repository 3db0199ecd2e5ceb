-- ===== src/Gate/Submit/Audit.antt =====
-- What the journal of the gate of src/dashanan/application/provenance_write_gate.py records, also while
-- calls overlap.
use mathlib.Core.List.Perm
use dashanan.Prelude.{
  ℕ, ◌≡◌, Bool, true, false, none, some, List, [], ◌∷◌, ◌++◌, map, Text, All, lookup, is_blank,
  Perm,
}
use dashanan.Prelude.Floats.{Floats}
use dashanan.Gate.Attestation.{UserTurnAttestation, Claim, verify_user_turn_attestation}
use dashanan.Gate.Request.{user_stated, is_hex_sha256, ProvenanceJournalEntry}
use dashanan.Gate.Submit.{GateConfig, Gate, find_by_idempotency_key}
use dashanan.Gate.Submit.Replay.{is_key_of}
use dashanan.Gate.Submit.Threads.{Call, same_key, Threads}

abbrev has_key_of : ProvenanceJournalEntry → ProvenanceJournalEntry → Bool
has_key_of e d = is_key_of e.tenant_id e.idempotency_key d

-- No two entries have the same tenant and idempotency key.
abbrev pub HasUniqueKeys : List ProvenanceJournalEntry → Type 0
HasUniqueKeys [] = Unit
HasUniqueKeys (e ∷ es) =
    All (λ d. is_key_of d.tenant_id d.idempotency_key e ≡ false) es × HasUniqueKeys es

-- No two calls have the same key.
abbrev pub IsDistinct : List Call → Type 0
IsDistinct [] = Unit
IsDistinct (c ∷ cs) = All (λ d. same_key d.request c.request ≡ false) cs × IsDistinct cs

-- No entry of the journal has the key of the call.
abbrev pub IsNew : List ProvenanceJournalEntry → Call → Type 0
IsNew j c = find_by_idempotency_key j c.request.tenant_id c.request.idempotency_key ≡ none

module _ (f : Floats) (hmac : List ℕ → List ℕ → Text) (isoformat : ℕ → Text)
    (cfg : GateConfig f hmac isoformat) where
  -- The write that an entry records.
  abbrev pub claim_of_entry : ProvenanceJournalEntry → Claim
  claim_of_entry e = record {
    tenant_id = e.tenant_id;
    item_id = e.item_id;
    caller_identity = e.caller_identity;
    retrieval_context_hash = e.retrieval_context_hash;
  }

  -- A configured key verified an attestation for the write at some instant.
  abbrev pub WasAttested : ProvenanceJournalEntry → Type 0
  WasAttested e =
      (a : UserTurnAttestation) × (secret : List ℕ) × (now : ℕ) × (lookup a.key_id
          cfg.user_turn_signing_keys
        ≡ some secret)
      × (verify_user_turn_attestation hmac isoformat (some a) secret (claim_of_entry e) now ≡ true)

  pub record IsSoundEntry (e : ProvenanceJournalEntry) : Type 0 where
    pub named : is_blank e.caller_identity ≡ false
    pub hashed : is_hex_sha256 e.retrieval_context_hash ≡ true
    pub user_turn : e.source_type ≡ user_stated → (e.user_turn_marker ≡ true) × WasAttested e

  -- The persisted writes, those whose callback runs and those whose callback raised are the journaled
  -- ones, each once.
  abbrev pub IsCovered : List Text → List Text → List ProvenanceJournalEntry → Type 0
  IsCovered persisted running journal =
      (raised : List Text) × Perm (persisted ++ (running ++ raised)) (map (λ e. e.write_id) journal)

  pub record IsAudited (s : Threads f hmac isoformat) : Type 0 where
    pub unique : HasUniqueKeys s.gate.journal
    pub sound : All IsSoundEntry s.gate.journal
    pub covered : IsCovered s.gate.persisted s.running s.gate.journal
    pub locked : IsDistinct s.calls
    pub new_keys : All (IsNew s.gate.journal) s.calls

  abbrev pub fresh_gate : Gate f hmac isoformat
  fresh_gate = record { journal = []; rate_limit_buckets = []; persisted = [] }
