-- ===== src/Tests/Gate.antt =====
-- Runs of the write gate of src/dashanan/application/provenance_write_gate.py.
use dashanan.Prelude.{
  ℕ, ◌+◌, ◌-◌, ◌*◌, ◌≡◌, ◌≢◌, ◌≤◌, ◌⊎◌, refl, true, false, none, some, List, [], ◌∷◌, ◌++◌, arith,
  ltb, leb, if◌then◌else◌, Text, codes, All, ok, raise, foreign_error,
}
use dashanan.Prelude.Floats.{micro_floats, micro_unit}
use dashanan.Prelude.Utf8.{utf8}
use dashanan.Zone.{semantic}
use dashanan.Gate.Canonical.{canonicalize_fields-injective, IsField}
use dashanan.Gate.Limiter.{TokenBucketConfig, TokenBucketState, try_consume}
use dashanan.Gate.Limiter.Bounds.{attempts, attempts_bound, jitter, jitter_unbounded}
use dashanan.Gate.Attestation.{
  Claim, UserTurnAttestation, message_fields, attestation_message, sign_user_turn_attestation,
  verify_user_turn_attestation, verify-sign, transplant-collides,
}
use dashanan.Gate.Request.{
  WriteRequest, accepted, resolve_source_type, requires_user_turn_marker, is_hex_sha256,
}
use dashanan.Gate.Submit.{
  World, GateConfig, Gate, find_by_idempotency_key, submit_write, consume_rate_limit_token, admit,
}
use dashanan.Gate.Submit.Replay.{here, next, submit_write-replay, failed_persist_is_accepted_later}
use dashanan.Gate.Submit.Audit.{fresh_gate}
use dashanan.Gate.Submit.Threads
use dashanan.Gate.Submit.Threads.{before_callback, Threads}

-- A digest and a clock text for the runs; the key is appended to the message.
abbrev digest : List ℕ → List ℕ → Text
digest key message = message ++ key

abbrev clock_text : ℕ → Text
clock_text t = t ∷ []

abbrev gate_config : GateConfig micro_floats digest clock_text
gate_config = record {
  rate_limit_config = record { capacity = 5000000; refill_per_second = 1000000 };
  user_turn_signing_keys = (codes "k", 1 ∷ 2 ∷ []) ∷ [];
}

abbrev request : WriteRequest
request = record {
  tenant_id = codes "t";
  item_id = codes "i";
  source_zone = semantic;
  source_type_raw = some (codes "tool_output");
  caller_identity = codes "c";
  retrieval_context_hash = codes "0123456789abcdef0123456789abcdef0123456789abcdef0123456789abcdef";
  idempotency_key = codes "x";
  source_refs = [];
  user_turn_marker = false;
  user_turn_attestation = none;
}

abbrev fine : World
fine = record {
  bucket_now = 10;
  verify_now = 11;
  written_now = 12;
  write_id = codes "w";
  append_returns = true;
  persist_returns = true;
}

abbrev failing : World
failing = record fine { persist_returns = false }

abbrev empty_gate : Gate micro_floats digest clock_text
empty_gate = fresh_gate micro_floats digest clock_text gate_config

accepted_first :
    (submit_write micro_floats digest clock_text gate_config empty_gate request fine).1
    ≡ ok (accepted (codes "w") 12)
unfolding submit_write find_by_idempotency_key try_consume resolve_source_type
    requires_user_turn_marker is_hex_sha256
accepted_first = refl

submit_write-replay_example :
    submit_write micro_floats digest clock_text gate_config
      (submit_write micro_floats digest clock_text gate_config empty_gate request fine).0
      request
      failing
    ≡ (
      (submit_write micro_floats digest clock_text gate_config empty_gate request fine).0,
      ok (accepted (codes "w") 12),
    )
submit_write-replay_example =
    submit_write-replay micro_floats digest clock_text gate_config empty_gate
      (submit_write micro_floats digest clock_text gate_config empty_gate request fine).0 request
      fine failing (codes "w") 12 accepted_first here

-- The gate behind a call whose callback raised.
abbrev failed_gate : Gate micro_floats digest clock_text
failed_gate = (submit_write micro_floats digest clock_text gate_config empty_gate request failing).0

raised_first :
    (submit_write micro_floats digest clock_text gate_config empty_gate request failing).1
    ≡ raise foreign_error
unfolding submit_write find_by_idempotency_key try_consume resolve_source_type
    requires_user_turn_marker is_hex_sha256
raised_first = refl

journaled_first : failed_gate.journal ≢ empty_gate.journal
unfolding submit_write find_by_idempotency_key try_consume resolve_source_type
    requires_user_turn_marker is_hex_sha256
journaled_first e = ground (arith, e)

not_found :
    find_by_idempotency_key empty_gate.journal request.tenant_id request.idempotency_key ≡ none
unfolding find_by_idempotency_key
not_found = refl

-- A write of another key behind the failed one.
abbrev other_request : WriteRequest
other_request = record request { idempotency_key = codes "y" }

abbrev after_another : Gate micro_floats digest clock_text
after_another =
    (submit_write micro_floats digest clock_text gate_config failed_gate other_request fine).0

failed_persist_is_accepted_later_example :
    (failed_gate.persisted ≡ [])
    × (submit_write micro_floats digest clock_text gate_config after_another request fine
        ≡ (after_another, ok (accepted (codes "w") 12)))
failed_persist_is_accepted_later_example =
    failed_persist_is_accepted_later micro_floats digest clock_text gate_config empty_gate
      after_another request failing fine not_found raised_first journaled_first
      (next other_request fine here)

-- Two calls that overlap: the first one enters, the second one enters and journals, the first one
-- journals, and the callbacks return in the other order.
abbrev second_world : World
second_world = record fine { write_id = codes "v" }

abbrev tokens : Gate micro_floats digest clock_text → Gate micro_floats digest clock_text
tokens g = (consume_rate_limit_token micro_floats digest clock_text gate_config g (codes "t") 10).0

abbrev journaled :
    Gate micro_floats digest clock_text → WriteRequest → World → Gate micro_floats digest clock_text
journaled g r w =
    (admit micro_floats digest clock_text gate_config g r (resolve_source_type r.source_type_raw)
      (before_callback w)).0

abbrev both_journaled : Gate micro_floats digest clock_text
both_journaled =
    journaled (tokens (journaled (tokens empty_gate) other_request second_world)) request fine

abbrev overlapped : Threads micro_floats digest clock_text
overlapped = record {
  gate = record both_journaled { persisted = codes "w" ∷ codes "v" ∷ [] };
  calls = [];
  running = [];
}

abbrev write : Claim
write = record {
  tenant_id = codes "t";
  item_id = codes "i";
  caller_identity = codes "c";
  retrieval_context_hash = codes "h";
}

abbrev key : List ℕ
key = 1 ∷ 2 ∷ []

abbrev signed : UserTurnAttestation
signed = sign_user_turn_attestation digest clock_text key write 20 (codes "k")

verify-sign_example :
    verify_user_turn_attestation digest clock_text (some signed) key write 25
    ≡ (if ltb 25 20 then false else leb (25 - 20) 300000000)
verify-sign_example = verify-sign digest clock_text key write 20 25 (codes "k")

clock_text-injective : (t u : ℕ) → clock_text t ≡ clock_text u → t ≡ u
clock_text-injective t u e = ground (arith, e)

fields-IsField : All IsField (message_fields digest clock_text write (codes "k") 20)
unfolding utf8
fields-IsField = (
  ((omega arith, tt), omega arith),
  (
    ((omega arith, tt), omega arith),
    (
      ((omega arith, tt), omega arith),
      (
        ((omega arith, tt), omega arith),
        (((omega arith, tt), omega arith), (((omega arith, tt), omega arith), tt)),
      ),
    ),
  ),
)

signed_verifies : verify_user_turn_attestation digest clock_text (some signed) key write 25 ≡ true
signed_verifies = verify-sign digest clock_text key write 20 25 (codes "k")

abbrev message : List ℕ
message = attestation_message digest clock_text write (codes "k") 20

signed_fields : All IsField (message_fields digest clock_text write signed.key_id signed.issued_at)
unfolding sign_user_turn_attestation
signed_fields = fields-IsField

signed_signature : signed.signature ≡ digest key message
unfolding sign_user_turn_attestation
signed_signature = refl

transplant-collides_example :
    ((write ≡ write) × (codes "k" ≡ signed.key_id) × (20 ≡ signed.issued_at))
    ⊎ ((message ≢ attestation_message digest clock_text write signed.key_id signed.issued_at)
        × (digest key message
            ≡ digest key
                (attestation_message digest clock_text write signed.key_id signed.issued_at)))
transplant-collides_example =
    transplant-collides digest clock_text clock_text-injective signed key write write 20 25
      (codes "k") fields-IsField signed_fields signed_signature signed_verifies

canonicalize_fields-injective_example : codes "t" ∷ [] ≡ codes "t" ∷ []
unfolding utf8
canonicalize_fields-injective_example =
    canonicalize_fields-injective (codes "t" ∷ []) (codes "t" ∷ [])
      (((omega arith, tt), omega arith), tt) (((omega arith, tt), omega arith), tt) refl

abbrev limits : TokenBucketConfig micro_floats
limits = record { capacity = 2000000; refill_per_second = 1000000 }

abbrev bucket : TokenBucketState micro_floats
bucket = record { tokens = 1000000; last_refilled_at = 3000000 }

abbrev instants : List ℕ
instants = 3000000 ∷ 4500000 ∷ 4500001 ∷ []

attempts_bound_example :
    let after = attempts micro_floats limits bucket instants in
    (micro_unit * micro_unit * after.1 + micro_unit * after.0.tokens + 3000000 * 1000000
      ≤ micro_unit * 1000000 + after.0.last_refilled_at * 1000000)
    × (after.0.tokens ≤ 2000000)
    × (micro_unit * micro_unit * after.1 + 3000000 * 1000000
        ≤ micro_unit * 2000000 + after.0.last_refilled_at * 1000000)
attempts_bound_example =
    attempts_bound limits bucket instants (omega arith)
      (omega arith, (omega arith, (omega arith, tt)))

jitter_unbounded_example :
    (attempts micro_floats limits bucket (jitter limits 5 3000000 1000000)).1 ≡ 2 * 5
jitter_unbounded_example =
    jitter_unbounded limits 5 3000000 1000000 bucket (omega arith) (omega arith) (omega arith) refl
      (omega arith) (omega arith)
