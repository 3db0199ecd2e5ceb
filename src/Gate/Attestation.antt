-- ===== src/Gate/Attestation.antt =====
-- The user-turn attestations of src/dashanan/domain/write_gate.py. `hmac.new(…).hexdigest()` and
-- `datetime.isoformat` are parameters. A signature is a text of ASCII characters; on another one
-- `compare_digest` raises TypeError, which is left out.
use dashanan.Prelude.{
  ℕ, ◌-◌, ◌*◌, ◌≡◌, ◌≢◌, ◌⊎◌, inl, inr, Bool, Bool-cases, true, false, Option, none, some, List, [],
  ◌∷◌, arith, ltb, leb, if◌then◌else◌, Text, text_eq, text_eq_iff, text_eq_refl, All, sym, ◌∙◌,
}
use dashanan.Gate.Canonical.{canonicalize_fields, canonicalize_fields-injective, IsField}

pub record UserTurnAttestation : Type 0 where
  pub issued_at : ℕ
  pub signature : Text
  pub key_id : Text

-- The write that an attestation is for.
pub record Claim : Type 0 where
  pub tenant_id : Text
  pub item_id : Text
  pub caller_identity : Text
  pub retrieval_context_hash : Text

-- `_DEFAULT_USER_TURN_ATTESTATION_MAX_AGE_SECONDS`
abbrev pub max_age_seconds : ℕ
max_age_seconds = 300

module _ (hmac : List ℕ → List ℕ → Text) (isoformat : ℕ → Text) where
  abbrev pub message_fields : Claim → Text → ℕ → List Text
  message_fields c key_id issued_at =
      c.tenant_id
      ∷ c.item_id
      ∷ c.caller_identity
      ∷ c.retrieval_context_hash
      ∷ key_id
      ∷ isoformat issued_at
      ∷ []

  -- `_user_turn_attestation_message`
  unfoldable pub attestation_message : Claim → Text → ℕ → List ℕ
  attestation_message c key_id issued_at = canonicalize_fields (message_fields c key_id issued_at)

  unfoldable pub sign_user_turn_attestation : List ℕ → Claim → ℕ → Text → UserTurnAttestation
  unfolding attestation_message
  sign_user_turn_attestation secret c issued_at key_id = record {
    issued_at = issued_at;
    signature = hmac secret (attestation_message c key_id issued_at);
    key_id = key_id;
  }

  unfoldable pub verify_user_turn_attestation :
      Option UserTurnAttestation → List ℕ → Claim → ℕ → Bool
  unfolding sign_user_turn_attestation
  verify_user_turn_attestation none secret c now = false
  verify_user_turn_attestation (some a) secret c now =
      if ltb now a.issued_at
      then false
      else if ltb (max_age_seconds * 1000000) (now - a.issued_at)
      then false
      else text_eq (sign_user_turn_attestation secret c a.issued_at a.key_id).signature a.signature

  -- An attestation that was signed for a write verifies for that write under the same key from the
  -- instant of its issue on for 300 seconds, and neither before nor after.
  pub verify-sign :
      (secret : List ℕ) (c : Claim) (issued_at now : ℕ) (key_id : Text)
      → verify_user_turn_attestation
          (some (sign_user_turn_attestation secret c issued_at key_id))
          secret
          c
          now
        ≡ (if ltb now issued_at then false else leb (now - issued_at) 300000000)
  unfolding verify_user_turn_attestation
  verify-sign secret c issued_at now key_id =
      ground (arith, text_eq_refl (hmac secret (attestation_message c key_id issued_at)))

  module _ (iso-injective : (t u : ℕ) → isoformat t ≡ isoformat u → t ≡ u) where
    -- Two messages are the same bytes only for the same write, key and instant.
    attestation_message-injective :
        (c d : Claim) (j k : Text) (t u : ℕ)
        → All IsField (message_fields c j t)
        → All IsField (message_fields d k u)
        → attestation_message c j t ≡ attestation_message d k u
        → (c ≡ d) × (j ≡ k) × (t ≡ u)
    unfolding attestation_message
    attestation_message-injective c d j k t u hc hd e =
        let p =
          canonicalize_fields-injective (message_fields c j t) (message_fields d k u) hc hd e in
        let q : isoformat t ≡ isoformat u = cc in (ground arith, cc, iso-injective t u q)

    signed-eq :
        (a : UserTurnAttestation) (secret : List ℕ) (d : Claim) (now : ℕ)
        → verify_user_turn_attestation (some a) secret d now ≡ true
        → hmac secret (attestation_message d a.key_id a.issued_at) ≡ a.signature
    unfolding verify_user_turn_attestation
    signed-eq a secret d now v =
        (text_eq_iff (hmac secret (attestation_message d a.key_id a.issued_at)) a.signature).0
          (ground arith)

    -- If an attestation that carries the signature made for a write, a key and an instant is
    -- accepted for a write, then it is the same write with the same key and instant, or the two
    -- messages are different bytes with the same HMAC under the key. So a signature can be moved to
    -- another tenant, item, caller, context, key or instant only by a collision of HMAC.
    pub transplant-collides :
        (a : UserTurnAttestation) (secret : List ℕ) (c d : Claim) (t now : ℕ) (k : Text)
        → All IsField (message_fields c k t)
        → All IsField (message_fields d a.key_id a.issued_at)
        → a.signature ≡ hmac secret (attestation_message c k t)
        → verify_user_turn_attestation (some a) secret d now ≡ true
        → ((c ≡ d) × (k ≡ a.key_id) × (t ≡ a.issued_at))
          ⊎ ((attestation_message c k t ≢ attestation_message d a.key_id a.issued_at)
              × (hmac secret (attestation_message c k t)
                  ≡ hmac secret (attestation_message d a.key_id a.issued_at)))
    transplant-collides a secret c d t now k hc hd genuine v =
        let m = attestation_message c k t in
        let n = attestation_message d a.key_id a.issued_at in
        elim (Bool-cases (text_eq m n)) [
          | inl same ↦ inl (
              attestation_message-injective c d k a.key_id t a.issued_at hc hd
                ((text_eq_iff m n).0 same))
          | inr other ↦
              inr (
                λ e. ground (arith, text_eq_iff m n),
                sym genuine ∙ sym (signed-eq a secret d now v),
              )
        ]
