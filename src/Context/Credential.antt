-- ===== src/Context/Credential.antt =====
-- src/dashanan/domain/tenant_credential.py, whose `_canonicalize_fields` is the one of write_gate.py.
-- `hmac.new(…).hexdigest()` and `datetime.isoformat` are parameters. Instants are microseconds.
use dashanan.Prelude.{
  ℕ, ◌-◌, ◌*◌, Bool, true, false, ◌&&◌, Option, none, some, List, [], ◌∷◌, ltb, if◌then◌else◌, Text,
  text_eq, Result, ok, raise, foreign_error,
}
use dashanan.Gate.Canonical.{canonicalize_fields}

pub record TenantCredential : Type 0 where
  pub issued_at : ℕ
  pub signature : Text

-- `_DEFAULT_TENANT_CREDENTIAL_MAX_AGE_SECONDS`
abbrev pub max_age_seconds : ℕ
max_age_seconds = 300

-- `str.isascii`
unfoldable pub is_ascii : Text → Bool
is_ascii [] = true
is_ascii (c ∷ s) = let rest = is_ascii s in ltb c 128 && rest

-- `hmac.compare_digest` of two `str`, which raises TypeError if one of them is not ASCII.
unfoldable pub compare_digest : Text → Text → Result Bool
unfolding is_ascii text_eq
compare_digest a b = if is_ascii a && is_ascii b then ok (text_eq a b) else raise foreign_error

module _ (hmac : List ℕ → List ℕ → Text) (isoformat : ℕ → Text) where
  -- `_tenant_credential_message`
  unfoldable pub tenant_credential_message : Text → ℕ → List ℕ
  tenant_credential_message tenant_id issued_at =
      canonicalize_fields (tenant_id ∷ isoformat issued_at ∷ [])

  unfoldable pub sign_tenant_credential : List ℕ → Text → ℕ → TenantCredential
  unfolding tenant_credential_message
  sign_tenant_credential secret tenant_id issued_at = record {
    issued_at = issued_at;
    signature = hmac secret (tenant_credential_message tenant_id issued_at);
  }

  unfoldable pub verify_tenant_credential :
      Option TenantCredential → List ℕ → Text → ℕ → Result Bool
  unfolding sign_tenant_credential compare_digest
  verify_tenant_credential none secret tenant_id now = ok false
  verify_tenant_credential (some c) secret tenant_id now =
      if ltb now c.issued_at
      then ok false
      else if ltb (max_age_seconds * 1000000) (now - c.issued_at)
      then ok false
      else compare_digest (sign_tenant_credential secret tenant_id c.issued_at).signature
          c.signature
