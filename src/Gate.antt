-- ===== src/Gate.antt =====
-- The write-path gate: the canonical bytes and the attestations of
-- src/dashanan/domain/write_gate.py, the token bucket of src/dashanan/domain/write_rate_limiter.py
-- and the gate of src/dashanan/application/provenance_write_gate.py.
pub mod Canonical
pub mod Limiter
pub mod Attestation
pub mod Request
pub mod Submit
