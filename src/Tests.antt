-- ===== src/Tests.antt =====
-- Runs of the model at concrete inputs, and each result with hypotheses at an input that meets them.
pub mod Rotation
pub mod Breaker
pub mod Gate
pub mod Provenance
pub mod Entity
pub mod Score
pub mod Working
pub mod Context
pub mod Backstop
