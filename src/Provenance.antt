-- ===== src/Provenance.antt =====
-- Zone 7: src/dashanan/domain/provenance_record.py (Record, Hash, Chain),
-- src/dashanan/domain/conflict_detection.py and src/dashanan/application/conflict_detection_sweep.py
-- (Conflict, Sweep).
pub mod Record
pub mod Hash
pub mod Chain
pub mod Growth
pub mod Conflict
pub mod Sweep
