-- ===== src/Entity.antt =====
-- Zone 5: src/dashanan/infrastructure/entity_memory_repository.py, src/dashanan/domain/entity_record.py and
-- the trie of aliases in src/dashanan/domain/entity_alias_trie.py; and which facts it owns:
-- src/dashanan/domain/entity_ownership_specification.py.
pub mod Trie
pub mod Alias
pub mod Prefix
pub mod Refine
pub mod Record
pub mod Repository
pub mod Read
pub mod Tables
pub mod Invariant
pub mod Reach
pub mod Resolve
pub mod Erasure
pub mod Fetch
pub mod Ownership
pub mod Route
