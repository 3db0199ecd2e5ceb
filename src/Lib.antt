-- ===== src/Lib.antt =====
-- Dashanan keeps the memory of an agent in eight zones. A host writes through a gate that records the
-- provenance of each write, reads through an orchestrator that assembles a context from the zones
-- within a budget of tokens, and a rotation compresses items whose score has decayed.
--
-- The parts and their files:
--   Gate       the write gate: src/dashanan/application/provenance_write_gate.py (Gate/Submit) with
--              src/dashanan/domain/write_gate.py (Gate/Request, Gate/Canonical, Gate/Attestation) and
--              write_rate_limiter.py (Gate/Limiter). A call of `submit_write` is a step
--              from a `Gate` to a `Gate`; what the clock, the journal and the callback do in it is a
--              `World`. Submit/Replay has calls one after another. A call holds only the lock of its
--              idempotency key: Submit/Threads has calls of different keys that overlap, each taken apart
--              at its lookup, its token, its journaling and its callback, and Submit/Audit is about them.
--   Provenance src/dashanan/domain/provenance_record.py: confidence and hashes (Hash), construction and
--              `verify_chain` (Record), what a verified lineage is worth (Chain, Growth);
--              conflict_detection.py and src/dashanan/application/conflict_detection_sweep.py
--              (Conflict, Sweep), a decorator of the journal, which is an interface of an append and a find.
--   Rotation   src/dashanan/domain/rotation_state.py (State), rotation_timer_wheel.py (Wheel),
--              rotation_deadline.py and rotation_zone_policy.py (Deadline), and
--              src/dashanan/application/rotation_engine.py (Engine), which drives the other three:
--              `schedule_or_pin` puts a computed deadline on the wheel of its zone, `run_sweep` pops
--              the due items and passes each through the transition guard to the port.
--   Context    src/dashanan/application/memory_orchestrator.py (Orchestrator),
--              context_assembly_builder.py (Builder, Fill) and src/dashanan/domain/tenant_credential.py
--              (Credential). Assembly and Served are about whole calls of `assemble_context`.
--   Working    Zone 1: src/dashanan/infrastructure/working_memory_lru_repository.py and
--              src/dashanan/domain/working_item.py; one of the repositories behind the orchestrator.
--   Entity     Zone 5: src/dashanan/domain/entity_alias_trie.py (Trie, with Alias, Prefix and Refine on the
--              set of pairs it stands for), entity_record.py (Record) and
--              src/dashanan/infrastructure/entity_memory_repository.py (Repository, Read). Tables, Invariant
--              and Reach are about its state, Resolve, Erasure and Fetch about its reads. Ownership and Route:
--              entity_ownership_specification.py and semantic_memory.py, which facts Zone 5 owns.
--   Backstop   src/dashanan/domain/zone2_capacity_backstop.py: which items of Zone 2 a sweep evicts, and
--              src/dashanan/application/zone2_capacity_backstop_sweep.py, which does it (Sweep, with
--              Account and Swept on its runs).
--   Score      src/dashanan/domain/memory_score.py and src/dashanan/application/memory_score_engine.py.
--   Item, Zone src/dashanan/domain/memory_item.py and zone.py.
--   Breaker    src/dashanan/infrastructure/circuit_breaker.py, in front of the database.
--   Prelude    shared names, Python's exceptions as a `Result`, texts as lists of code points, `dict`
--              as an association list, sorting, UTF-8, and `Floats`.
--   Tests      runs at concrete inputs.
--
-- Instants are natural numbers of microseconds. A `float` is a value of a record `Floats` of
-- operations, of which only laws of the order and the monotony of a sum are assumed; `float(n)` does not
-- raise there. `micro_floats` is an instance of `Floats`, the fixed-point numbers in which the bounds of
-- the rate limiter are stated. HMAC, SHA-256, `isoformat`, `uuid4`, the clock, the addition of a
-- `timedelta`, the repositories, the ports and the event bus are parameters. Each loop is a recursion on
-- its list, and no definition takes fuel but `decimal` of Gate/Canonical, whose fuel,
-- the number and the width together, is never less than the number of its digits. `fetch` of Working and
-- `fetch` of Entity/Read are one step with one reading of the clock, where the source takes the lock anew
-- for each session or entity. A lookup in the journal of the gate does not raise in the model.
--
-- Not modelled: logging; the tables of locks, since a method under its lock is one step, but for
-- the gate, where Submit/Threads states what the lock of a key excludes; the SQL
-- adapters, whose behaviour is that of statements on a server; the HTTP interface and the composition
-- of objects; and the parts of the domain that this library does not reach yet: the backstop of Zone 4,
-- the retrieval index, the episodic and procedural zones and the stores of the semantic one, archive and erasure. In
-- Gate/Attestation a signature is a text of ASCII characters; on another one `hmac.compare_digest`
-- raises, a case that Context/Credential has.
pub mod Prelude
pub mod Zone
pub mod Item
pub mod Rotation
pub mod Gate
pub mod Provenance
pub mod Working
pub mod Context
pub mod Breaker
pub mod Backstop
pub mod Entity
pub mod Score
pub mod Tests
