-- ===== src/Context.antt =====
-- The assembly of a context: src/dashanan/application/memory_orchestrator.py (Orchestrator),
-- context_assembly_builder.py (Builder, Fill) and src/dashanan/domain/tenant_credential.py
-- (Credential).
pub mod Builder
pub mod Fill
pub mod Credential
pub mod Orchestrator
pub mod Assembly
pub mod Served
