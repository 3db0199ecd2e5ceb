-- ===== src/Context/Served.antt =====
-- Whole calls of `MemoryOrchestrator.assemble_context` in
-- src/dashanan/application/memory_orchestrator.py.
use dashanan.Prelude.{
  ℕ, ◌≡◌, ◌≤◌, ◌+◌, refl, true, false, not, Option, Option-cases, ◌⊎◌, none, some, List, [], ◌∷◌,
  arith, All, inl, inr, Text, text_eq, text_eq_iff, Result-cases, ok, raise, Error,
}
use dashanan.Prelude.Floats.{Floats}
use dashanan.Zone.{ZoneId}
use dashanan.Context.Builder.{
  has_zone, is_empty, ContextAssemblyBuilder, AssemblyResult, build, greedy_knapsack_fill,
  total_tokens,
}
use dashanan.Context.Fill.{greedy_knapsack_fill-IsGreedy}
use dashanan.Context.Credential.{
  TenantCredential, verify_tenant_credential, tenant_credential_message, compare_digest,
  sign_tenant_credential,
}
use dashanan.Context.Orchestrator.{
  target_zones, ContextAssemblyRequest, ZoneQuery, zone_query, Fetched, fetch_zones,
  verify_credential, publish_assembled, start_builder, assemble_context, assembled_event,
  AssembledEvent,
}
use dashanan.Context.Assembly.{
  is_contained, gathered, unavailable, registered, fetch_zones_lem, target_zones-IsDistinct,
}

unseen : (zones : List ZoneId) → All (λ y. has_zone y [] ≡ false) zones
unfolding has_zone
unseen [] = tt
unseen (z ∷ zones) = (refl, unseen zones)

-- In its 300 seconds, and signed for the tenant.
abbrev pub IsGenuine :
    (List ℕ → List ℕ → Text) → (ℕ → Text) → List ℕ → Text → ℕ → TenantCredential → Type 0
IsGenuine hmac isoformat key tenant_id now c =
    (c.issued_at ≤ now)
    × (now ≤ c.issued_at + 300000000)
    × (hmac key (tenant_credential_message hmac isoformat tenant_id c.issued_at) ≡ c.signature)

compare_digest-true : (a b : Text) → compare_digest a b ≡ ok true → a ≡ b
unfolding compare_digest
compare_digest-true a b e = ground (arith, text_eq_iff a b)

verify_tenant_credential-IsGenuine :
    (hmac : List ℕ → List ℕ → Text) (isoformat : ℕ → Text) (o : Option TenantCredential)
    (key : List ℕ) (tenant_id : Text) (now : ℕ)
    → verify_tenant_credential hmac isoformat o key tenant_id now ≡ ok true
    → (c : TenantCredential) × (o ≡ some c) × IsGenuine hmac isoformat key tenant_id now c
unfolding verify_tenant_credential sign_tenant_credential
verify_tenant_credential-IsGenuine hmac isoformat none key tenant_id now e = ground arith
verify_tenant_credential-IsGenuine hmac isoformat (some c) key tenant_id now e = (
  c,
  refl,
  (
    ground arith,
    ground arith,
    compare_digest-true (hmac key (tenant_credential_message hmac isoformat tenant_id c.issued_at))
        c.signature (ground arith),
  ),
)

module _ (f : Floats) where
  -- The builder behind the loop.
  abbrev pub gathered_builder :
      (ZoneId → Option (ZoneQuery f → Fetched f))
      → ContextAssemblyRequest f
      → Text
      → Text
      → ContextAssemblyBuilder f
  gathered_builder repositories r assembly_id trace_id = record {
    candidates = gathered f repositories (zone_query f r) (target_zones r.zones);
    zones_unavailable = unavailable f repositories (zone_query f r) (target_zones r.zones);
    token_budget = r.token_budget;
    assembly_id = assembly_id;
    trace_id = trace_id;
  }

  abbrev pub built : ContextAssemblyBuilder f → AssemblyResult f
  built b = record {
    items = greedy_knapsack_fill f b;
    degraded = not (is_empty b.zones_unavailable);
    zones_unavailable = b.zones_unavailable;
    assembly_id = b.assembly_id;
    trace_id = b.trace_id;
    token_count_total = total_tokens f (greedy_knapsack_fill f b);
    token_budget = b.token_budget;
  }

  build-built :
      (b : ContextAssemblyBuilder f)
      → text_eq b.assembly_id [] ≡ false
      → text_eq b.trace_id [] ≡ false
      → build f b ≡ ok (built b)
  unfolding build
  build-built b h k = simp (build, h, k) refl

  module _ (repositories : ZoneId → Option (ZoneQuery f → Fetched f))
      (hmac : List ℕ → List ℕ → Text) (isoformat : ℕ → Text)
      (publish : AssembledEvent f → Option Error) where
    fetch_zones-start :
        (r : ContextAssemblyRequest f) (assembly_id trace_id : Text)
        → All (λ z. is_contained f (zone_query f r) (repositories z) ≡ true) (target_zones r.zones)
        → fetch_zones f repositories
            (target_zones r.zones)
            (zone_query f r)
            (start_builder f repositories hmac isoformat publish r assembly_id trace_id)
          ≡ (
            registered f repositories (zone_query f r) (target_zones r.zones),
            ok (gathered_builder repositories r assembly_id trace_id),
          )
    unfolding start_builder
    fetch_zones-start r assembly_id trace_id c =
        fetch_zones_lem f repositories (zone_query f r) (target_zones r.zones)
          (start_builder f repositories hmac isoformat publish r assembly_id trace_id)
          (target_zones-IsDistinct r.zones) (unseen (target_zones r.zones)) c

    verify_credential-none :
        (key : List ℕ) (r : ContextAssemblyRequest f) (now : ℕ)
        → verify_credential f repositories hmac isoformat (some key) r now ≡ none
        → verify_tenant_credential hmac isoformat r.tenant_credential key r.tenant_id now ≡ ok true
    unfolding verify_credential
    verify_credential-none key r now n =
        elim (Result-cases
          (verify_tenant_credential hmac isoformat r.tenant_credential key r.tenant_id now)) [
            | inl (true, e) ↦ e
            | inl (false, e) ↦ ground arith
            | inr (x, e) ↦ ground arith
          ]

    -- If the credential is accepted, the two identifiers are not empty, no repository raises another
    -- exception than ZoneRepositoryError and the event bus does not raise, then the call queries
    -- exactly the registered ones of its distinct target zones in their order, publishes one event,
    -- and returns a result whose unavailable zones are exactly the target zones without a
    -- repository or with a failing one, which is degraded exactly if there is one, and whose items
    -- are the greedy selection from the items of all other target zones, within the token budget.
    pub assemble_context_served :
        (key : Option (List ℕ)) (r : ContextAssemblyRequest f) (assembly_id trace_id : Text)
        (now published_at : ℕ)
        → verify_credential f repositories hmac isoformat key r now ≡ none
        → text_eq assembly_id [] ≡ false
        → text_eq trace_id [] ≡ false
        → All (λ z. is_contained f (zone_query f r) (repositories z) ≡ true) (target_zones r.zones)
        → ((e : AssembledEvent f) → publish e ≡ none)
        → (a : AssemblyResult f) × (assemble_context f repositories hmac isoformat publish key r
              assembly_id trace_id now published_at
            ≡ record {
              queried = registered f repositories (zone_query f r) (target_zones r.zones);
              published = assembled_event f repositories hmac isoformat a published_at ∷ [];
              result = ok a;
            })
          × (a.zones_unavailable
              ≡ unavailable f repositories (zone_query f r) (target_zones r.zones))
          × (a.degraded ≡ not (is_empty a.zones_unavailable))
          × (a.items
              ≡ greedy_knapsack_fill f (gathered_builder repositories r assembly_id trace_id))
          × (a.token_count_total ≡ total_tokens f a.items)
          × (a.token_count_total ≤ r.token_budget)
    unfolding assemble_context publish_assembled
    assemble_context_served key r assembly_id trace_id now published_at v h k c quiet =
        let b = gathered_builder repositories r assembly_id trace_id in
        (
          built b,
          simp
              (
                assemble_context,
                v,
                fetch_zones-start r assembly_id trace_id c,
                build-built b h k,
                publish_assembled,
                quiet (assembled_event f repositories hmac isoformat (built b) published_at),
              )
              refl,
          refl,
          refl,
          refl,
          refl,
          (greedy_knapsack_fill-IsGreedy f b).0,
        )

    -- If a signing key is set, then the request of a call has a credential, issued at most 300 seconds
    -- before the call and not after it, whose signature is the digest of the claimed tenant and the
    -- credential's instant under that key; or the call queries no zone, publishes nothing and raises.
    pub assemble_context_authenticated :
        (key : List ℕ) (r : ContextAssemblyRequest f) (assembly_id trace_id : Text)
        (now published_at : ℕ)
        → ((c : TenantCredential) × (r.tenant_credential ≡ some c)
            × IsGenuine hmac isoformat key r.tenant_id now c)
          ⊎ ((e : Error) × (assemble_context f repositories hmac isoformat publish
                  (some key)
                  r
                  assembly_id
                  trace_id
                  now
                  published_at
                ≡ record { queried = []; published = []; result = raise e }))
    unfolding assemble_context
    assemble_context_authenticated key r assembly_id trace_id now published_at =
        elim (Option-cases (verify_credential f repositories hmac isoformat (some key) r now)) [
          | inl n ↦ inl (
              verify_tenant_credential-IsGenuine hmac isoformat r.tenant_credential key r.tenant_id
                now (verify_credential-none key r now n))
          | inr (e, v) ↦ inr (e, simp (assemble_context, v) refl)
        ]
