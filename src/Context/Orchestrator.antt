-- ===== src/Context/Orchestrator.antt =====
-- src/dashanan/application/memory_orchestrator.py with context_assembly_request.py and the `ZoneQuery`
-- of src/dashanan/domain/ports.py. The registered repositories and the event bus are parameters: a
-- repository answers a query with items or raises. The two `uuid4`, the two readings of the clock,
-- the digest and `isoformat` are parameters too. Logging is left out.
use dashanan.Prelude.{
  ℕ, Bool, true, false, ◌&&◌, Option, none, some, List, [], ◌∷◌, ◌++◌, leb, ltb, if◌then◌else◌,
  length, Text, is_none, Result, ok, raise, Error, value_error, authentication_error,
}
use dashanan.Prelude.Floats.{Floats}
use dashanan.Zone.{ZoneId, all_zones}
use dashanan.Item.{MemoryItem}
use dashanan.Context.Builder.{
  has_zone, ContextAssemblyBuilder, AssemblyResult, new_builder, with_token_budget,
  with_identifiers, add_candidates, mark_zone_unavailable, build,
}
use dashanan.Context.Credential.{TenantCredential, verify_tenant_credential}

-- `_MIN_SIGNING_KEY_BYTES` and the check of the constructor.
unfoldable pub check_signing_key : Option (List ℕ) → Result (Option (List ℕ))
check_signing_key none = ok none
check_signing_key (some key) = if ltb (length key) 32 then raise value_error else ok (some key)

-- `list(dict.fromkeys(zones))`, where `seen` are the keys so far.
unfoldable pub unique_zones : List ZoneId → List ZoneId → List ZoneId
unfolding has_zone
unique_zones seen [] = []
unique_zones seen (z ∷ zones) =
    let skipped = unique_zones seen zones in
    let kept = unique_zones (z ∷ seen) zones in if has_zone z seen then skipped else z ∷ kept

-- `target_zones`
unfoldable pub target_zones : Option (List ZoneId) → List ZoneId
unfolding unique_zones
target_zones none = all_zones
target_zones (some zones) = unique_zones [] zones

module _ (f : Floats) where
  open f use {Float}

  pub record ContextAssemblyRequest : Type 0 where
    pub tenant_id : Text
    pub session_id : Text
    pub task : Option Text
    pub token_budget : ℕ
    pub query_embedding : Option (List Float)
    pub zones : Option (List ZoneId)
    pub max_items : ℕ
    pub min_provenance_conf : Float
    pub as_of : Option ℕ
    pub tenant_credential : Option TenantCredential

  -- `ContextAssemblyRequest.__post_init__`
  unfoldable pub check_request : ContextAssemblyRequest → Result ContextAssemblyRequest
  check_request r =
      if is_none r.task && is_none r.query_embedding
      then raise value_error
      else if leb r.token_budget 0
      then raise value_error
      else if leb r.max_items 0
      then raise value_error
      else ok r

  pub record ZoneQuery : Type 0 where
    pub tenant_id : Text
    pub task : Option Text
    pub query_embedding : Option (List Float)
    pub max_items : ℕ
    pub min_provenance_conf : Float
    pub as_of : Option ℕ

  unfoldable pub zone_query : ContextAssemblyRequest → ZoneQuery
  zone_query r = record {
    tenant_id = r.tenant_id;
    task = r.task;
    query_embedding = r.query_embedding;
    max_items = r.max_items;
    min_provenance_conf = r.min_provenance_conf;
    as_of = r.as_of;
  }

  -- What `repository.fetch` does: it returns items, raises ZoneRepositoryError or raises another
  -- exception.
  pub data Fetched : Type 0 where
    fetched : List (MemoryItem f) → Fetched
    zone_repository_error : Fetched
    other_error : Error → Fetched

  -- The payload of "context.assembled".
  pub record AssembledEvent : Type 0 where
    pub assembly_id : Text
    pub trace_id : Text
    pub degraded : Bool
    pub zones_unavailable : List ZoneId
    pub items_returned : ℕ
    pub assembled_at : Text

  -- A call with the zones it has queried and the events it has published.
  pub record Outcome : Type 0 where
    pub queried : List ZoneId
    pub published : List AssembledEvent
    pub result : Result (AssemblyResult f)

  -- What `_fetch_zone` does with the builder when the repository has answered.
  unfoldable pub add_fetched :
      ZoneId → ContextAssemblyBuilder f → Fetched → Result (ContextAssemblyBuilder f)
  unfolding add_candidates mark_zone_unavailable
  add_fetched zone b (fetched items) = ok (add_candidates f b items)
  add_fetched zone b zone_repository_error = ok (mark_zone_unavailable f b zone)
  add_fetched zone b (other_error e) = raise e

  -- `_fetch_zone` for the repository that is registered for the zone, if one is; the list is the
  -- zones that are queried.
  unfoldable pub fetch_zone :
      ZoneId
      → ZoneQuery
      → ContextAssemblyBuilder f
      → Option (ZoneQuery → Fetched)
      → List ZoneId × Result (ContextAssemblyBuilder f)
  unfolding add_fetched mark_zone_unavailable
  fetch_zone zone query b none = ([], ok (mark_zone_unavailable f b zone))
  fetch_zone zone query b (some fetch) = (zone ∷ [], add_fetched zone b (fetch query))

  module _ (repositories : ZoneId → Option (ZoneQuery → Fetched)) where
    -- The loop over `target_zones`.
    unfoldable pub fetch_zones :
        List ZoneId
        → ZoneQuery
        → ContextAssemblyBuilder f
        → List ZoneId × Result (ContextAssemblyBuilder f)
    unfolding fetch_zone
    fetch_zones [] query b = ([], ok b)
    fetch_zones (z ∷ zones) query b =
        let first = fetch_zone z query b (repositories z) in
        elim first.1 [
          | raise e ↦ (first.0, raise e)
          | ok b' ↦ let rest = fetch_zones zones query b' in (first.0 ++ rest.0, rest.1)
        ]

    module _ (hmac : List ℕ → List ℕ → Text) (isoformat : ℕ → Text) where
      -- `_verify_tenant_credential`: none if it returns.
      unfoldable pub verify_credential : Option (List ℕ) → ContextAssemblyRequest → ℕ → Option Error
      unfolding verify_tenant_credential
      verify_credential none r now = none
      verify_credential (some key) r now =
          elim (verify_tenant_credential hmac isoformat r.tenant_credential key r.tenant_id now) [
            | raise e ↦ some e
            | ok true ↦ none
            | ok false ↦ some authentication_error
          ]

      unfoldable pub assembled_event : AssemblyResult f → ℕ → AssembledEvent
      assembled_event a now = record {
        assembly_id = a.assembly_id;
        trace_id = a.trace_id;
        degraded = a.degraded;
        zones_unavailable = a.zones_unavailable;
        items_returned = length a.items;
        assembled_at = isoformat now;
      }

      module _ (publish : AssembledEvent → Option Error) where
        -- `_publish_assembled_event` and the return.
        unfoldable pub publish_assembled : List ZoneId → AssemblyResult f → ℕ → Outcome
        unfolding assembled_event
        publish_assembled queried a now = record {
          queried = queried;
          published = assembled_event a now ∷ [];
          result = elim (publish (assembled_event a now)) [ none ↦ ok a | some e ↦ raise e ];
        }

        abbrev raised : List ZoneId → Error → Outcome
        raised queried e = record { queried = queried; published = []; result = raise e }

        -- The builder before the loop.
        unfoldable pub start_builder :
            ContextAssemblyRequest → Text → Text → ContextAssemblyBuilder f
        unfolding with_identifiers with_token_budget
        start_builder r assembly_id trace_id =
            with_identifiers f (with_token_budget f (new_builder f) r.token_budget) assembly_id
              trace_id

        unfoldable pub assemble_context :
            Option (List ℕ) → ContextAssemblyRequest → Text → Text → ℕ → ℕ → Outcome
        unfolding verify_credential fetch_zones build publish_assembled start_builder zone_query
            target_zones
        assemble_context key r assembly_id trace_id now published_at =
            elim (verify_credential key r now) [
              | some e ↦ raised [] e
              | none ↦
                  let gathered =
                    fetch_zones (target_zones r.zones) (zone_query r)
                      (start_builder r assembly_id trace_id) in
                  elim gathered.1 [
                    | raise e ↦ raised gathered.0 e
                    | ok b ↦ elim (build f b) [
                      | raise e ↦ raised gathered.0 e
                      | ok a ↦ publish_assembled gathered.0 a published_at
                    ]
                  ]
            ]
