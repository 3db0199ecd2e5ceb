-- ===== src/Tests/Context.antt =====
-- Runs of the assembly of a context, src/dashanan/application/memory_orchestrator.py.
use dashanan.Prelude.{
  ℕ, ◌≡◌, ◌≤◌, ◌⊎◌, refl, not, true, none, some, Option, List, [], ◌∷◌, Text, codes, text_eq, All,
  Any, IsSortedBy, Error, ok, raise,
}
use dashanan.Prelude.Floats.{micro_floats}
use dashanan.Zone.{ZoneId, working, semantic, entity}
use dashanan.Item.{MemoryItem}
use dashanan.Context.Builder.{
  ContextAssemblyBuilder, AssemblyResult, is_empty, is_denser, total_tokens, greedy_knapsack_fill,
}
use dashanan.Context.Fill.{IsChosen, greedy_knapsack_fill-IsGreedy}
use dashanan.Context.Credential.{
  TenantCredential, is_ascii, sign_tenant_credential, tenant_credential_message,
}
use dashanan.Context.Orchestrator.{
  ContextAssemblyRequest, ZoneQuery, Fetched, fetched, zone_repository_error, AssembledEvent,
  target_zones, zone_query, verify_credential, assembled_event, assemble_context,
}
use dashanan.Context.Assembly.{is_contained, registered, unavailable}
use dashanan.Context.Served.{
  IsGenuine, gathered_builder, assemble_context_served, assemble_context_authenticated,
}

-- A digest and a clock text for the runs.
abbrev digest : List ℕ → List ℕ → Text
digest key message = codes "d"

abbrev clock_text : ℕ → Text
clock_text t = codes "now"

abbrev item : Text → ℕ → ℕ → MemoryItem micro_floats
item id token_count score = record {
  item_id = id;
  source_zone = semantic;
  payload = [];
  token_count = token_count;
  score = score;
}

abbrev dense : MemoryItem micro_floats
dense = item (codes "a") 4 900000

abbrev large : MemoryItem micro_floats
large = item (codes "b") 8 800000

abbrev small : MemoryItem micro_floats
small = item (codes "c") 3 100000

abbrev builder : ContextAssemblyBuilder micro_floats
builder = record {
  candidates = small ∷ large ∷ dense ∷ [];
  zones_unavailable = [];
  token_budget = 10;
  assembly_id = codes "x";
  trace_id = codes "y";
}

-- The second densest item does not fit, a later one does.
greedy_run : greedy_knapsack_fill micro_floats builder ≡ dense ∷ small ∷ []
unfolding greedy_knapsack_fill
greedy_run = refl

greedy_knapsack_fill-IsGreedy_example :
    (total_tokens micro_floats (greedy_knapsack_fill micro_floats builder) ≤ 10)
    × IsSortedBy (is_denser micro_floats) (greedy_knapsack_fill micro_floats builder)
    × All (λ i. Any (λ j. j ≡ i) builder.candidates) (greedy_knapsack_fill micro_floats builder)
    × All (IsChosen micro_floats 10 (greedy_knapsack_fill micro_floats builder)) builder.candidates
greedy_knapsack_fill-IsGreedy_example = greedy_knapsack_fill-IsGreedy micro_floats builder

abbrev key : List ℕ
key = 1 ∷ []

abbrev credential : TenantCredential
credential = sign_tenant_credential digest clock_text key (codes "t") 20

digest_ascii :
    is_ascii
      (digest key (tenant_credential_message digest clock_text (codes "t") credential.issued_at))
    ≡ true
unfolding is_ascii
digest_ascii = refl

-- One zone answers, one fails, and the others have no repository.
abbrev repositories : ZoneId → Option (ZoneQuery micro_floats → Fetched micro_floats)
repositories semantic = some (λ q. fetched (dense ∷ small ∷ []))
repositories entity = some (λ q. zone_repository_error)
repositories _ = none

abbrev request : ContextAssemblyRequest micro_floats
request = record {
  tenant_id = codes "t";
  session_id = codes "s";
  task = some (codes "q");
  token_budget = 10;
  query_embedding = none;
  zones = some (semantic ∷ entity ∷ semantic ∷ working ∷ []);
  max_items = 5;
  min_provenance_conf = 0;
  as_of = none;
  tenant_credential = some credential;
}

abbrev quiet_bus : AssembledEvent micro_floats → Option Error
quiet_bus e = none

credential_accepted :
    verify_credential micro_floats repositories digest clock_text (some key) request 25 ≡ none
unfolding verify_credential
credential_accepted = refl

targets_contained :
    All
      (λ z. is_contained micro_floats (zone_query micro_floats request) (repositories z) ≡ true)
      (target_zones request.zones)
unfolding is_contained target_zones
targets_contained = (refl, (refl, (refl, tt)))

-- What the run returns: two zones are unavailable, in the order of the request.
served_run :
    (assemble_context micro_floats repositories digest clock_text quiet_bus
      (some key)
      request
      (codes "x")
      (codes "y")
      25
      26).queried
    ≡ semantic ∷ entity ∷ []
unfolding assemble_context
served_run = refl

assemble_context_served_example :
    (a : AssemblyResult micro_floats) × (assemble_context micro_floats repositories digest
        clock_text quiet_bus
        (some key)
        request
        (codes "x")
        (codes "y")
        25
        26
      ≡ record {
        queried =
            registered micro_floats repositories
              (zone_query micro_floats request)
              (target_zones request.zones);
        published = assembled_event micro_floats repositories digest clock_text a 26 ∷ [];
        result = ok a;
      })
    × (a.zones_unavailable
        ≡ unavailable micro_floats repositories
            (zone_query micro_floats request)
            (target_zones request.zones))
    × (a.degraded ≡ not (is_empty a.zones_unavailable))
    × (a.items
        ≡ greedy_knapsack_fill micro_floats
            (gathered_builder micro_floats repositories request (codes "x") (codes "y")))
    × (a.token_count_total ≡ total_tokens micro_floats a.items)
    × (a.token_count_total ≤ 10)
unfolding text_eq
assemble_context_served_example =
    assemble_context_served micro_floats repositories digest clock_text quiet_bus (some key) request
      (codes "x") (codes "y") 25 26 credential_accepted refl refl targets_contained (λ e. refl)

assemble_context_authenticated_example :
    ((c : TenantCredential) × (some credential ≡ some c)
      × IsGenuine digest clock_text key (codes "t") 25 c)
    ⊎ ((e : Error) × (assemble_context micro_floats repositories digest clock_text quiet_bus
            (some key)
            request
            (codes "x")
            (codes "y")
            25
            26
          ≡ record { queried = []; published = []; result = raise e }))
assemble_context_authenticated_example =
    assemble_context_authenticated micro_floats repositories digest clock_text quiet_bus key request
      (codes "x") (codes "y") 25 26
