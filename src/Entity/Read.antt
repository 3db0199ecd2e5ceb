-- ===== src/Entity/Read.antt =====
-- The reads of src/dashanan/infrastructure/entity_memory_repository.py. `json.dumps` with sorted keys is a
-- parameter.
use dashanan.Prelude.{
  ℕ, true, false, Option, none, some, List, [], ◌∷◌, ◌++◌, map, length, leb, max, if◌then◌else◌,
  Text, text_lt, is_blank, Dict, insert, sorted, Result, ok, raise, value_error, ◌>>=◌,
}
use dashanan.Prelude.Floats.{Floats}
use dashanan.Zone.{entity}
use dashanan.Item.{MemoryItem, check_memory_item}
use dashanan.Context.Orchestrator.{ZoneQuery}
use dashanan.Entity.Record.{EntityAttributeRecord, EntityRecord, check_entity}
use dashanan.Entity.Trie.{Node, exact_match, prefix_search}
use dashanan.Entity.Repository.{EntityMemory}

-- `entity_attrs.values()`
abbrev pub values : Dict EntityAttributeRecord → List EntityAttributeRecord
values d = map (λ a. a.1) d

-- `get_entity`
unfoldable pub get_entity : EntityMemory → Text → Text → Result (Option EntityRecord)
unfolding is_blank check_entity
get_entity m tenant_id entity_id =
    if is_blank tenant_id
    then raise value_error
    else if is_blank entity_id
    then raise value_error
    else elim (m.entity_attributes tenant_id entity_id) [
      | none ↦ ok none
      | some attributes ↦
          check_entity (record {
            tenant_id = tenant_id;
            entity_id = entity_id;
            attributes = values attributes;
          })
          >>= (λ r. ok (some r))
    ]

-- What a search finds in a trie that may be missing.
unfoldable pub search_in : (Text → Node → List Text) → Text → Option Node → List Text
search_in search term none = []
search_in search term (some trie) = search term trie

-- `resolve_alias_prefix`
unfoldable pub resolve_alias_prefix : EntityMemory → Text → Text → Result (List Text)
unfolding is_blank search_in prefix_search
resolve_alias_prefix m tenant_id prefix =
    if is_blank tenant_id
    then raise value_error
    else ok (search_in prefix_search prefix (m.alias_tries tenant_id))

-- `resolve_exact_term`
unfoldable pub resolve_exact_term : EntityMemory → Text → Text → Result (List Text)
unfolding is_blank search_in exact_match
resolve_exact_term m tenant_id term =
    if is_blank tenant_id
    then raise value_error
    else ok (search_in exact_match term (m.alias_tries tenant_id))

-- The dictionary comprehension of `_serialize_attributes`.
unfoldable pub value_by_name : List EntityAttributeRecord → Dict Text → Dict Text
unfolding insert
value_by_name [] d = d
value_by_name (a ∷ rows) d = value_by_name rows (insert a.attribute_name a.value d)

module _ (f : Floats) (json_dumps : Dict Text → Text) where
  -- The item of an entity; its score is the default.
  unfoldable pub item_of : Text → EntityRecord → MemoryItem f
  unfolding value_by_name
  item_of entity_id r =
      let payload = json_dumps (value_by_name r.attributes []) in
      record {
        item_id = entity_id;
        source_zone = entity;
        payload = payload;
        token_count = max 1 (length payload);
        score = f.of_int 0;
      }

  -- The loop of `fetch`.
  unfoldable pub fetch_loop :
      EntityMemory → Text → ℕ → List Text → List (MemoryItem f) → Result (List (MemoryItem f))
  unfolding get_entity item_of check_memory_item
  fetch_loop m tenant_id max_items [] items = ok items
  fetch_loop m tenant_id max_items (e ∷ es) items = elim (leb max_items (length items)) [
    | true ↦ ok items
    | false ↦ elim (get_entity m tenant_id e) [
      | raise x ↦ raise x
      | ok none ↦ fetch_loop m tenant_id max_items es items
      | ok (some r) ↦ elim (check_memory_item f (item_of e r)) [
        | raise x ↦ raise x
        | ok i ↦ fetch_loop m tenant_id max_items es (items ++ i ∷ [])
      ]
    ]
  ]

  unfoldable pub fetch_task : EntityMemory → Text → ℕ → Text → Result (List (MemoryItem f))
  unfolding is_blank resolve_alias_prefix fetch_loop sorted text_lt
  fetch_task m tenant_id max_items task =
      if is_blank task then ok [] else elim (resolve_alias_prefix m tenant_id task) [
        | raise e ↦ raise e
        | ok entity_ids ↦ fetch_loop m tenant_id max_items (sorted text_lt entity_ids) []
      ]

  -- `fetch`
  unfoldable pub fetch : EntityMemory → ZoneQuery f → Result (List (MemoryItem f))
  unfolding fetch_task
  fetch m query = elim query.task [
    | none ↦ ok []
    | some task ↦ fetch_task m query.tenant_id query.max_items task
  ]
