-- ===== src/Entity/Repository.antt =====
-- `EntityMemoryRepository` of src/dashanan/infrastructure/entity_memory_repository.py. A method holds the
-- lock of its tenant and is one step. The three tables are functions of their keys, since no method goes
-- through them; the attributes of an entity are a `dict`. The clock and the event bus are
-- parameters. The reads are in Entity/Read.
use dashanan.Prelude.{
  ℕ, ◌&&◌, Option, none, some, List, [], ◌∷◌, ◌++◌, map, if◌then◌else◌, Text, codes, text_eq,
  is_blank, Dict, insert, add_to, Result, ok, raise, Error, value_error,
}
use dashanan.Zone.{entity, zone_value}
use dashanan.Entity.Record.{EntityAttributeRecord, check_attribute}
use dashanan.Entity.Trie.{Node, empty_node, insert_alias, remove_alias}

pub record EntityMemory : Type 0 where
  pub entity_attributes : Text → Text → Option (Dict EntityAttributeRecord)
  pub alias_tries : Text → Option Node
  pub entity_aliases : Text → Text → Option (List Text)

-- `EntityMemoryRepository.__init__`
abbrev pub new_memory : EntityMemory
new_memory = record {
  entity_attributes = λ t e. none;
  alias_tries = λ t. none;
  entity_aliases = λ t e. none;
}

-- A table with another value at a key; `none` is a `pop`.
unfoldable pub set_at {ℓ} : {V : Type ℓ} → Text → Option V → (Text → Option V) → Text → Option V
unfolding text_eq
set_at k v table j = if text_eq k j then v else table j

unfoldable pub set_pair {ℓ} :
    {V : Type ℓ} → Text → Text → Option V → (Text → Text → Option V) → Text → Text → Option V
unfolding text_eq
set_pair t e v table u i = if text_eq t u && text_eq e i then v else table u i

-- What `setdefault` and `get` give for a missing value.
unfoldable pub or_else {ℓ} : {V : Type ℓ} → V → Option V → V
or_else v none = v
or_else v (some w) = w

-- The payload of a projection event, and the item id that it and `erase_entity` name.
unfoldable pub projected_id : Text → Text → Text
projected_id entity_id attribute_name = entity_id ++ codes ":" ++ attribute_name

pub record ProjectionEvent : Type 0 where
  pub tenant_id : Text
  pub entity_id : Text
  pub attribute_name : Text
  pub item_id : Text
  pub zone : Text

-- `WriteAccepted` with its id and instant, or `WriteRejected` with its status and code.
pub data AttributeResult : Type 0 where
  attribute_accepted : Text → ℕ → AttributeResult
  attribute_rejected : ℕ → Text → AttributeResult

abbrev pub error_missing_attribute_provenance_id : Text
error_missing_attribute_provenance_id = codes "missing_attribute_provenance_id"

-- What one call meets: the clock, and what `publish` raises.
pub record WriteWorld : Type 0 where
  pub now : ℕ
  pub publish_raises : Option Error

-- The memory with an attribute written.
unfoldable pub put_attribute : EntityMemory → EntityAttributeRecord → EntityMemory
unfolding set_pair or_else insert
put_attribute m r = record m {
  entity_attributes =
      set_pair r.tenant_id r.entity_id
        (some
          (insert r.attribute_name r (or_else [] (m.entity_attributes r.tenant_id r.entity_id))))
        m.entity_attributes;
}

unfoldable pub projection_of : EntityAttributeRecord → ProjectionEvent
unfolding projected_id zone_value
projection_of r = record {
  tenant_id = r.tenant_id;
  entity_id = r.entity_id;
  attribute_name = r.attribute_name;
  item_id = projected_id r.entity_id r.attribute_name;
  zone = zone_value entity;
}

-- The write and the event of a record that was made: the memory, the events given to the bus, and the
-- result.
unfoldable pub write_record :
    EntityMemory
    → EntityAttributeRecord
    → WriteWorld
    → EntityMemory × List ProjectionEvent × Result AttributeResult
unfolding put_attribute projection_of
write_record m r w = (
  put_attribute m r,
  projection_of r ∷ [],
  elim w.publish_raises [
    | none ↦ ok (attribute_accepted r.provenance_id r.updated_at)
    | some e ↦ raise e
  ],
)

-- `write_attribute`
unfoldable pub write_attribute :
    EntityMemory
    → Text
    → Text
    → Text
    → Text
    → Text
    → Option ℕ
    → WriteWorld
    → EntityMemory × List ProjectionEvent × Result AttributeResult
unfolding is_blank or_else check_attribute write_record
write_attribute m tenant_id entity_id attribute_name value provenance_id updated_at w =
    if is_blank tenant_id
    then (m, [], raise value_error)
    else if is_blank entity_id
    then (m, [], raise value_error)
    else if is_blank attribute_name
    then (m, [], raise value_error)
    else if is_blank provenance_id
    then (m, [], ok (attribute_rejected 422 error_missing_attribute_provenance_id))
    else elim (check_attribute (record {
      tenant_id = tenant_id;
      entity_id = entity_id;
      attribute_name = attribute_name;
      value = value;
      provenance_id = provenance_id;
      updated_at = or_else w.now updated_at;
    })) [ raise e ↦ (m, [], raise e) | ok r ↦ write_record m r w ]

-- The loop that removes the aliases.
unfoldable pub remove_aliases : List Text → Text → Node → Node
unfolding remove_alias
remove_aliases [] entity_id trie = trie
remove_aliases (a ∷ aliases) entity_id trie =
    remove_aliases aliases entity_id (remove_alias a entity_id trie)

-- The tries without the aliases of an entity; a trie that is missing stays so.
unfoldable pub forget_aliases : EntityMemory → Text → Text → Text → Option Node
unfolding remove_aliases set_at or_else
forget_aliases m tenant_id entity_id = elim (m.alias_tries tenant_id) [
  | none ↦ m.alias_tries
  | some trie ↦
      set_at tenant_id
        (some (remove_aliases (or_else [] (m.entity_aliases tenant_id entity_id)) entity_id trie))
        m.alias_tries
]

-- `erase_entity`
unfoldable pub erase_entity : EntityMemory → Text → Text → EntityMemory × Result (List Text)
unfolding is_blank set_pair forget_aliases or_else projected_id
erase_entity m tenant_id entity_id =
    if is_blank tenant_id
    then (m, raise value_error)
    else if is_blank entity_id
    then (m, raise value_error)
    else (
      record {
        entity_attributes = set_pair tenant_id entity_id none m.entity_attributes;
        alias_tries = forget_aliases m tenant_id entity_id;
        entity_aliases = set_pair tenant_id entity_id none m.entity_aliases;
      },
      ok (
          map (λ a. projected_id entity_id a.0)
            (or_else [] (m.entity_attributes tenant_id entity_id))),
    )

-- `register_alias`; the trie of the tenant is made before `insert` can raise.
unfoldable pub register_alias : EntityMemory → Text → Text → Text → EntityMemory × Result (Unit {0})
unfolding is_blank set_at set_pair or_else insert_alias add_to
register_alias m tenant_id entity_id alias =
    if is_blank tenant_id
    then (m, raise value_error)
    else if is_blank entity_id
    then (m, raise value_error)
    else let trie = or_else empty_node (m.alias_tries tenant_id) in
      elim (insert_alias alias entity_id trie) [
        | raise e ↦ (record m { alias_tries = set_at tenant_id (some trie) m.alias_tries }, raise e)
        | ok t ↦ (
          record m {
            alias_tries = set_at tenant_id (some t) m.alias_tries;
            entity_aliases =
                set_pair tenant_id entity_id
                  (some (add_to alias (or_else [] (m.entity_aliases tenant_id entity_id))))
                  m.entity_aliases;
          },
          ok tt,
        )
      ]
