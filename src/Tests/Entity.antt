-- ===== src/Tests/Entity.antt =====
-- Runs of Zone 5, of src/dashanan/infrastructure/entity_memory_repository.py and the trie of its aliases.
use dashanan.Prelude.{
  ℕ, ◌+◌, ◌≡◌, ◌↔◌, ◌&&◌, refl, true, false, none, some, List, [], ◌∷◌, ◌++◌, map, take, Text,
  codes, text_eq, text_lt, is_blank, Dict, lookup, has, sorted, ok,
}
use dashanan.Prelude.Floats.{micro_floats}
use dashanan.Context.Orchestrator.{ZoneQuery}
use dashanan.Entity.Trie.{remove_alias, insert_alias, exact_match, prefix_search}
use dashanan.Entity.Ownership.{CandidateFact}
use dashanan.Entity.Refine.{Call, inserts, removes, run, holds, run_refines}
use dashanan.Entity.Record.{EntityRecord, get_attribute}
use dashanan.Entity.Repository.{
  EntityMemory, new_memory, WriteWorld, write_attribute, erase_entity, register_alias, projected_id,
}
use dashanan.Entity.Read.{get_entity, resolve_alias_prefix, fetch}
use dashanan.Entity.Tables.{attributes_of, knows}
use dashanan.Entity.Reach.{Reach, fresh, wrote, registers, attribute_of}
use dashanan.Entity.Resolve.{found}
use dashanan.Entity.Erasure.{erase_entity_forgets, get_entity-write_attribute}
use dashanan.Entity.Fetch.{items_of, fetch_exact}

abbrev calls : List Call
calls =
    removes (codes "bo") (codes "e1")
    ∷ inserts [] (codes "e3")
    ∷ inserts (codes "bob") (codes "e2")
    ∷ inserts (codes "bo") (codes "e1")
    ∷ []

-- A removed pair is not found, a longer alias is, and an empty alias was refused.
trie_run : prefix_search (codes "b") (run calls) ≡ codes "e2" ∷ []
unfolding prefix_search remove_alias insert_alias
trie_run = refl

run_refines_example :
    (has (codes "e2") (exact_match (codes "b") (run calls)) ≡ holds calls (codes "b") (codes "e2"))
    × ((has (codes "e2") (prefix_search (codes "b") (run calls)) ≡ true)
        ↔ ((s : Text) × (holds calls (codes "b" ++ s) (codes "e2") ≡ true)))
run_refines_example = run_refines calls (codes "b") (codes "e2")

abbrev world : WriteWorld
world = record { now = 7; publish_raises = none }

abbrev tenant : Text
tenant = codes "t"

abbrev written : EntityMemory
written =
    (write_attribute new_memory tenant (codes "e1") (codes "age") (codes "40") (codes "p") none
      world).0

abbrev named : EntityMemory
named = (register_alias written tenant (codes "e1") (codes "bob")).0

named-Reach : Reach named
named-Reach =
    registers tenant (codes "e1") (codes "bob")
      (wrote tenant (codes "e1") (codes "age") (codes "40") (codes "p") none world fresh)

erase_entity_forgets_example :
    let after = (erase_entity named tenant (codes "e1")).0 in
    ((erase_entity named tenant (codes "e1")).1
      ≡ ok (map (λ a. projected_id (codes "e1") a.0) (attributes_of named tenant (codes "e1"))))
    × ((p : Text)
        → (ids : List Text) × (resolve_alias_prefix after tenant p ≡ ok ids)
          × (has (codes "e1") ids ≡ false))
    × (get_entity after tenant (codes "e1") ≡ ok none)
    × ((u i : Text)
        → (text_eq tenant u && text_eq (codes "e1") i) ≡ false
        → (get_entity after u i ≡ get_entity named u i)
          × ((a : Text) → knows after u a i ≡ knows named u a i))
unfolding is_blank
erase_entity_forgets_example = erase_entity_forgets tenant (codes "e1") named-Reach refl refl

-- Two entities whose attributes have the same projected id.
collision_run : projected_id (codes "a:b") (codes "c") ≡ projected_id (codes "a") (codes "b:c")
unfolding projected_id
collision_run = refl

get_entity-write_attribute_example :
    (r : EntityRecord) × (get_entity
        (write_attribute named tenant
          (codes "e1")
          (codes "age")
          (codes "41")
          (codes "q")
          (some 9)
          world).0
        tenant
        (codes "e1")
      ≡ ok (some r))
    × (get_attribute r (codes "age")
        ≡ some (
            attribute_of tenant (codes "e1") (codes "age") (codes "41") (codes "q") (some 9) world))
    × ((b : Text)
        → text_eq (codes "age") b ≡ false
        → get_attribute r b ≡ lookup b (attributes_of named tenant (codes "e1")))
unfolding is_blank
get_entity-write_attribute_example =
    get_entity-write_attribute tenant (codes "e1") (codes "age") (codes "41") (codes "q") (some 9)
      world named-Reach refl refl refl refl

-- The names and values one after the other, in place of JSON.
abbrev dumped : Dict Text → Text
dumped [] = []
dumped ((k, v) ∷ d) = k ++ codes "=" ++ v ++ dumped d

abbrev query : ZoneQuery micro_floats
query = record {
  tenant_id = tenant;
  task = some (codes "bo");
  query_embedding = none;
  max_items = 5;
  min_provenance_conf = 0;
  as_of = none;
}

fetch_run :
    fetch micro_floats dumped named query
    ≡ ok (items_of micro_floats dumped named tenant (codes "e1" ∷ []))
unfolding fetch write_attribute register_alias
fetch_run = refl

fetch_exact_example :
    (fetch micro_floats dumped named query
      ≡ ok (
          take 5 (
            items_of micro_floats dumped named tenant
              (sorted text_lt (found named tenant (codes "bo"))))))
    × ((i : Text)
        → (has i (found named tenant (codes "bo")) ≡ true)
          ↔ ((s : Text) × (knows named tenant (codes "bo" ++ s) i ≡ true)))
unfolding is_blank
fetch_exact_example = fetch_exact micro_floats dumped query (codes "bo") named-Reach refl refl refl

abbrev fact : CandidateFact
fact = record {
  tenant_id = tenant;
  subjects = codes "e1" ∷ [];
  objects = codes "p1" ∷ codes "p2" ∷ [];
  predicate = codes "in";
  qualifiers = [];
  statement = codes "s";
  subject_scope = codes "c";
  index_reverse = true;
}

abbrev numbered : ℕ → Text
numbered n = codes "id" ++ (48 + n) ∷ []
