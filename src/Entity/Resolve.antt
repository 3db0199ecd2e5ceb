-- ===== src/Entity/Resolve.antt =====
-- The reads of src/dashanan/infrastructure/entity_memory_repository.py after its writes and erasures.
use dashanan.Prelude.{
  ◌≡◌, ◌↔◌, inl, inr, refl, sym, ap, ◌∙◌, subst, Bool-cases, Option-cases, true, false, Option,
  none, some, List, [], ◌∷◌, ◌++◌, arith, if◌then◌else◌, Text, text_eq, text_eq_iff, text_eq_refl,
  is_blank, Dict, lookup, has, add_to, has-add_to, ok,
}
use dashanan.Entity.Trie.{Node, empty_node, prefix_search}
use dashanan.Entity.Alias.{is_alias, is_alias-empty}
use dashanan.Entity.Prefix.{IsTrie, prefix_search_iff}
use dashanan.Entity.Record.{
  EntityAttributeRecord, EntityRecord, check_entity, are_attributes, find_attribute,
}
use dashanan.Entity.Repository.{EntityMemory, or_else}
use dashanan.Entity.Read.{get_entity, values, search_in}
use dashanan.Entity.Tables.{knows}
use dashanan.Entity.Invariant.{AreRows, IsEntityMemory}

-- The ids that a search by a prefix finds.
abbrev pub found : EntityMemory → Text → Text → List Text
unfolding search_in
found m t p = search_in prefix_search p (m.alias_tries t)

search_in_iff :
    (p i : Text) (o : Option Node)
    → IsTrie (or_else empty_node o)
    → (has i (search_in prefix_search p o) ≡ true)
      ↔ ((s : Text) × (is_alias (p ++ s) i (or_else empty_node o) ≡ true))
unfolding search_in or_else has
search_in_iff p i none v =
    (λ h. absurd (ground arith), λ h. absurd (ground (arith, is_alias-empty (p ++ h.0) i)))
search_in_iff p i (some n) v = prefix_search_iff p i n v

-- On memories with the invariant, the ids found are those with an alias that begins with the prefix.
pub found_iff :
    (m : EntityMemory) (t p i : Text)
    → IsEntityMemory m
    → (has i (found m t p) ≡ true) ↔ ((s : Text) × (knows m t (p ++ s) i ≡ true))
unfolding found or_else
found_iff m t p i v = search_in_iff p i (m.alias_tries t) (v.tries t)

next_fresh :
    (k j : Text) (r : EntityAttributeRecord) (seen : List Text) (d : Dict EntityAttributeRecord)
    → ((i : Text) → has i seen ≡ true → lookup i ((k, r) ∷ d) ≡ none)
    → lookup k d ≡ none
    → has j (add_to k seen) ≡ true
    → lookup j d ≡ none
unfolding lookup
next_fresh k j r seen d h g e = elim (Bool-cases (text_eq k j)) [
  | inl same ↦ subst (λ x. lookup x d ≡ none) ((text_eq_iff k j).0 same) g
  | inr other ↦ ground (arith, has-add_to j k seen, h j)
]

-- The rows of an entity pass the check of its record.
are_attributes-AreRows :
    (t e : Text) (seen : List Text) (d : Dict EntityAttributeRecord)
    → AreRows t e d
    → ((k : Text) → has k seen ≡ true → lookup k d ≡ none)
    → are_attributes t e seen (values d) ≡ true
unfolding are_attributes lookup
are_attributes-AreRows t e seen [] v h = refl
are_attributes-AreRows t e seen ((k, r) ∷ d) v h =
    let new : has k seen ≡ false = ground (arith, h k, text_eq_refl k) in
    let here : has r.attribute_name seen ≡ false = ap (λ x. has x seen) v.0 ∙ new in
    let same_tenant = (text_eq_iff r.tenant_id t).1 v.1 in
    let same_entity = (text_eq_iff r.entity_id e).1 v.2 in
    let rest =
      are_attributes-AreRows t e (add_to r.attribute_name seen) d v.4
        (λ j g. next_fresh k j r seen d h v.3 (subst (λ x. has j (add_to x seen) ≡ true) v.0 g)) in
    ground arith

pub find_attribute-lookup :
    (t e k : Text) (d : Dict EntityAttributeRecord)
    → AreRows t e d
    → find_attribute k (values d) ≡ lookup k d
unfolding find_attribute lookup
find_attribute-lookup t e k [] v = refl
find_attribute-lookup t e k ((j, r) ∷ d) v =
    let below = find_attribute-lookup t e k d v.4 in
    subst
      (λ x.
        (if text_eq x k then some r else find_attribute k (values d))
        ≡ (if text_eq j k then some r else lookup k d))
      (sym v.0) (ap (λ o. if text_eq j k then some r else o) below)

no_member : (k : Text) → has k [] ≡ true → ⊥
unfolding has
no_member k h = ground arith

-- The record of an entity's attributes.
abbrev pub record_of : Text → Text → Option (Dict EntityAttributeRecord) → Option EntityRecord
record_of t e none = none
record_of t e (some d) = some (record { tenant_id = t; entity_id = e; attributes = values d })

-- What `get_entity` returns: it never raises for ids that are not blank.
pub get_entity_total :
    (m : EntityMemory) (t e : Text)
    → IsEntityMemory m
    → is_blank t ≡ false
    → is_blank e ≡ false
    → get_entity m t e ≡ ok (record_of t e (m.entity_attributes t e))
unfolding get_entity check_entity or_else
get_entity_total m t e v ht he = elim (Option-cases (m.entity_attributes t e)) [
  | inl g ↦ simp (get_entity, ht, he, g) refl
  | inr (d, g) ↦
      let rows = subst (λ o. AreRows t e (or_else [] o)) g (v.rows t e) in
      let checked = are_attributes-AreRows t e [] d rows (λ k h. absurd (no_member k h)) in
      simp (get_entity, ht, he, g, checked) refl
]
