-- ===== src/Entity/Erasure.antt =====
-- What `write_attribute` and `erase_entity` of src/dashanan/infrastructure/entity_memory_repository.py
-- mean to the later reads.
use dashanan.Prelude.{
  ℕ, ◌≡◌, refl, sym, ap, ◌∙◌, subst, Bool-cases, false, ◌&&◌, Option, none, some, List, ◌++◌, map,
  arith, if◌then◌else◌, Text, text_eq, text_eq_refl, is_blank, Dict, lookup, insert, lookup-insert,
  has, ok, inl, inr,
}
use dashanan.Entity.Record.{EntityAttributeRecord, EntityRecord, get_attribute, find_attribute}
use dashanan.Entity.Repository.{
  EntityMemory, set_pair, or_else, erase_entity, put_attribute, write_record, write_attribute,
  WriteWorld, projected_id,
}
use dashanan.Entity.Read.{get_entity, values, resolve_alias_prefix}
use dashanan.Entity.Tables.{attributes_of, knows, erased, knows-erased}
use dashanan.Entity.Invariant.{
  AreRows, IsEntityMemory, erased-IsEntityMemory, put_attribute-IsEntityMemory, insert-AreRows,
}
use dashanan.Entity.Reach.{
  Reach, Reach-IsEntityMemory, attribute_of, write_attribute-write_record, erase_entity-erased,
}
use dashanan.Entity.Resolve.{found, found_iff, find_attribute-lookup, get_entity_total, record_of}

-- An erased entity has no alias left.
erased_unknown :
    (m : EntityMemory) (t e a : Text) → IsEntityMemory m → knows (erased m t e) t a e ≡ false
erased_unknown m t e a v =
    ground (arith, knows-erased m t e t a e, v.recorded t a e, text_eq_refl t, text_eq_refl e)

erased_lost :
    (m : EntityMemory) (t e p : Text) → IsEntityMemory m → has e (found (erased m t e) t p) ≡ false
erased_lost m t e p v = elim (Bool-cases (has e (found (erased m t e) t p))) [
  | inr h ↦ h
  | inl h ↦
      let (s, g) = (found_iff (erased m t e) t p e (erased-IsEntityMemory m t e v)).0 h in
      absurd (ground (arith, erased_unknown m t e (p ++ s) v))
]

-- Another entity keeps its aliases and attributes.
erased_other :
    (m : EntityMemory) (t e u a i : Text)
    → (text_eq t u && text_eq e i) ≡ false
    → knows (erased m t e) u a i ≡ knows m u a i
erased_other m t e u a i other = ground (arith, knows-erased m t e u a i)

-- `get_entity` reads one place of one table.
get_entity_same :
    (m n : EntityMemory) (t e : Text)
    → m.entity_attributes t e ≡ n.entity_attributes t e
    → get_entity m t e ≡ get_entity n t e
unfolding get_entity
get_entity_same m n t e h =
    ap
      (λ (o : Option (Dict EntityAttributeRecord)).
        get_entity (record m { entity_attributes = λ u i. o }) t e)
      h

erased_row :
    (m : EntityMemory) (t e u i : Text)
    → (erased m t e).entity_attributes u i
      ≡ (if text_eq t u && text_eq e i then none else m.entity_attributes u i)
unfolding set_pair
erased_row m t e u i = refl

erased_other_entity :
    (m : EntityMemory) (t e u i : Text)
    → (text_eq t u && text_eq e i) ≡ false
    → get_entity (erased m t e) u i ≡ get_entity m u i
erased_other_entity m t e u i other =
    get_entity_same (erased m t e) m u i (erased_row m t e u i ∙ simp other refl)

erased_gone :
    (m : EntityMemory) (t e : Text)
    → IsEntityMemory m
    → is_blank t ≡ false
    → is_blank e ≡ false
    → get_entity (erased m t e) t e ≡ ok none
erased_gone m t e v ht he =
    let gone : (erased m t e).entity_attributes t e ≡ none =
      erased_row m t e t e ∙ simp (text_eq_refl t, text_eq_refl e) refl in
    get_entity_total (erased m t e) t e (erased-IsEntityMemory m t e v) ht he
    ∙ ap (λ o. ok (record_of t e o)) gone

resolved :
    (m : EntityMemory) (t e p : Text)
    → is_blank t ≡ false
    → IsEntityMemory m
    → (ids : List Text) × (resolve_alias_prefix (erased m t e) t p ≡ ok ids) × (has e ids ≡ false)
unfolding resolve_alias_prefix
resolved m t e p ht v = (found (erased m t e) t p, simp ht refl, erased_lost m t e p v)

-- On every memory that calls reach from a new one, erasing an entity by ids that are not blank returns
-- the projected id of each of its attributes, and afterwards every search by a prefix returns without the
-- entity and `get_entity` has none, while every other entity, of this tenant or another, keeps its attributes
-- and its aliases.
pub erase_entity_forgets :
    {m : EntityMemory} (t e : Text)
    → Reach m
    → is_blank t ≡ false
    → is_blank e ≡ false
    → let after = (erase_entity m t e).0 in
      ((erase_entity m t e).1 ≡ ok (map (λ a. projected_id e a.0) (attributes_of m t e)))
      × ((p : Text)
          → (ids : List Text) × (resolve_alias_prefix after t p ≡ ok ids) × (has e ids ≡ false))
      × (get_entity after t e ≡ ok none)
      × ((u i : Text)
          → (text_eq t u && text_eq e i) ≡ false
          → (get_entity after u i ≡ get_entity m u i)
            × ((a : Text) → knows after u a i ≡ knows m u a i))
erase_entity_forgets {m = m} t e h ht he =
    let v = Reach-IsEntityMemory h in
    subst
      (λ o.
        (o.1 ≡ ok (map (λ a. projected_id e a.0) (attributes_of m t e)))
        × ((p : Text)
            → (ids : List Text) × (resolve_alias_prefix o.0 t p ≡ ok ids) × (has e ids ≡ false))
        × (get_entity o.0 t e ≡ ok none)
        × ((u i : Text)
            → (text_eq t u && text_eq e i) ≡ false
            → (get_entity o.0 u i ≡ get_entity m u i)
              × ((a : Text) → knows o.0 u a i ≡ knows m u a i)))
      (sym (erase_entity-erased m t e ht he))
      (
        refl,
        λ p. resolved m t e p ht v,
        erased_gone m t e v ht he,
        λ u i other. (erased_other_entity m t e u i other, λ a. erased_other m t e u a i other),
      )

put_attribute_row :
    (m : EntityMemory) (r : EntityAttributeRecord)
    → (put_attribute m r).entity_attributes r.tenant_id r.entity_id
      ≡ some (insert r.attribute_name r (attributes_of m r.tenant_id r.entity_id))
unfolding put_attribute set_pair or_else
put_attribute_row m r = simp (text_eq_refl r.tenant_id, text_eq_refl r.entity_id) refl

-- On every memory that calls reach from a new one, a `write_attribute` whose ids, name and provenance are
-- not blank writes, also when the bus raises behind it: `get_entity` then returns a record in which the
-- attribute is the one written, with the instant given or the clock's, and each other name has what the
-- memory had for it.
pub get_entity-write_attribute :
    {m : EntityMemory} (t e a v p : Text) (at : Option ℕ) (w : WriteWorld)
    → Reach m
    → is_blank t ≡ false
    → is_blank e ≡ false
    → is_blank a ≡ false
    → is_blank p ≡ false
    → (r : EntityRecord) × (get_entity (write_attribute m t e a v p at w).0 t e ≡ ok (some r))
      × (get_attribute r a ≡ some (attribute_of t e a v p at w))
      × ((b : Text) → text_eq a b ≡ false → get_attribute r b ≡ lookup b (attributes_of m t e))
unfolding write_record get_attribute
get_entity-write_attribute {m = m} t e a v p at w h ht he ha hp =
    let row = attribute_of t e a v p at w in
    let old = attributes_of m t e in
    let d = insert a row old in
    let kept = put_attribute-IsEntityMemory m row (Reach-IsEntityMemory h) in
    let rows : AreRows t e d =
      insert-AreRows t e row old refl refl ((Reach-IsEntityMemory h).rows t e) in
    let read : (b : Text)
        → find_attribute b (values d) ≡ (if text_eq a b then some row else lookup b old) =
      λ b. find_attribute-lookup t e b d rows ∙ lookup-insert a b row old in
    (
      record { tenant_id = t; entity_id = e; attributes = values d },
      ap (λ o. get_entity o.0 t e) (write_attribute-write_record m t e a v p at w ht he ha hp)
          ∙ get_entity_total (put_attribute m row) t e kept ht he
          ∙ ap (λ o. ok (record_of t e o)) (put_attribute_row m row),
      read a ∙ simp (text_eq_refl a) refl,
      λ b other. read b ∙ simp other refl,
    )
