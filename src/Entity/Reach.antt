-- ===== src/Entity/Reach.antt =====
-- The memories that calls of src/dashanan/infrastructure/entity_memory_repository.py reach, and what
-- `erase_entity` and `write_attribute` do on them.
use dashanan.Prelude.{
  ℕ, ◌≡◌, inl, inr, refl, sym, subst, Bool-cases, false, Option, map, Text, is_blank, ok,
}
use dashanan.Entity.Trie.{insert_alias, is_empty}
use dashanan.Entity.Record.{EntityAttributeRecord, check_attribute}
use dashanan.Entity.Repository.{
  EntityMemory, new_memory, or_else, erase_entity, register_alias, write_record, write_attribute,
  WriteWorld, projected_id,
}
use dashanan.Entity.Tables.{attributes_of, erased, registered}
use dashanan.Entity.Invariant.{
  IsEntityMemory, new_memory-IsEntityMemory, erased-IsEntityMemory, registered-IsEntityMemory,
  touched-IsEntityMemory, put_attribute-IsEntityMemory,
}

-- The record that `write_attribute` makes.
abbrev pub attribute_of :
    Text → Text → Text → Text → Text → Option ℕ → WriteWorld → EntityAttributeRecord
unfolding or_else
attribute_of t e a v p at w = record {
  tenant_id = t;
  entity_id = e;
  attribute_name = a;
  value = v;
  provenance_id = p;
  updated_at = or_else w.now at;
}

-- What `write_attribute` does once its arguments are not blank.
pub write_attribute-write_record :
    (m : EntityMemory) (t e a v p : Text) (at : Option ℕ) (w : WriteWorld)
    → is_blank t ≡ false
    → is_blank e ≡ false
    → is_blank a ≡ false
    → is_blank p ≡ false
    → write_attribute m t e a v p at w ≡ write_record m (attribute_of t e a v p at w) w
unfolding write_attribute check_attribute
write_attribute-write_record m t e a v p at w ht he ha hp = simp (ht, he, ha, hp) refl

write_record-IsEntityMemory :
    (m : EntityMemory) (r : EntityAttributeRecord) (w : WriteWorld)
    → IsEntityMemory m
    → IsEntityMemory (write_record m r w).0
unfolding write_record
write_record-IsEntityMemory m r w h = put_attribute-IsEntityMemory m r h

write_attribute-IsEntityMemory :
    (m : EntityMemory) (t e a v p : Text) (at : Option ℕ) (w : WriteWorld)
    → IsEntityMemory m
    → IsEntityMemory (write_attribute m t e a v p at w).0
unfolding write_attribute
write_attribute-IsEntityMemory m t e a v p at w h = elim (Bool-cases (is_blank t)) [
  | inl x ↦ simp (write_attribute, x) h
  | inr x ↦ elim (Bool-cases (is_blank e)) [
    | inl y ↦ simp (write_attribute, x, y) h
    | inr y ↦ elim (Bool-cases (is_blank a)) [
      | inl z ↦ simp (write_attribute, x, y, z) h
      | inr z ↦ elim (Bool-cases (is_blank p)) [
        | inl u ↦ simp (write_attribute, x, y, z, u) h
        | inr u ↦
            subst (λ o. IsEntityMemory o.0)
              (sym (write_attribute-write_record m t e a v p at w x y z u))
              (write_record-IsEntityMemory m (attribute_of t e a v p at w) w h)
      ]
    ]
  ]
]

-- What `erase_entity` does once its arguments are not blank.
pub erase_entity-erased :
    (m : EntityMemory) (t e : Text)
    → is_blank t ≡ false
    → is_blank e ≡ false
    → erase_entity m t e ≡ (erased m t e, ok (map (λ a. projected_id e a.0) (attributes_of m t e)))
unfolding erase_entity
erase_entity-erased m t e ht he = simp (ht, he) refl

erase_entity-IsEntityMemory :
    (m : EntityMemory) (t e : Text) → IsEntityMemory m → IsEntityMemory (erase_entity m t e).0
unfolding erase_entity
erase_entity-IsEntityMemory m t e h = elim (Bool-cases (is_blank t)) [
  | inl x ↦ simp (erase_entity, x) h
  | inr x ↦ elim (Bool-cases (is_blank e)) [
    | inl y ↦ simp (erase_entity, x, y) h
    | inr y ↦
        subst (λ o. IsEntityMemory o.0) (sym (erase_entity-erased m t e x y))
          (erased-IsEntityMemory m t e h)
  ]
]

-- What `register_alias` does once its arguments are not blank and the alias is not empty.
pub register_alias-registered :
    (m : EntityMemory) (t e a : Text)
    → is_blank t ≡ false
    → is_blank e ≡ false
    → is_empty a ≡ false
    → register_alias m t e a ≡ (registered m t e a, ok tt)
unfolding register_alias insert_alias
register_alias-registered m t e a ht he ha = simp (ht, he, ha) refl

register_alias-IsEntityMemory :
    (m : EntityMemory) (t e a : Text) → IsEntityMemory m → IsEntityMemory (register_alias m t e a).0
unfolding register_alias insert_alias
register_alias-IsEntityMemory m t e a h = elim (Bool-cases (is_blank t)) [
  | inl x ↦ simp (register_alias, x) h
  | inr x ↦ elim (Bool-cases (is_blank e)) [
    | inl y ↦ simp (register_alias, x, y) h
    | inr y ↦ elim (Bool-cases (is_empty a)) [
      | inl z ↦ simp (register_alias, x, y, z) (touched-IsEntityMemory m t h)
      | inr z ↦
          subst (λ o. IsEntityMemory o.0) (sym (register_alias-registered m t e a x y z))
            (registered-IsEntityMemory m t e a y h)
    ]
  ]
]

-- The memories that calls reach from a new one, those that raise included.
pub data Reach : EntityMemory → Type 0 where
  fresh : Reach new_memory
  wrote :
      {m : EntityMemory} (t e a v p : Text) (at : Option ℕ) (w : WriteWorld)
      → Reach m
      → Reach (write_attribute m t e a v p at w).0
  erases : {m : EntityMemory} (t e : Text) → Reach m → Reach (erase_entity m t e).0
  registers : {m : EntityMemory} (t e a : Text) → Reach m → Reach (register_alias m t e a).0

pub Reach-IsEntityMemory : {m : EntityMemory} → Reach m → IsEntityMemory m
Reach-IsEntityMemory fresh = new_memory-IsEntityMemory
Reach-IsEntityMemory (wrote {m = m} t e a v p at w h) =
    write_attribute-IsEntityMemory m t e a v p at w (Reach-IsEntityMemory h)
Reach-IsEntityMemory (erases {m = m} t e h) =
    erase_entity-IsEntityMemory m t e (Reach-IsEntityMemory h)
Reach-IsEntityMemory (registers {m = m} t e a h) =
    register_alias-IsEntityMemory m t e a (Reach-IsEntityMemory h)
