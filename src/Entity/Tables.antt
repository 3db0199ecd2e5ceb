-- ===== src/Entity/Tables.antt =====
-- What the tables of src/dashanan/infrastructure/entity_memory_repository.py hold after a call.
use dashanan.Prelude.{
  ◌≡◌, refl, sym, ap, ◌∙◌, Bool, Bool-cases, Option-cases, ◌&&◌, ◌||◌, not, none, some, List, [],
  ◌∷◌, inl, inr, arith, if◌then◌else◌, Text, text_eq, text_eq_iff, Dict, has, has-add_to, add_to,
}
use dashanan.Entity.Trie.{Node, empty_node, insert_from, remove_alias}
use dashanan.Entity.Alias.{
  is_alias, is_alias-insert_from, is_alias-remove_alias, remove_alias-empty,
}
use dashanan.Entity.Record.{EntityAttributeRecord}
use dashanan.Entity.Repository.{
  EntityMemory, set_at, set_pair, or_else, remove_aliases, forget_aliases,
}

abbrev pub trie_of : EntityMemory → Text → Node
unfolding or_else
trie_of m tenant_id = or_else empty_node (m.alias_tries tenant_id)

abbrev pub aliases_of : EntityMemory → Text → Text → List Text
unfolding or_else
aliases_of m tenant_id entity_id = or_else [] (m.entity_aliases tenant_id entity_id)

abbrev pub attributes_of : EntityMemory → Text → Text → Dict EntityAttributeRecord
unfolding or_else
attributes_of m tenant_id entity_id = or_else [] (m.entity_attributes tenant_id entity_id)

-- Whether an alias stands for an entity in the trie of a tenant.
abbrev pub knows : EntityMemory → Text → Text → Text → Bool
knows m tenant_id alias entity_id = is_alias alias entity_id (trie_of m tenant_id)

-- The memory after `erase_entity` and after `register_alias`, past their checks.
abbrev pub erased : EntityMemory → Text → Text → EntityMemory
erased m t e = record {
  entity_attributes = set_pair t e none m.entity_attributes;
  alias_tries = forget_aliases m t e;
  entity_aliases = set_pair t e none m.entity_aliases;
}

abbrev pub registered : EntityMemory → Text → Text → Text → EntityMemory
registered m t e alias = record m {
  alias_tries = set_at t (some (insert_from alias e (trie_of m t))) m.alias_tries;
  entity_aliases = set_pair t e (some (add_to alias (aliases_of m t e))) m.entity_aliases;
}

is_alias-remove_aliases :
    (rows : List Text) (a i e : Text) (n : Node)
    → is_alias a i (remove_aliases rows e n) ≡ (not (has a rows && text_eq e i) && is_alias a i n)
unfolding remove_aliases has
is_alias-remove_aliases [] a i e n = refl
is_alias-remove_aliases (b ∷ rows) a i e n = ground (
  arith,
  is_alias-remove_aliases rows a i e (remove_alias b e n),
  is_alias-remove_alias b a i e n,
)

remove_aliases-empty : (rows : List Text) (e : Text) → remove_aliases rows e empty_node ≡ empty_node
unfolding remove_aliases
remove_aliases-empty [] e = refl
remove_aliases-empty (a ∷ rows) e =
    ap (remove_aliases rows e) (remove_alias-empty a e) ∙ remove_aliases-empty rows e

pub knows-registered :
    (m : EntityMemory) (t e alias u a i : Text)
    → knows (registered m t e alias) u a i
      ≡ ((text_eq t u && text_eq alias a && text_eq e i) || knows m u a i)
unfolding set_at or_else
knows-registered m t e alias u a i = elim (Bool-cases (text_eq t u)) [
  | inl same ↦ simp same (
      is_alias-insert_from alias a i e (trie_of m t)
      ∙ ap (λ x. (text_eq alias a && text_eq e i) || knows m x a i) ((text_eq_iff t u).0 same))
  | inr other ↦ simp other refl
]

pub aliased-registered :
    (m : EntityMemory) (t e alias u a i : Text)
    → has a (aliases_of (registered m t e alias) u i)
      ≡ ((text_eq t u && text_eq e i && text_eq alias a) || has a (aliases_of m u i))
unfolding set_pair or_else
aliased-registered m t e alias u a i = elim (Bool-cases (text_eq t u)) [
  | inr other ↦ simp other refl
  | inl same ↦ elim (Bool-cases (text_eq e i)) [
    | inr other ↦ simp (same, other) refl
    | inl also ↦
        simp (same, also)
          (has-add_to a alias (aliases_of m t e)
            ∙ ap (λ x. text_eq alias a || has a (aliases_of m x e)) ((text_eq_iff t u).0 same)
            ∙ ap (λ x. text_eq alias a || has a (aliases_of m u x)) ((text_eq_iff e i).0 also))
  ]
]

forget_aliases-none :
    (m : EntityMemory) (t e : Text) → m.alias_tries t ≡ none → forget_aliases m t e ≡ m.alias_tries
unfolding forget_aliases
forget_aliases-none m t e gone = simp (forget_aliases, gone) refl

forget_aliases-some :
    (m : EntityMemory) (t e : Text) (n : Node)
    → m.alias_tries t ≡ some n
    → forget_aliases m t e ≡ set_at t (some (remove_aliases (aliases_of m t e) e n)) m.alias_tries
unfolding forget_aliases
forget_aliases-some m t e n there = simp (forget_aliases, there) refl

-- The trie of a tenant after `erase_entity`, also where there is none.
pub trie_of-erased :
    (m : EntityMemory) (t e u : Text)
    → trie_of (erased m t e) u
      ≡ (if text_eq t u then remove_aliases (aliases_of m t e) e (trie_of m u) else trie_of m u)
unfolding set_at or_else
trie_of-erased m t e u = elim (Option-cases (m.alias_tries t)) [
  | inl gone ↦
      ap (λ g. or_else empty_node (g u)) (forget_aliases-none m t e gone)
      ∙ (elim (Bool-cases (text_eq t u)) [
        | inl same ↦
            let empty : trie_of m u ≡ empty_node =
              ap (λ x. trie_of m x) (sym ((text_eq_iff t u).0 same))
              ∙ ap (or_else empty_node) gone in
            simp same (
              empty
              ∙ sym (remove_aliases-empty (aliases_of m t e) e)
              ∙ ap (remove_aliases (aliases_of m t e) e) (sym empty))
        | inr other ↦ simp other refl
      ])
  | inr (n, there) ↦
      ap (λ g. or_else empty_node (g u)) (forget_aliases-some m t e n there)
      ∙ (elim (Bool-cases (text_eq t u)) [
        | inl same ↦ simp same (
            ap (remove_aliases (aliases_of m t e) e) (
              sym (ap (or_else empty_node) there)
              ∙ ap (λ x. trie_of m x) ((text_eq_iff t u).0 same)))
        | inr other ↦ simp other refl
      ])
]

pub knows-erased :
    (m : EntityMemory) (t e u a i : Text)
    → knows (erased m t e) u a i
      ≡ (not (text_eq t u && has a (aliases_of m t e) && text_eq e i) && knows m u a i)
knows-erased m t e u a i =
    ap (is_alias a i) (trie_of-erased m t e u) ∙ (elim (Bool-cases (text_eq t u)) [
      | inl same ↦ simp same (is_alias-remove_aliases (aliases_of m t e) a i e (trie_of m u))
      | inr other ↦ simp other refl
    ])

pub aliased-erased :
    (m : EntityMemory) (t e u a i : Text)
    → has a (aliases_of (erased m t e) u i)
      ≡ (not (text_eq t u && text_eq e i) && has a (aliases_of m u i))
unfolding set_pair or_else has
aliased-erased m t e u a i = ground arith
