-- ===== src/Entity/Invariant.antt =====
-- The invariant of src/dashanan/infrastructure/entity_memory_repository.py and the memories that its
-- methods reach.
use dashanan.Prelude.{
  ◌≡◌, refl, sym, ap, ◌∙◌, subst, Bool-cases, true, false, ◌&&◌, none, some, List, [], ◌∷◌, inl,
  inr, arith, Text, text_eq, text_eq_iff, is_blank, Dict, lookup, insert, lookup-insert, has,
}
use dashanan.Entity.Trie.{Node, remove_alias}
use dashanan.Entity.Alias.{is_alias-empty}
use dashanan.Entity.Prefix.{IsTrie}
use dashanan.Entity.Refine.{insert_from-IsTrie, remove_alias-IsTrie}
use dashanan.Entity.Record.{EntityAttributeRecord}
use dashanan.Entity.Repository.{
  EntityMemory, new_memory, set_at, set_pair, or_else, remove_aliases, put_attribute,
}
use dashanan.Entity.Tables.{
  trie_of, aliases_of, attributes_of, knows, erased, registered, trie_of-erased, knows-registered,
  knows-erased, aliased-registered, aliased-erased,
}

-- The attributes of an entity: each under its own name, of that entity, and no name twice.
abbrev pub AreRows : Text → Text → Dict EntityAttributeRecord → Type 0
AreRows t e [] = Unit
AreRows t e ((k, r) ∷ d) =
    (r.attribute_name ≡ k)
    × (r.tenant_id ≡ t)
    × (r.entity_id ≡ e)
    × (lookup k d ≡ none)
    × AreRows t e d

-- The aliases in the trie of a tenant are recorded with their entity, whose id is not blank.
abbrev pub AreRecorded : EntityMemory → Type 0
AreRecorded m =
    (t a i : Text) → knows m t a i ≡ true → (is_blank i ≡ false) × (has a (aliases_of m t i) ≡ true)

pub record IsEntityMemory (m : EntityMemory) : Type 0 where
  pub tries : (t : Text) → IsTrie (trie_of m t)
  pub recorded : AreRecorded m
  pub rows : (t e : Text) → AreRows t e (attributes_of m t e)

pub new_memory-IsEntityMemory : IsEntityMemory new_memory
unfolding or_else IsTrie
new_memory-IsEntityMemory = record {
  tries = λ t. tt;
  recorded = λ t a i h. absurd (ground (arith, is_alias-empty a i));
  rows = λ t e. tt;
}

remove_aliases-IsTrie :
    (names : List Text) (e : Text) (n : Node) → IsTrie n → IsTrie (remove_aliases names e n)
unfolding remove_aliases
remove_aliases-IsTrie [] e n v = v
remove_aliases-IsTrie (a ∷ names) e n v =
    remove_aliases-IsTrie names e (remove_alias a e n) (remove_alias-IsTrie a e n v)

pub insert-AreRows :
    (t e : Text) (r : EntityAttributeRecord) (d : Dict EntityAttributeRecord)
    → r.tenant_id ≡ t
    → r.entity_id ≡ e
    → AreRows t e d
    → AreRows t e (insert r.attribute_name r d)
unfolding insert lookup
insert-AreRows t e r [] ht he v = (refl, ht, he, refl, tt)
insert-AreRows t e r ((k, s) ∷ d) ht he v = elim (Bool-cases (text_eq k r.attribute_name)) [
  | inl same ↦ simp same (sym ((text_eq_iff k r.attribute_name).0 same), ht, he, v.3, v.4)
  | inr other ↦ simp other (
    v.0,
    v.1,
    v.2,
    lookup-insert r.attribute_name k r d
        ∙ ground (arith, text_eq_iff k r.attribute_name, text_eq_iff r.attribute_name k),
    insert-AreRows t e r d ht he v.4,
  )
]

aliases_of_same :
    (m : EntityMemory) (t e u a i : Text)
    → text_eq t u ≡ true
    → text_eq e i ≡ true
    → has a (aliases_of m t e) ≡ has a (aliases_of m u i)
aliases_of_same m t e u a i h g =
    ap (λ x. has a (aliases_of m x e)) ((text_eq_iff t u).0 h)
    ∙ ap (λ x. has a (aliases_of m u x)) ((text_eq_iff e i).0 g)

erased-AreRecorded : (m : EntityMemory) (t e : Text) → AreRecorded m → AreRecorded (erased m t e)
erased-AreRecorded m t e v u a i h =
    let known : knows m u a i ≡ true = ground (arith, knows-erased m t e u a i) in
    let before = v u a i known in
    (
      before.0,
      ground (
        arith,
        knows-erased m t e u a i,
        aliased-erased m t e u a i,
        aliases_of_same m t e u a i,
      ),
    )

registered-AreRecorded :
    (m : EntityMemory) (t e alias : Text)
    → is_blank e ≡ false
    → AreRecorded m
    → AreRecorded (registered m t e alias)
registered-AreRecorded m t e alias b v u a i h = (
  ground (arith, knows-registered m t e alias u a i, v u a i, ap is_blank, text_eq_iff e i),
  ground (arith, knows-registered m t e alias u a i, aliased-registered m t e alias u a i, v u a i),
)

pub erased-IsEntityMemory :
    (m : EntityMemory) (t e : Text) → IsEntityMemory m → IsEntityMemory (erased m t e)
unfolding set_pair or_else
erased-IsEntityMemory m t e v = record {
  tries = λ u. subst IsTrie (sym (trie_of-erased m t e u)) (elim (Bool-cases (text_eq t u)) [
    | inl same ↦ simp same (remove_aliases-IsTrie (aliases_of m t e) e (trie_of m u) (v.tries u))
    | inr other ↦ simp other (v.tries u)
  ]);
  recorded = erased-AreRecorded m t e v.recorded;
  rows = λ u i. elim (Bool-cases (text_eq t u && text_eq e i)) [
    | inl same ↦ simp same tt
    | inr other ↦ simp other (v.rows u i)
  ];
}

pub registered-IsEntityMemory :
    (m : EntityMemory) (t e alias : Text)
    → is_blank e ≡ false
    → IsEntityMemory m
    → IsEntityMemory (registered m t e alias)
unfolding set_at or_else
registered-IsEntityMemory m t e alias b v = record {
  tries = λ u. elim (Bool-cases (text_eq t u)) [
    | inl same ↦ simp same (insert_from-IsTrie alias e (trie_of m t) (v.tries t))
    | inr other ↦ simp other (v.tries u)
  ];
  recorded = registered-AreRecorded m t e alias b v.recorded;
  rows = v.rows;
}

-- The trie that a failed `register_alias` leaves behind is as good as none.
pub touched-IsEntityMemory :
    (m : EntityMemory) (t : Text)
    → IsEntityMemory m
    → IsEntityMemory (record m { alias_tries = set_at t (some (trie_of m t)) m.alias_tries })
unfolding set_at or_else
touched-IsEntityMemory m t v = record {
  tries = λ u. elim (Bool-cases (text_eq t u)) [
    | inl same ↦ simp same (v.tries t)
    | inr other ↦ simp other (v.tries u)
  ];
  recorded = λ u a i. elim (Bool-cases (text_eq t u)) [
    | inl same ↦ simp same (
        subst (λ x. knows m x a i ≡ true → (is_blank i ≡ false) × (has a (aliases_of m u i) ≡ true))
          (sym ((text_eq_iff t u).0 same)) (v.recorded u a i))
    | inr other ↦ simp other (v.recorded u a i)
  ];
  rows = v.rows;
}

pub put_attribute-IsEntityMemory :
    (m : EntityMemory) (r : EntityAttributeRecord)
    → IsEntityMemory m
    → IsEntityMemory (put_attribute m r)
unfolding put_attribute set_pair or_else
put_attribute-IsEntityMemory m r v = record {
  tries = v.tries;
  recorded = v.recorded;
  rows = λ u i. elim (Bool-cases (text_eq r.tenant_id u)) [
    | inr other ↦ simp other (v.rows u i)
    | inl same ↦ elim (Bool-cases (text_eq r.entity_id i)) [
      | inr other ↦ simp (same, other) (v.rows u i)
      | inl also ↦
          let ht = (text_eq_iff r.tenant_id u).0 same in
          let he = (text_eq_iff r.entity_id i).0 also in
          simp (same, also)
            (insert-AreRows u i r (attributes_of m r.tenant_id r.entity_id) ht he (
              subst (λ x. AreRows u i (attributes_of m x r.entity_id)) (sym ht)
                (subst (λ x. AreRows u i (attributes_of m u x)) (sym he) (v.rows u i))))
    ]
  ];
}
