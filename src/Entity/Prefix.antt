-- ===== src/Entity/Prefix.antt =====
-- The search by a prefix in the trie of src/dashanan/domain/entity_alias_trie.py, and the trie as an
-- implementation of a set of pairs.
use dashanan.Prelude.{
  ℕ, ◌≡◌, ◌↔◌, ◌⊎◌, inl, inr, refl, sym, ap, subst, ◌∙◌, Bool-cases, Option-cases, true, false,
  none, some, List, [], ◌∷◌, ◌++◌, arith, ◌==◌, ==_iff, if◌then◌else◌, Text, has, has-union, union,
}
use dashanan.Entity.Trie.{
  Node, node, Children, no_child, child, get_child, set_child, navigate, entity_ids, exact_match,
  collect, collect_children, collect_found, prefix_search,
}
use dashanan.Entity.Alias.{
  is_alias, is_alias-ids, is_alias-cons_none, is_alias-cons_some, get_child-set_child,
}

-- No character has two children.
unfoldable mutual
  unfolding get_child

  pub IsTrie : Node → Type 0
  IsTrie (node cs ids) = AreTries cs

  pub AreTries : Children → Type 0
  AreTries no_child = Unit
  AreTries (child c n cs) = (get_child c cs ≡ none) × IsTrie n × AreTries cs

pub get_child-IsTrie :
    (c : ℕ) (n : Node) (cs : Children) → AreTries cs → get_child c cs ≡ some n → IsTrie n
unfolding get_child IsTrie
get_child-IsTrie c n no_child v e = ground arith
get_child-IsTrie c n (child d m cs) v e = elim (Bool-cases (d == c)) [
  | inl same ↦ let found : m ≡ n = ground arith in subst IsTrie found v.1
  | inr other ↦ get_child-IsTrie c n cs v.2 (ground arith)
]

fresh_child :
    (c d : ℕ) (m : Node) (cs : Children)
    → get_child d cs ≡ none
    → d == c ≡ false
    → (if c == d then some m else get_child d cs) ≡ none
fresh_child c d m cs e other = ground arith

pub set_child-AreTries :
    (c : ℕ) (m : Node) (cs : Children) → AreTries cs → IsTrie m → AreTries (set_child c m cs)
unfolding set_child IsTrie
set_child-AreTries c m no_child v h = (refl, h, tt)
set_child-AreTries c m (child d n cs) v h = elim (Bool-cases (d == c)) [
  | inl same ↦ simp same (v.0, h, v.2)
  | inr other ↦ simp other (
    get_child-set_child c d m cs ∙ fresh_child c d m cs v.0 other,
    v.1,
    set_child-AreTries c m cs v.2 h,
  )
]

is_alias-child :
    (c d : ℕ) (a i : Text) (n : Node) (cs : Children) (ids : List Text)
    → is_alias (d ∷ a) i (node (child c n cs) ids)
      ≡ (if c == d then is_alias a i n else is_alias (d ∷ a) i (node cs ids))
unfolding exact_match navigate get_child
is_alias-child c d a i n cs ids = ground arith

mutual
  unfolding collect has union

  collect-keeps :
      (n : Node) (into : List Text) (i : Text) → has i into ≡ true → has i (collect n into) ≡ true
  collect-keeps (node cs ids) into i h =
      collect_children-keeps cs (union into ids) i (ground (arith, has-union i into ids))

  collect_children-keeps :
      (cs : Children) (into : List Text) (i : Text)
      → has i into ≡ true
      → has i (collect_children cs into) ≡ true
  collect_children-keeps no_child into i h = h
  collect_children-keeps (child c n cs) into i h =
      collect_children-keeps cs (collect n into) i (collect-keeps n into i h)

mutual
  unfolding collect exact_match navigate entity_ids

  collect_complete :
      (n : Node) (into : List Text) (a i : Text)
      → is_alias a i n ≡ true
      → has i (collect n into) ≡ true
  collect_complete (node cs ids) into [] i h =
      collect_children-keeps cs (union into ids) i (ground (arith, has-union i into ids))
  collect_complete (node cs ids) into (c ∷ a) i h =
      collect_children_complete cs (union into ids) c a i (sym (is_alias-ids c a i cs ids []) ∙ h)

  collect_children_complete :
      (cs : Children) (into : List Text) (c : ℕ) (a i : Text)
      → is_alias (c ∷ a) i (node cs []) ≡ true
      → has i (collect_children cs into) ≡ true
  collect_children_complete no_child into c a i h = absurd (ground arith)
  collect_children_complete (child d n cs) into c a i h = elim (Bool-cases (d == c)) [
    | inl same ↦
        collect_children-keeps cs (collect n into) i
          (collect_complete n into a i (ground (arith, is_alias-child d c a i n cs [])))
    | inr other ↦
        collect_children_complete cs (collect n into) c a i
          (ground (arith, is_alias-child d c a i n cs []))
  ]

-- A child in front hides none of the others.
is_alias-behind :
    (c d : ℕ) (a i : Text) (n : Node) (cs : Children)
    → get_child c cs ≡ none
    → is_alias (d ∷ a) i (node cs []) ≡ true
    → is_alias (d ∷ a) i (node (child c n cs) []) ≡ true
is_alias-behind c d a i n cs fresh h = elim (Bool-cases (c == d)) [
  | inl same ↦
      let absent =
        is_alias-cons_none d a i cs []
          (ap (λ x. get_child x cs) (sym ((==_iff c d).0 same)) ∙ fresh) in
      absurd (ground arith)
  | inr other ↦ ground (arith, is_alias-child c d a i n cs [])
]

mutual
  unfolding collect IsTrie exact_match navigate entity_ids

  collect_sound :
      (n : Node) (into : List Text) (i : Text)
      → IsTrie n
      → has i (collect n into) ≡ true
      → (has i into ≡ true) ⊎ ((a : Text) × (is_alias a i n ≡ true))
  collect_sound (node cs ids) into i v h = elim (collect_children_sound cs (union into ids) i v h) [
    | inr (c, a, g) ↦ inr (c ∷ a, is_alias-ids c a i cs ids [] ∙ g)
    | inl g ↦ elim (Bool-cases (has i into)) [
      | inl k ↦ inl k
      | inr k ↦ inr ([], ground (arith, has-union i into ids))
    ]
  ]

  collect_children_sound :
      (cs : Children) (into : List Text) (i : Text)
      → AreTries cs
      → has i (collect_children cs into) ≡ true
      → (has i into ≡ true) ⊎ ((c : ℕ) × (a : Text) × (is_alias (c ∷ a) i (node cs []) ≡ true))
  collect_children_sound no_child into i v h = inl h
  collect_children_sound (child c n cs) into i v h =
      elim (collect_children_sound cs (collect n into) i v.2 h) [
        | inr (d, a, g) ↦ inr (d, a, is_alias-behind c d a i n cs v.0 g)
        | inl g ↦ elim (collect_sound n into i v.1 g) [
          | inl k ↦ inl k
          | inr (a, k) ↦ inr (c, a, ground (arith, is_alias-child c c a i n cs []))
        ]
      ]

-- What a search by a prefix finds: the entities of the aliases that begin with it.
pub prefix_search_iff :
    (p i : Text) (n : Node)
    → IsTrie n
    → (has i (prefix_search p n) ≡ true) ↔ ((s : Text) × (is_alias (p ++ s) i n ≡ true))
unfolding prefix_search collect_found navigate IsTrie has
prefix_search_iff [] i n v = (
  λ h. elim (collect_sound n [] i v h) [ inl e ↦ absurd (ground arith) | inr (a, k) ↦ (a, k) ],
  λ h. collect_complete n [] h.0 i h.1,
)
prefix_search_iff (c ∷ p) i (node cs ids) v = elim (Option-cases (get_child c cs)) [
  | inl e ↦ (
    λ h. absurd (ground arith),
    λ h. absurd (ground (arith, is_alias-cons_none c (p ++ h.0) i cs ids e)),
  )
  | inr (m, e) ↦
      let below = prefix_search_iff p i m (get_child-IsTrie c m cs v e) in
      (
        λ h.
            let (s, g) = below.0 (ground arith) in
            (s, is_alias-cons_some c (p ++ s) i cs ids m e ∙ g),
        λ h.
            let found = below.1 (h.0, sym (is_alias-cons_some c (p ++ h.0) i cs ids m e) ∙ h.1) in
            ground arith,
      )
]
