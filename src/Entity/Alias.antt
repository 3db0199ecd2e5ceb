-- ===== src/Entity/Alias.antt =====
-- The trie of src/dashanan/domain/entity_alias_trie.py against a set of pairs of an alias and an entity.
use dashanan.Prelude.{
  ℕ, ◌≡◌, inl, inr, refl, sym, ap, ◌∙◌, Bool, Bool-cases, Option-cases, true, false, ◌&&◌, ◌||◌,
  not, none, some, List, [], ◌∷◌, arith, ◌==◌, ==_iff, if◌then◌else◌, Text, text_eq, has,
  has-add_to, has-discard, add_to, discard,
}
use dashanan.Entity.Trie.{
  Node, node, Children, no_child, child, empty_node, get_child, set_child, child_or_new,
  insert_from, navigate, remove_alias, entity_ids, exact_match,
}

pub get_child-set_child :
    (c d : ℕ) (m : Node) (cs : Children)
    → get_child d (set_child c m cs) ≡ (if c == d then some m else get_child d cs)
unfolding get_child set_child
get_child-set_child c d m no_child = refl
get_child-set_child c d m (child e n cs) = ground (arith, get_child-set_child c d m cs)

-- Whether an alias stands for an entity.
abbrev pub is_alias : Text → Text → Node → Bool
is_alias alias id trie = has id (exact_match alias trie)

pub is_alias-empty : (a i : Text) → is_alias a i empty_node ≡ false
unfolding exact_match navigate entity_ids has get_child
is_alias-empty [] i = refl
is_alias-empty (c ∷ a) i = refl

pub is_alias-cons_some :
    (c : ℕ) (a i : Text) (cs : Children) (ids : List Text) (n : Node)
    → get_child c cs ≡ some n
    → is_alias (c ∷ a) i (node cs ids) ≡ is_alias a i n
unfolding exact_match navigate
is_alias-cons_some c a i cs ids n e = ground arith

pub is_alias-cons_none :
    (c : ℕ) (a i : Text) (cs : Children) (ids : List Text)
    → get_child c cs ≡ none
    → is_alias (c ∷ a) i (node cs ids) ≡ false
unfolding exact_match navigate entity_ids has
is_alias-cons_none c a i cs ids e = ground arith

-- A child that is missing is as good as an empty one.
pub is_alias-cons :
    (c : ℕ) (a i : Text) (cs : Children) (ids : List Text)
    → is_alias (c ∷ a) i (node cs ids) ≡ is_alias a i (child_or_new (get_child c cs))
unfolding child_or_new
is_alias-cons c a i cs ids = elim (Option-cases (get_child c cs)) [
  | inl e ↦ is_alias-cons_none c a i cs ids e ∙ sym (simp e (is_alias-empty a i))
  | inr (n, e) ↦ is_alias-cons_some c a i cs ids n e ∙ simp e refl
]

is_alias-set_child :
    (c d : ℕ) (a i : Text) (m : Node) (cs : Children) (ids : List Text)
    → is_alias (d ∷ a) i (node (set_child c m cs) ids)
      ≡ (if c == d then is_alias a i m else is_alias (d ∷ a) i (node cs ids))
unfolding child_or_new
is_alias-set_child c d a i m cs ids =
    is_alias-cons d a i (set_child c m cs) ids
    ∙ ap (λ o. is_alias a i (child_or_new o)) (get_child-set_child c d m cs)
    ∙ (elim (Bool-cases (c == d)) [
      | inl e ↦ simp e refl
      | inr e ↦ simp e (sym (is_alias-cons d a i cs ids))
    ])

-- The ids at a node do not matter to longer aliases.
pub is_alias-ids :
    (c : ℕ) (a i : Text) (cs : Children) (ids other : List Text)
    → is_alias (c ∷ a) i (node cs ids) ≡ is_alias (c ∷ a) i (node cs other)
is_alias-ids c a i cs ids other = is_alias-cons c a i cs ids ∙ sym (is_alias-cons c a i cs other)

is_alias-same :
    (c d : ℕ) (a i : Text) (cs : Children) (ids : List Text)
    → c == d ≡ true
    → is_alias (d ∷ a) i (node cs ids) ≡ is_alias a i (child_or_new (get_child c cs))
is_alias-same c d a i cs ids e =
    is_alias-cons d a i cs ids
    ∙ ap (λ x. is_alias a i (child_or_new (get_child x cs))) (sym ((==_iff c d).0 e))

-- An insertion adds its pair and no other.
pub is_alias-insert_from :
    (b a i j : Text) (n : Node)
    → is_alias a i (insert_from b j n) ≡ ((text_eq b a && text_eq j i) || is_alias a i n)
unfolding insert_from text_eq exact_match navigate entity_ids
is_alias-insert_from [] [] i j (node cs ids) = has-add_to i j ids
is_alias-insert_from [] (c ∷ a) i j (node cs ids) = is_alias-ids c a i cs (add_to j ids) ids
is_alias-insert_from (c ∷ b) [] i j (node cs ids) = refl
is_alias-insert_from (c ∷ b) (d ∷ a) i j (node cs ids) =
    let m = child_or_new (get_child c cs) in
    is_alias-set_child c d a i (insert_from b j m) cs ids ∙ (elim (Bool-cases (c == d)) [
      | inl e ↦ simp e (
          is_alias-insert_from b a i j m
          ∙ ap (λ x. (text_eq b a && text_eq j i) || x) (sym (is_alias-same c d a i cs ids e)))
      | inr e ↦ simp e refl
    ])

pub remove_alias-empty : (b j : Text) → remove_alias b j empty_node ≡ empty_node
unfolding remove_alias discard get_child
remove_alias-empty [] j = refl
remove_alias-empty (c ∷ b) j = refl

pub remove_alias-none :
    (c : ℕ) (b j : Text) (cs : Children) (ids : List Text)
    → get_child c cs ≡ none
    → remove_alias (c ∷ b) j (node cs ids) ≡ node cs ids
unfolding remove_alias
remove_alias-none c b j cs ids e = ground arith

pub remove_alias-some :
    (c : ℕ) (b j : Text) (cs : Children) (ids : List Text) (n : Node)
    → get_child c cs ≡ some n
    → remove_alias (c ∷ b) j (node cs ids) ≡ node (set_child c (remove_alias b j n) cs) ids
unfolding remove_alias
remove_alias-some c b j cs ids n e = ground arith

-- A removal below a character is one in its child.
is_alias-remove_cons :
    (c d : ℕ) (b a i j : Text) (cs : Children) (ids : List Text)
    → is_alias (d ∷ a) i (remove_alias (c ∷ b) j (node cs ids)) ≡ (
        if c == d
        then is_alias a i (remove_alias b j (child_or_new (get_child c cs)))
        else is_alias (d ∷ a) i (node cs ids))
unfolding child_or_new
is_alias-remove_cons c d b a i j cs ids = elim (Option-cases (get_child c cs)) [
  | inl e ↦
      ap (is_alias (d ∷ a) i) (remove_alias-none c b j cs ids e) ∙ (elim (Bool-cases (c == d)) [
        | inl same ↦ simp same (
            is_alias-same c d a i cs ids same
            ∙ simp e (ap (is_alias a i) (sym (remove_alias-empty b j))))
        | inr other ↦ simp other refl
      ])
  | inr (n, e) ↦
      ap (is_alias (d ∷ a) i) (remove_alias-some c b j cs ids n e)
      ∙ is_alias-set_child c d a i (remove_alias b j n) cs ids
      ∙ simp e refl
]

-- A removal takes its pair away and no other.
pub is_alias-remove_alias :
    (b a i j : Text) (n : Node)
    → is_alias a i (remove_alias b j n) ≡ (not (text_eq b a && text_eq j i) && is_alias a i n)
unfolding remove_alias text_eq exact_match navigate entity_ids
is_alias-remove_alias [] [] i j (node cs ids) = has-discard i j ids
is_alias-remove_alias [] (c ∷ a) i j (node cs ids) = is_alias-ids c a i cs (discard j ids) ids
is_alias-remove_alias (c ∷ b) [] i j (node cs ids) = elim (Option-cases (get_child c cs)) [
  | inl e ↦ ap (is_alias [] i) (remove_alias-none c b j cs ids e)
  | inr (n, e) ↦ ap (is_alias [] i) (remove_alias-some c b j cs ids n e)
]
is_alias-remove_alias (c ∷ b) (d ∷ a) i j (node cs ids) =
    let m = child_or_new (get_child c cs) in
    is_alias-remove_cons c d b a i j cs ids ∙ (elim (Bool-cases (c == d)) [
      | inl e ↦ simp e (
          is_alias-remove_alias b a i j m
          ∙ ap (λ x. not (text_eq b a && text_eq j i) && x) (sym (is_alias-same c d a i cs ids e)))
      | inr e ↦ simp e refl
    ])
