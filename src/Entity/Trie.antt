-- ===== src/Entity/Trie.antt =====
-- `AliasTrie` of src/dashanan/domain/entity_alias_trie.py. A node and the `dict` of its children are
-- one mutual type; a method that goes down the path of an alias is a recursion on the alias.
use dashanan.Prelude.{
  ℕ, Bool, true, false, Option, none, some, List, [], ◌∷◌, ◌==◌, if◌then◌else◌, Text, is_blank,
  add_to, discard, union, Result, ok, raise, value_error,
}

mutual
  -- `_AliasTrieNode`: the children and the `entity_ids`.
  pub data Node : Type 0 where
    node : Children → List Text → Node

  -- The `dict` of the children, in the order of insertion.
  pub data Children : Type 0 where
    no_child : Children
    child : ℕ → Node → Children → Children

abbrev pub empty_node : Node
empty_node = node no_child []

-- `node.children.get(char)`
unfoldable pub get_child : ℕ → Children → Option Node
get_child c no_child = none
get_child c (child d n cs) = if d == c then some n else get_child c cs

-- The children with another node at a character.
unfoldable pub set_child : ℕ → Node → Children → Children
set_child c m no_child = child c m no_child
set_child c m (child d n cs) =
    let rest = set_child c m cs in if d == c then child d m cs else child d n rest

-- The node that `setdefault` gives.
unfoldable pub child_or_new : Option Node → Node
child_or_new none = empty_node
child_or_new (some n) = n

-- The loop of `insert` and the addition behind it.
unfoldable pub insert_from : Text → Text → Node → Node
unfolding get_child set_child child_or_new add_to
insert_from [] id (node cs ids) = node cs (add_to id ids)
insert_from (c ∷ alias) id (node cs ids) =
    node (set_child c (insert_from alias id (child_or_new (get_child c cs))) cs) ids

unfoldable pub is_empty : Text → Bool
is_empty [] = true
is_empty (c ∷ s) = false

-- `AliasTrie.insert`
unfoldable pub insert_alias : Text → Text → Node → Result Node
unfolding insert_from is_blank is_empty
insert_alias alias id trie =
    if is_empty alias
    then raise value_error
    else if is_blank id
    then raise value_error
    else ok (insert_from alias id trie)

-- `AliasTrie._navigate`
unfoldable pub navigate : Text → Node → Option Node
unfolding get_child
navigate [] n = some n
navigate (c ∷ term) (node cs ids) = elim (get_child c cs) [ none ↦ none | some n ↦ navigate term n ]

-- `AliasTrie.remove`: the node that `_navigate` finds loses the id, in place.
unfoldable pub remove_alias : Text → Text → Node → Node
unfolding get_child set_child discard
remove_alias [] id (node cs ids) = node cs (discard id ids)
remove_alias (c ∷ alias) id (node cs ids) = elim (get_child c cs) [
  | none ↦ node cs ids
  | some n ↦ node (set_child c (remove_alias alias id n) cs) ids
]

unfoldable pub entity_ids : Option Node → List Text
entity_ids none = []
entity_ids (some (node cs ids)) = ids

-- `AliasTrie.exact_match`
unfoldable pub exact_match : Text → Node → List Text
unfolding navigate entity_ids
exact_match term trie = entity_ids (navigate term trie)

-- `AliasTrie._collect`
unfoldable mutual
  unfolding union

  pub collect : Node → List Text → List Text
  collect (node cs ids) into = collect_children cs (union into ids)

  pub collect_children : Children → List Text → List Text
  collect_children no_child into = into
  collect_children (child c n cs) into = collect_children cs (collect n into)

unfoldable pub collect_found : Option Node → List Text
unfolding collect
collect_found none = []
collect_found (some n) = collect n []

-- `AliasTrie.prefix_search`
unfoldable pub prefix_search : Text → Node → List Text
unfolding navigate collect_found
prefix_search prefix trie = collect_found (navigate prefix trie)
