-- ===== src/Entity/Refine.antt =====
-- Runs of calls on the trie of src/dashanan/domain/entity_alias_trie.py against a set of pairs.
use dashanan.Prelude.{
  ◌≡◌, ◌↔◌, refl, sym, ap, ◌∙◌, subst, Bool, Option-cases, true, false, ◌&&◌, ◌||◌, not, List, [],
  ◌∷◌, ◌++◌, inl, inr, arith, Text, text_eq, is_blank, has, Result, ok, raise,
}
use dashanan.Entity.Trie.{
  Node, node, empty_node, get_child, child_or_new, insert_from, insert_alias, is_empty,
  remove_alias, exact_match, prefix_search,
}
use dashanan.Entity.Alias.{
  is_alias, is_alias-empty, is_alias-insert_from, is_alias-remove_alias, remove_alias-none,
  remove_alias-some,
}
use dashanan.Entity.Prefix.{IsTrie, get_child-IsTrie, set_child-AreTries, prefix_search_iff}

pub insert_from-IsTrie : (a i : Text) (n : Node) → IsTrie n → IsTrie (insert_from a i n)
unfolding insert_from IsTrie child_or_new
insert_from-IsTrie [] i (node cs ids) v = v
insert_from-IsTrie (c ∷ a) i (node cs ids) v =
    set_child-AreTries c (insert_from a i (child_or_new (get_child c cs))) cs v (
      insert_from-IsTrie a i (child_or_new (get_child c cs)) (elim (Option-cases (get_child c cs)) [
        | inl e ↦ simp e tt
        | inr (n, e) ↦ simp e (get_child-IsTrie c n cs v e)
      ]))

pub remove_alias-IsTrie : (a i : Text) (n : Node) → IsTrie n → IsTrie (remove_alias a i n)
unfolding remove_alias IsTrie
remove_alias-IsTrie [] i (node cs ids) v = v
remove_alias-IsTrie (c ∷ a) i (node cs ids) v = elim (Option-cases (get_child c cs)) [
  | inl e ↦ subst IsTrie (sym (remove_alias-none c a i cs ids e)) v
  | inr (n, e) ↦ subst IsTrie (sym (remove_alias-some c a i cs ids n e)) (
      set_child-AreTries c (remove_alias a i n) cs v
        (remove_alias-IsTrie a i n (get_child-IsTrie c n cs v e)))
]

pub insert_alias-eq-ok :
    (a i : Text) (n m : Node) → insert_alias a i n ≡ ok m → m ≡ insert_from a i n
unfolding insert_alias
insert_alias-eq-ok a i n m e = ground arith

-- A call that changes the trie.
pub data Call : Type 0 where
  inserts removes : Text → Text → Call

-- The trie after a call, also after one that raises.
abbrev pub after_call : Call → Node → Node
after_call (inserts alias id) n = elim (insert_alias alias id n) [ ok m ↦ m | raise e ↦ n ]
after_call (removes alias id) n = remove_alias alias id n

-- The trie after some calls, the last one first in the list.
abbrev pub run : List Call → Node
run [] = empty_node
run (k ∷ ks) = after_call k (run ks)

-- The set of pairs after the same calls: what is inserted is in it until it is removed, and no pair of
-- an empty alias or a blank entity is.
abbrev pub holds : List Call → Text → Text → Bool
holds [] a i = false
holds (inserts alias id ∷ ks) a i =
    (not (is_empty alias) && not (is_blank id) && text_eq alias a && text_eq id i) || holds ks a i
holds (removes alias id ∷ ks) a i = not (text_eq alias a && text_eq id i) && holds ks a i

kept-IsTrie :
    (r : Result Node) (n : Node)
    → IsTrie n
    → ((m : Node) → r ≡ ok m → IsTrie m)
    → IsTrie (elim r [ ok m ↦ m | raise e ↦ n ])
kept-IsTrie (ok m) n v h = h m refl
kept-IsTrie (raise e) n v h = v

run-IsTrie : (ks : List Call) → IsTrie (run ks)
unfolding IsTrie
run-IsTrie [] = tt
run-IsTrie (inserts alias id ∷ ks) =
    kept-IsTrie (insert_alias alias id (run ks)) (run ks) (run-IsTrie ks) (λ m e.
      subst IsTrie (sym (insert_alias-eq-ok alias id (run ks) m e))
        (insert_from-IsTrie alias id (run ks) (run-IsTrie ks)))
run-IsTrie (removes alias id ∷ ks) = remove_alias-IsTrie alias id (run ks) (run-IsTrie ks)

run-holds : (ks : List Call) (a i : Text) → is_alias a i (run ks) ≡ holds ks a i
unfolding insert_alias
run-holds [] a i = is_alias-empty a i
run-holds (inserts alias id ∷ ks) a i =
    ground (arith, is_alias-insert_from alias a i id (run ks), run-holds ks a i)
run-holds (removes alias id ∷ ks) a i =
    is_alias-remove_alias alias a i id (run ks)
    ∙ ap (λ x. not (text_eq alias a && text_eq id i) && x) (run-holds ks a i)

-- After any calls of `insert` and `remove`, those that raise included, the trie stands for the set of
-- the pairs inserted and not removed since: `exact_match` finds an entity exactly if its pair with the
-- term is in the set, and `prefix_search` exactly if its pair with some extension of the prefix is.
pub run_refines :
    (ks : List Call) (t i : Text)
    → (has i (exact_match t (run ks)) ≡ holds ks t i)
      × ((has i (prefix_search t (run ks)) ≡ true) ↔ ((s : Text) × (holds ks (t ++ s) i ≡ true)))
run_refines ks t i =
    let found = prefix_search_iff t i (run ks) (run-IsTrie ks) in
    (
      run-holds ks t i,
      (
        λ h. let (s, g) = found.0 h in (s, sym (run-holds ks (t ++ s) i) ∙ g),
        λ h. found.1 (h.0, run-holds ks (t ++ h.0) i ∙ h.1),
      ),
    )
