-- ===== src/Context/Fill.antt =====
-- The greedy fill of src/dashanan/application/context_assembly_builder.py: what it selects fits the
-- budget, is in the order of the densities, and leaves out nothing that would still fit.
use dashanan.Prelude.{
  ℕ, ◌+◌, ◌-◌, ◌≡◌, ◌≤◌, ◌<◌, ◌⊎◌, inl, inr, refl, Bool-cases, true, false, List, [], ◌∷◌, arith,
  leb, All, All-map, All-sorted, Any, Any-insert_sorted, subst, sym, IsSortedBy, sorted,
  sorted-IsSortedBy,
}
use dashanan.Prelude.Floats.{Floats, lt-asym}
use dashanan.Item.{MemoryItem}
use dashanan.Context.Builder.{
  fill, total_tokens, greedy_knapsack_fill, is_denser, density, ContextAssemblyBuilder,
}

module _ (f : Floats) where
  pub total_tokens-fill :
      (budget : ℕ) (items : List (MemoryItem f)) → total_tokens f (fill f budget items) ≤ budget
  unfolding fill total_tokens
  total_tokens-fill budget [] = omega arith
  total_tokens-fill budget (i ∷ items) =
      ground
        (arith, total_tokens-fill (budget - i.token_count) items, total_tokens-fill budget items)

  All-Any :
      (P : MemoryItem f → Type 0) (i : MemoryItem f) (items : List (MemoryItem f))
      → All P items
      → Any (λ j. j ≡ i) items
      → P i
  All-Any P i [] h a = elim a [ ]
  All-Any P i (j ∷ items) h (inl e) = subst P e h.0
  All-Any P i (j ∷ items) h (inr a) = All-Any P i items h.1 a

  Any-sorted :
      (i : MemoryItem f) (items : List (MemoryItem f))
      → Any (λ j. j ≡ i) items
      → Any (λ j. j ≡ i) (sorted (is_denser f) items)
  unfolding sorted
  Any-sorted i [] a = elim a [ ]
  Any-sorted i (j ∷ items) (inl e) =
      Any-insert_sorted (is_denser f) (λ j. j ≡ i) j (sorted (is_denser f) items) (inl e)
  Any-sorted i (j ∷ items) (inr a) =
      Any-insert_sorted (is_denser f) (λ j. j ≡ i) j (sorted (is_denser f) items)
        (inr (Any-sorted i items a))

  -- A selected item, or one that does not fit into what the selection leaves.
  abbrev pub IsChosen : ℕ → List (MemoryItem f) → MemoryItem f → Type 0
  IsChosen budget selected i =
      Any (λ j. j ≡ i) selected ⊎ (budget < total_tokens f selected + i.token_count)

  fill-All :
      (P : MemoryItem f → Type 0) (budget : ℕ) (items : List (MemoryItem f))
      → All P items
      → All P (fill f budget items)
  unfolding fill
  fill-All P budget [] h = h
  fill-All P budget (i ∷ items) h = elim (Bool-cases (leb i.token_count budget)) [
    | inl e ↦ rw e (h.0, fill-All P (budget - i.token_count) items h.1)
    | inr e ↦ rw e (fill-All P budget items h.1)
  ]

  fill-IsSortedBy :
      (budget : ℕ) (items : List (MemoryItem f))
      → IsSortedBy (is_denser f) items
      → IsSortedBy (is_denser f) (fill f budget items)
  unfolding fill
  fill-IsSortedBy budget [] h = h
  fill-IsSortedBy budget (i ∷ items) h = elim (Bool-cases (leb i.token_count budget)) [
    | inl e ↦ rw e (
      fill-All (λ j. is_denser f j i ≡ false) (budget - i.token_count) items h.0,
      fill-IsSortedBy (budget - i.token_count) items h.1,
    )
    | inr e ↦ rw e (fill-IsSortedBy budget items h.1)
  ]

  fill-fits :
      (budget : ℕ) (i : MemoryItem f) (items : List (MemoryItem f))
      → leb i.token_count budget ≡ true
      → fill f budget (i ∷ items) ≡ i ∷ fill f (budget - i.token_count) items
  unfolding fill
  fill-fits budget i items e = rw e refl

  fill-skips :
      (budget : ℕ) (i : MemoryItem f) (items : List (MemoryItem f))
      → leb i.token_count budget ≡ false
      → fill f budget (i ∷ items) ≡ fill f budget items
  unfolding fill
  fill-skips budget i items e = rw e refl

  fill-IsChosen :
      (budget : ℕ) (items : List (MemoryItem f)) → All (IsChosen budget (fill f budget items)) items
  unfolding total_tokens
  fill-IsChosen budget [] = tt
  fill-IsChosen budget (i ∷ items) = elim (Bool-cases (leb i.token_count budget)) [
    | inl e ↦
        let rest = fill f (budget - i.token_count) items in
        subst (λ s. All (IsChosen budget s) (i ∷ items)) (sym (fill-fits budget i items e))
          (
            inl (inl refl),
            All-map (IsChosen (budget - i.token_count) rest) (IsChosen budget (i ∷ rest))
                (λ j h. elim h [ inl a ↦ inl (inr a) | inr o ↦ inr (ground arith) ]) items
                (fill-IsChosen (budget - i.token_count) items),
          )
    | inr e ↦
        subst (λ s. All (IsChosen budget s) (i ∷ items)) (sym (fill-skips budget i items e))
          (inr (ground arith), fill-IsChosen budget items)
  ]

  all_self : (items : List (MemoryItem f)) → All (λ i. Any (λ j. j ≡ i) items) items
  all_self [] = tt
  all_self (i ∷ items) = (
    inl refl,
    All-map (λ k. Any (λ j. j ≡ k) items) (λ k. Any (λ j. j ≡ k) (i ∷ items)) (λ k h. inr h) items
        (all_self items),
  )

  -- What is true of all items in the order of the densities is true of all items.
  unsorted-All :
      (P : MemoryItem f → Type 0) (items : List (MemoryItem f))
      → All P (sorted (is_denser f) items)
      → All P items
  unsorted-All P items h =
      All-map (λ i. Any (λ j. j ≡ i) (sorted (is_denser f) items)) P
        (λ i a. All-Any P i (sorted (is_denser f) items) h a) items
        (All-map (λ i. Any (λ j. j ≡ i) items) (λ i. Any (λ j. j ≡ i) (sorted (is_denser f) items))
          (λ i a. Any-sorted i items a) items (all_self items))

  is_denser-asym : (a b : MemoryItem f) → is_denser f a b ≡ true → is_denser f b a ≡ false
  unfolding is_denser
  is_denser-asym a b h = lt-asym f (density f b) (density f a) h

  is_denser_trans :
      (a b c : MemoryItem f)
      → is_denser f b a ≡ false
      → is_denser f c b ≡ false
      → is_denser f c a ≡ false
  unfolding is_denser
  is_denser_trans a b c h k = ground (arith, f.le-trans (density f c) (density f b) (density f a))

  -- For every builder, the selection of the greedy fill has a total of at most the token budget, is
  -- in the order of the densities with the densest item first, has only candidates, and is maximal:
  -- each candidate is selected or does not fit into what the selection leaves of the budget.
  pub greedy_knapsack_fill-IsGreedy :
      (b : ContextAssemblyBuilder f)
      → (total_tokens f (greedy_knapsack_fill f b) ≤ b.token_budget)
        × IsSortedBy (is_denser f) (greedy_knapsack_fill f b)
        × All (λ i. Any (λ j. j ≡ i) b.candidates) (greedy_knapsack_fill f b)
        × All (IsChosen b.token_budget (greedy_knapsack_fill f b)) b.candidates
  unfolding greedy_knapsack_fill
  greedy_knapsack_fill-IsGreedy b =
      let ranked = sorted (is_denser f) b.candidates in
      (
        total_tokens-fill b.token_budget ranked,
        fill-IsSortedBy b.token_budget ranked
            (sorted-IsSortedBy (is_denser f) is_denser-asym is_denser_trans b.candidates),
        fill-All (λ i. Any (λ j. j ≡ i) b.candidates) b.token_budget ranked
            (All-sorted (is_denser f) (λ i. Any (λ j. j ≡ i) b.candidates) b.candidates
              (all_self b.candidates)),
        unsorted-All (IsChosen b.token_budget (fill f b.token_budget ranked)) b.candidates
            (fill-IsChosen b.token_budget ranked),
      )
