-- ===== src/Backstop/Overflow.antt =====
-- The items over the capacity in src/dashanan/domain/zone2_capacity_backstop.py are the lowest ones.
use mathlib.Core.List.Perm
use dashanan.Prelude.{
  ℕ, zero, suc, ◌-◌, ◌≡◌, sym, subst, Bool-cases, inl, inr, true, false, List, [], ◌∷◌, ◌++◌, Perm,
  arith, ◌==◌, All, All-drop, length, take, drop, length-take, take-append-drop, sorted,
  sorted-perm, length-sorted, IsSortedBy, sorted-IsSortedBy, Text, text_lt,
}
use dashanan.Prelude.Floats.{Floats}
use dashanan.Backstop.{EvictionCandidate, ranks_before, select_capacity_overflow}

text_lt_asym : (a b : Text) → text_lt a b ≡ true → text_lt b a ≡ false
unfolding text_lt
text_lt_asym [] [] h = ground arith
text_lt_asym [] (d ∷ b) h = ground arith
text_lt_asym (c ∷ a) [] h = ground arith
text_lt_asym (c ∷ a) (d ∷ b) h = ground (arith, text_lt_asym a b)

text_lt_trans : (a b c : Text) → text_lt b a ≡ false → text_lt c b ≡ false → text_lt c a ≡ false
unfolding text_lt
text_lt_trans [] b [] h k = ground arith
text_lt_trans [] [] (z ∷ c) h k = ground arith
text_lt_trans [] (y ∷ b) (z ∷ c) h k = ground arith
text_lt_trans (x ∷ a) [] c h k = ground arith
text_lt_trans (x ∷ a) (y ∷ b) [] h k = ground arith
text_lt_trans (x ∷ a) (y ∷ b) (z ∷ c) h k = ground (arith, text_lt_trans a b c)

module _ (f : Floats) where
  ranks_before_asym :
      (a b : EvictionCandidate f) → ranks_before f a b ≡ true → ranks_before f b a ≡ false
  unfolding ranks_before
  ranks_before_asym a b h =
      ground (arith, f.le-total a.memory_score b.memory_score, text_lt_asym a.item_id b.item_id)

  ranks_before_trans :
      (a b c : EvictionCandidate f)
      → ranks_before f b a ≡ false
      → ranks_before f c b ≡ false
      → ranks_before f c a ≡ false
  unfolding ranks_before
  ranks_before_trans a b c h k = ground (
    arith,
    f.le-total a.memory_score b.memory_score,
    f.le-total b.memory_score c.memory_score,
    f.le-total a.memory_score c.memory_score,
    f.le-trans a.memory_score b.memory_score c.memory_score,
    f.le-trans c.memory_score b.memory_score a.memory_score,
    f.le-trans b.memory_score a.memory_score c.memory_score,
    f.le-trans b.memory_score c.memory_score a.memory_score,
    f.le-trans a.memory_score c.memory_score b.memory_score,
    f.le-trans c.memory_score a.memory_score b.memory_score,
    text_lt_trans a.item_id b.item_id c.item_id,
  )

  abbrev pub IsBelow : List (EvictionCandidate f) → EvictionCandidate f → Type 0
  IsBelow kept c = All (λ k. ranks_before f k c ≡ false) kept

  take-IsBelow :
      (n : ℕ) (cs : List (EvictionCandidate f))
      → IsSortedBy (ranks_before f) cs
      → All (IsBelow (drop n cs)) (take n cs)
  take-IsBelow zero cs s = tt
  take-IsBelow (suc n) [] s = tt
  take-IsBelow (suc n) (c ∷ cs) s =
      (All-drop (λ k. ranks_before f k c ≡ false) n cs s.0, take-IsBelow n cs s.1)

  -- The candidates are the selected ones and the others; the selected ones are as many as the
  -- capacity is exceeded by, and no other ranks before one of them.
  pub select_capacity_overflow_lem :
      (candidates : List (EvictionCandidate f)) (cap : ℕ)
      → (length (select_capacity_overflow f candidates cap) ≡ length candidates - cap)
        × ((kept : List (EvictionCandidate f)) × Perm
              (select_capacity_overflow f candidates cap ++ kept)
              candidates
            × All (IsBelow kept) (select_capacity_overflow f candidates cap))
  unfolding select_capacity_overflow
  select_capacity_overflow_lem candidates cap =
      let n = length candidates - cap in
      let ranked = sorted (ranks_before f) candidates in
      elim (Bool-cases (n == 0)) [
        | inl e ↦ rw e (ground arith, (candidates, Perm.refl candidates, tt))
        | inr e ↦ rw e (
          omega (arith, length-take n ranked, length-sorted (ranks_before f) candidates),
          (
            drop n ranked,
            subst (λ l. Perm l candidates) (sym (take-append-drop n ranked))
                (sorted-perm (ranks_before f) candidates),
            take-IsBelow n ranked (
                sorted-IsSortedBy (ranks_before f) ranks_before_asym ranks_before_trans candidates),
          ),
        )
      ]
