-- ===== src/Working/Sweep.antt =====
-- The sweep of src/dashanan/infrastructure/working_memory_lru_repository.py stops at the first item
-- that is not expired. In the order of the accesses it misses none.
use dashanan.Prelude.{
  ℕ, ◌≡◌, ◌≤◌, refl, Bool-cases, inl, inr, false, not, [], ◌∷◌, map, arith, ap, keep_if, All,
  IsAscending,
}
use dashanan.Working.{WorkingItem, Items, is_expired, evict_expired_locked}

abbrev pub IsByAccess : Items → Type 0
IsByAccess = IsAscending (λ i. i.last_access_at)

none_expired :
    (ttl now : ℕ) (i : WorkingItem) (items : Items)
    → is_expired ttl now i ≡ false
    → All (λ j. i.last_access_at ≤ j.last_access_at) items
    → (keep_if (λ j. not (is_expired ttl now j)) items ≡ items)
      × (keep_if (is_expired ttl now) items ≡ [])
unfolding is_expired
none_expired ttl now i [] e a = (refl, refl)
none_expired ttl now i (j ∷ items) e a =
    let later : is_expired ttl now j ≡ false = ground arith in
    let (p, q) = none_expired ttl now i items e a.1 in (ground arith, ground arith)

-- If the items are in the order of their last accesses, then the sweep keeps exactly the items that
-- are not expired and evicts exactly those that are, both in their order, though it looks at no
-- item behind the first one that is not expired.
pub evict_expired_locked_exact :
    (ttl now : ℕ) (items : Items)
    → IsByAccess items
    → ((evict_expired_locked ttl now items).0 ≡ keep_if (λ i. not (is_expired ttl now i)) items)
      × ((evict_expired_locked ttl now items).1
          ≡ map (λ i. i.item_id) (keep_if (is_expired ttl now) items))
unfolding evict_expired_locked
evict_expired_locked_exact ttl now [] a = (refl, refl)
evict_expired_locked_exact ttl now (i ∷ items) a = elim (Bool-cases (is_expired ttl now i)) [
  | inl e ↦
      let (p, q) = evict_expired_locked_exact ttl now items a.1 in
      (rw e p, rw e (ap (◌∷◌ i.item_id) q))
  | inr e ↦
      let (p, q) = none_expired ttl now i items e a.0 in (ground (arith, p), ground (arith, q))
]
