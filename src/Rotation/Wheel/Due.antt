-- ===== src/Rotation/Wheel/Due.antt =====
-- What `pop_due` of src/dashanan/domain/rotation_timer_wheel.py returns and what it leaves.
use dashanan.Prelude.{
  ℕ, ◌≡◌, ◌≤◌, ◌<◌, ◌↔◌, ◌⊎◌, inl, inr, refl, true, false, Bool-cases, none, some, List, [], ◌∷◌,
  arith, leb, Text, text_eq, text_eq_iff, Dict, lookup, remove, lookup-remove, All, Any, All-map,
  IsAscending, lookup-remove_self, leb→le, ◌∙◌,
}
use native.Mathlib.Nat.{le_trans}
use dashanan.Rotation.Wheel.{
  HeapEntry, ScheduledRotation, RotationTimerWheel, is_live, pop_loop, pop_due,
}

-- The entry is the current one of the item.
abbrev pub IsEntryOf : Text → ℕ → HeapEntry → Type 0
IsEntryOf i n e = (e.item_id ≡ i) × (e.generation ≡ n)

-- The item is scheduled, and an entry of its current generation is due.
abbrev pub IsDue : List HeapEntry → Dict ℕ → ℕ → Text → Type 0
IsDue heap gens as_of i =
    (n : ℕ) × (lookup i gens ≡ some n) × Any (λ e. IsEntryOf i n e × (e.due_at ≤ as_of)) heap

abbrev pub IsReturned : Text → List ScheduledRotation → Type 0
IsReturned i = Any (λ s. s.item_id ≡ i)

abbrev pub IsDistinct : List ScheduledRotation → Type 0
IsDistinct [] = Unit
IsDistinct (s ∷ rest) = (¬ IsReturned s.item_id rest) × IsDistinct rest

is_live-some :
    (gens : Dict ℕ) (e : HeapEntry)
    → is_live gens e ≡ true
    → lookup e.item_id gens ≡ some e.generation
unfolding is_live
is_live-some gens e h = ground arith

pub live-is_live :
    (gens : Dict ℕ) (e : HeapEntry) (i : Text) (n : ℕ)
    → IsEntryOf i n e
    → lookup i gens ≡ some n
    → is_live gens e ≡ true
unfolding is_live
live-is_live gens e i n h l =
    let l' : lookup e.item_id gens ≡ some n = rw h.0 l in rw (l', is_live) (ground arith)

later : (as_of d : ℕ) → leb d as_of ≡ false → as_of < d
later as_of d h = ground arith

lookup-remove-some :
    (k i : Text) (n : ℕ) (d : Dict ℕ) → lookup i (remove k d) ≡ some n → lookup i d ≡ some n
lookup-remove-some k i n d h = ground (arith, lookup-remove k i d)

pub not_same : (s t : Text) → text_eq s t ≡ false → s ≡ t → ⊥
not_same s t h e = ground (arith, text_eq_iff s t)

none_due :
    (as_of : ℕ) (P : HeapEntry → Type 0) (heap : List HeapEntry)
    → All (λ e. as_of < e.due_at) heap
    → Any (λ e. P e × (e.due_at ≤ as_of)) heap
    → ⊥
none_due as_of P [] a h = h
none_due as_of P (e ∷ heap) a (inl h) = omega arith
none_due as_of P (e ∷ heap) a (inr h) = none_due as_of P heap a.1 h

module _ (as_of : ℕ) where
  -- The rotations returned are due, in the order of their deadlines.
  pub pop_loop-within :
      (heap : List HeapEntry) (gens dues : Dict ℕ)
      → All (λ s. s.due_at ≤ as_of) (pop_loop as_of heap gens dues).1
  unfolding pop_loop
  pop_loop-within [] g d = tt
  pop_loop-within (e ∷ h) g d = elim (Bool-cases (leb e.due_at as_of)) [
    | inr p ↦ rw p tt
    | inl p ↦ elim (Bool-cases (is_live g e)) [
      | inl q ↦
          rw (p, q) (ground arith, pop_loop-within h (remove e.item_id g) (remove e.item_id d))
      | inr q ↦ rw (p, q) (pop_loop-within h g d)
    ]
  ]

  pop_loop-All :
      (P : ℕ → Type 0) (heap : List HeapEntry) (gens dues : Dict ℕ)
      → All (λ e. P e.due_at) heap
      → All (λ s. P s.due_at) (pop_loop as_of heap gens dues).1
  unfolding pop_loop
  pop_loop-All P [] g d a = tt
  pop_loop-All P (e ∷ h) g d a = elim (Bool-cases (leb e.due_at as_of)) [
    | inr p ↦ rw p tt
    | inl p ↦ elim (Bool-cases (is_live g e)) [
      | inl q ↦ rw (p, q) (a.0, pop_loop-All P h (remove e.item_id g) (remove e.item_id d) a.1)
      | inr q ↦ rw (p, q) (pop_loop-All P h g d a.1)
    ]
  ]

  pub pop_loop-IsAscending :
      (heap : List HeapEntry) (gens dues : Dict ℕ)
      → IsAscending (λ e. e.due_at) heap
      → IsAscending (λ s. s.due_at) (pop_loop as_of heap gens dues).1
        × IsAscending (λ e. e.due_at) (pop_loop as_of heap gens dues).0.heap
        × All (λ e. as_of < e.due_at) (pop_loop as_of heap gens dues).0.heap
  unfolding pop_loop
  pop_loop-IsAscending [] g d a = (tt, tt, tt)
  pop_loop-IsAscending (e ∷ h) g d a = elim (Bool-cases (leb e.due_at as_of)) [
    | inr p ↦ rw p (
      tt,
      a,
      (
        later as_of e.due_at p,
        All-map (λ x. e.due_at ≤ x.due_at) (λ x. as_of < x.due_at)
            (λ x q. le_trans (later as_of e.due_at p) q) h a.0,
      ),
    )
    | inl p ↦ elim (Bool-cases (is_live g e)) [
      | inl q ↦
          let g' = remove e.item_id g in
          let d' = remove e.item_id d in
          let (s, r, b) = pop_loop-IsAscending h g' d' a.1 in
          rw (p, q) ((pop_loop-All (λ t. e.due_at ≤ t) h g' d' a.0, s), r, b)
      | inr q ↦ rw (p, q) (pop_loop-IsAscending h g d a.1)
    ]
  ]

  pub pop_loop-IsReturned→IsDue :
      (i : Text) (heap : List HeapEntry) (gens dues : Dict ℕ)
      → IsReturned i (pop_loop as_of heap gens dues).1
      → IsDue heap gens as_of i
  unfolding pop_loop
  pop_loop-IsReturned→IsDue i [] g d r = elim r [ ]
  pop_loop-IsReturned→IsDue i (e ∷ h) g d r = elim (Bool-cases (leb e.due_at as_of)) [
    | inr p ↦ absurd (rw p at r)
    | inl p ↦ elim (Bool-cases (is_live g e)) [
      | inl q ↦
          let r' : (e.item_id ≡ i)
              ⊎ IsReturned i (pop_loop as_of h (remove e.item_id g) (remove e.item_id d)).1 =
            rw (p, q) at r in
          elim r' [
            | inl here ↦ (
              e.generation,
              rw (← here) (is_live-some g e q),
              inl ((here, refl), leb→le e.due_at as_of p),
            )
            | inr there ↦
                let (n, l, a) =
                  pop_loop-IsReturned→IsDue i h (remove e.item_id g) (remove e.item_id d) there in
                (n, lookup-remove-some e.item_id i n g l, inr a)
          ]
      | inr q ↦
          let r' : IsReturned i (pop_loop as_of h g d).1 = rw (p, q) at r in
          let (n, l, a) = pop_loop-IsReturned→IsDue i h g d r' in (n, l, inr a)
    ]
  ]

  pub pop_loop-IsDue→IsReturned :
      (i : Text) (heap : List HeapEntry) (gens dues : Dict ℕ)
      → IsAscending (λ e. e.due_at) heap
      → IsDue heap gens as_of i
      → IsReturned i (pop_loop as_of heap gens dues).1
  unfolding pop_loop
  pop_loop-IsDue→IsReturned i [] g d a (n, l, r) = elim r [ ]
  pop_loop-IsDue→IsReturned i (e ∷ h) g d a (n, l, r) = elim (Bool-cases (leb e.due_at as_of)) [
    | inr p ↦
        let lo = later as_of e.due_at p in
        absurd (
          none_due as_of (IsEntryOf i n) (e ∷ h)
            (
              lo,
              All-map (λ x. e.due_at ≤ x.due_at) (λ x. as_of < x.due_at) (λ x q. le_trans lo q) h
                  a.0,
            )
            r)
    | inl p ↦ elim (Bool-cases (is_live g e)) [
      | inl q ↦
          rw (p, q)
            (elim (Bool-cases (text_eq e.item_id i)) [
              | inl same ↦ inl ((text_eq_iff e.item_id i).0 same)
              | inr other ↦ inr (
                  pop_loop-IsDue→IsReturned i h (remove e.item_id g) (remove e.item_id d) a.1 (
                    n,
                    rw (lookup-remove, other) l,
                    elim r [
                      | inl here ↦ absurd (not_same e.item_id i other here.0.0)
                      | inr there ↦ there
                    ],
                  ))
            ])
      | inr q ↦
          rw (p, q)
            (pop_loop-IsDue→IsReturned i h g d a.1 (
              n,
              l,
              elim r [
                | inl here ↦ absurd (ground (arith, live-is_live g e i n here.0 l))
                | inr there ↦ there
              ],
            ))
    ]
  ]

  pub pop_loop-lookup :
      (i : Text) (heap : List HeapEntry) (gens dues : Dict ℕ)
      → (lookup i (pop_loop as_of heap gens dues).0.generation ≡ lookup i gens)
        ⊎ (IsReturned i (pop_loop as_of heap gens dues).1
            × (lookup i (pop_loop as_of heap gens dues).0.generation ≡ none))
  unfolding pop_loop
  pop_loop-lookup i [] g d = inl refl
  pop_loop-lookup i (e ∷ h) g d = elim (Bool-cases (leb e.due_at as_of)) [
    | inr p ↦ rw p (inl refl)
    | inl p ↦ elim (Bool-cases (is_live g e)) [
      | inl q ↦
          rw (p, q)
            (elim (pop_loop-lookup i h (remove e.item_id g) (remove e.item_id d)) [
              | inl kept ↦ elim (Bool-cases (text_eq e.item_id i)) [
                | inl same ↦
                    inr (inl ((text_eq_iff e.item_id i).0 same), kept ∙ (rw (lookup-remove, same)))
                | inr other ↦ inl (kept ∙ (rw (lookup-remove, other)))
              ]
              | inr (r, gone) ↦ inr (inr r, gone)
            ])
      | inr q ↦ rw (p, q) (pop_loop-lookup i h g d)
    ]
  ]

  -- What was returned is no longer scheduled.
  pub pop_loop-unscheduled :
      (i : Text) (heap : List HeapEntry) (gens dues : Dict ℕ)
      → IsReturned i (pop_loop as_of heap gens dues).1
      → lookup i (pop_loop as_of heap gens dues).0.generation ≡ none
  unfolding pop_loop
  pop_loop-unscheduled i [] g d r = elim r [ ]
  pop_loop-unscheduled i (e ∷ h) g d r = elim (Bool-cases (leb e.due_at as_of)) [
    | inr p ↦ absurd (rw p at r)
    | inl p ↦ elim (Bool-cases (is_live g e)) [
      | inl q ↦
          let g' = remove e.item_id g in
          let d' = remove e.item_id d in
          let r' : (e.item_id ≡ i) ⊎ IsReturned i (pop_loop as_of h g' d').1 = rw (p, q) at r in
          rw (p, q)
            (elim r' [
              | inl here ↦ elim (pop_loop-lookup i h g' d') [
                | inl kept ↦ kept ∙ rw here (lookup-remove_self i g)
                | inr (_, gone) ↦ gone
              ]
              | inr there ↦ pop_loop-unscheduled i h g' d' there
            ])
      | inr q ↦ rw (p, q) (pop_loop-unscheduled i h g d (rw (p, q) at r))
    ]
  ]

  pub pop_loop-IsDistinct :
      (heap : List HeapEntry) (gens dues : Dict ℕ) → IsDistinct (pop_loop as_of heap gens dues).1
  unfolding pop_loop
  pop_loop-IsDistinct [] g d = tt
  pop_loop-IsDistinct (e ∷ h) g d = elim (Bool-cases (leb e.due_at as_of)) [
    | inr p ↦ rw p tt
    | inl p ↦ elim (Bool-cases (is_live g e)) [
      | inl q ↦
          let g' = remove e.item_id g in
          let d' = remove e.item_id d in
          rw (p, q)
            (
              λ r.
                  let (n, l, _) = pop_loop-IsReturned→IsDue e.item_id h g' d' r in
                  cc (lookup-remove_self e.item_id g, l),
              pop_loop-IsDistinct h g' d',
            )
      | inr q ↦ rw (p, q) (pop_loop-IsDistinct h g d)
    ]
  ]

-- From a wheel whose heap is in order, `pop_due` returns an item exactly when the item is
-- scheduled and an entry of its current generation is due.
pub pop_due_iff :
    (w : RotationTimerWheel) (as_of : ℕ) (i : Text)
    → IsAscending (λ e. e.due_at) w.heap
    → IsReturned i (pop_due w as_of).1 ↔ IsDue w.heap w.generation as_of i
unfolding pop_due
pop_due_iff w as_of i a = (
  pop_loop-IsReturned→IsDue as_of i w.heap w.generation w.due_at_by_item,
  pop_loop-IsDue→IsReturned as_of i w.heap w.generation w.due_at_by_item a,
)

-- From a wheel whose heap is in order, the rotations that `pop_due` returns come in the order of
-- their deadlines, each deadline at or before the instant, no item twice, and none of their items
-- is scheduled afterwards; every entry left in the heap is later than the instant.
pub pop_due_order :
    (w : RotationTimerWheel) (as_of : ℕ)
    → IsAscending (λ e. e.due_at) w.heap
    → IsAscending (λ s. s.due_at) (pop_due w as_of).1
      × All (λ s. s.due_at ≤ as_of) (pop_due w as_of).1
      × IsDistinct (pop_due w as_of).1
      × ((i : Text)
          → IsReturned i (pop_due w as_of).1
          → lookup i (pop_due w as_of).0.generation ≡ none)
      × All (λ e. as_of < e.due_at) (pop_due w as_of).0.heap
unfolding pop_due
pop_due_order w as_of a =
    let h = w.heap in
    let g = w.generation in
    let d = w.due_at_by_item in
    let (s, _, b) = pop_loop-IsAscending as_of h g d a in
    (
      s,
      pop_loop-within as_of h g d,
      pop_loop-IsDistinct as_of h g d,
      λ i. pop_loop-unscheduled as_of i h g d,
      b,
    )
