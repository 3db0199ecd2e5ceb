-- ===== src/Rotation/Wheel/Reach.antt =====
-- The invariant of the wheel of src/dashanan/domain/rotation_timer_wheel.py under its three
-- operations, and that a deadline is kept.
use dashanan.Prelude.{
  ℕ, ◌≡◌, ◌≤◌, ◌<◌, inl, inr, refl, Bool, true, false, Bool-cases, none, some, List, [], ◌∷◌, arith,
  leb, Text, text_eq, text_eq_iff, text_eq_refl, Dict, lookup, insert, remove, lookup-insert,
  lookup-insert_self, lookup-remove, Any, IsAscending, Any-insert_sorted, insert_sorted-IsAscending,
  ok, ◌∙◌, is_blank, ◌&&◌, ◌||◌, ltb, ◌==◌,
}
use dashanan.Rotation.Wheel.{
  HeapEntry, RotationTimerWheel, entry_lt, empty_wheel, next_generation, push_entry, schedule,
  invalidate, is_live, pop_loop, pop_due,
}
use dashanan.Rotation.Wheel.Due.{
  IsEntryOf, IsReturned, live-is_live, not_same, pop_loop-IsAscending, pop_loop-lookup, pop_due_iff,
}

-- The heap is in order, and a scheduled item has its deadline on record and an entry of its
-- current generation with that deadline.
pub record IsWheel (w : RotationTimerWheel) : Type 0 where
  pub ascending : IsAscending (λ e. e.due_at) w.heap
  pub backed :
      (i : Text) (n : ℕ)
      → lookup i w.generation ≡ some n
      → (d : ℕ) × (lookup i w.due_at_by_item ≡ some d)
        × Any (λ e. IsEntryOf i n e × (e.due_at ≡ d)) w.heap

due_before : (a b : ℕ) (t : Bool) → (ltb b a || ((b == a) && t)) ≡ true → b ≤ a
due_before a b t h = ground arith

due_after : (a b : ℕ) (t : Bool) → (ltb b a || ((b == a) && t)) ≡ false → a ≤ b
due_after a b t h = ground arith

entry_lt-before : (x y : HeapEntry) → entry_lt y x ≡ true → y.due_at ≤ x.due_at
unfolding entry_lt
entry_lt-before x y h = due_before x.due_at y.due_at _ h

entry_lt-after : (x y : HeapEntry) → entry_lt y x ≡ false → x.due_at ≤ y.due_at
unfolding entry_lt
entry_lt-after x y h = due_after x.due_at y.due_at _ h

tail_entry :
    (i : Text) (n d : ℕ) (e : HeapEntry) (h : List HeapEntry)
    → Any (λ x. IsEntryOf i n x × (x.due_at ≡ d)) (e ∷ h)
    → ¬ (e.item_id ≡ i)
    → Any (λ x. IsEntryOf i n x × (x.due_at ≡ d)) h
tail_entry i n d e h (inl here) other = absurd (other here.0.0)
tail_entry i n d e h (inr there) other = there

pub empty_wheel-IsWheel : IsWheel empty_wheel
unfolding lookup
empty_wheel-IsWheel = record { ascending = tt; backed = λ i n h. cc }

pub push_entry-IsWheel :
    (w : RotationTimerWheel) (i : Text) (d : ℕ) → IsWheel w → IsWheel (push_entry w i d)
unfolding push_entry
push_entry-IsWheel w i d v = record {
  ascending =
      insert_sorted-IsAscending entry_lt (λ e. e.due_at) entry_lt-before entry_lt-after
        (record { due_at = d; generation = next_generation w i; item_id = i }) w.heap v.ascending;
  backed = λ j n h. elim (Bool-cases (text_eq i j)) [
    | inl same ↦ (
      d,
      rw (lookup-insert, same) refl,
      Any-insert_sorted entry_lt (λ e. IsEntryOf j n e × (e.due_at ≡ d)) _ w.heap
          (inl (((text_eq_iff i j).0 same, current j n same h), refl)),
    )
    | inr other ↦
        let h' : lookup j w.generation ≡ some n = rw (lookup-insert, other) at h in
        let (t, k, a) = v.backed j n h' in
        (
          t,
          rw (lookup-insert, other) k,
          Any-insert_sorted entry_lt (λ e. IsEntryOf j n e × (e.due_at ≡ t)) _ w.heap (inr a),
        )
  ];
}
  where
    current :
        (j : Text) (n : ℕ)
        → text_eq i j ≡ true
        → lookup j (insert i (next_generation w i) w.generation) ≡ some n
        → next_generation w i ≡ n
    current j n same h = ground (arith, lookup-insert i j (next_generation w i) w.generation)

pub schedule-IsWheel :
    (w : RotationTimerWheel) (i : Text) (d : ℕ) {w' : RotationTimerWheel}
    → IsWheel w
    → schedule w i d ≡ ok w'
    → (w' ≡ push_entry w i d) × IsWheel w'
unfolding schedule
schedule-IsWheel w i d {w'} v e = elim (Bool-cases (is_blank i)) [
  | inl b ↦ absurd (ground arith)
  | inr b ↦ let p : w' ≡ push_entry w i d = ground arith in (p, rw p (push_entry-IsWheel w i d v))
]

pub invalidate-IsWheel : (w : RotationTimerWheel) (i : Text) → IsWheel w → IsWheel (invalidate w i)
unfolding invalidate
invalidate-IsWheel w i v = record {
  ascending = v.ascending;
  backed = λ j n h. elim (Bool-cases (text_eq i j)) [
    | inl same ↦ absurd (ground (arith, lookup-remove i j w.generation))
    | inr other ↦
        let h' : lookup j w.generation ≡ some n = rw (lookup-remove, other) at h in
        let (t, k, a) = v.backed j n h' in (t, rw (lookup-remove, other) k, a)
  ];
}

module _ (as_of : ℕ) where
  -- What stays scheduled keeps its deadline and its entry.
  pop_loop-backed :
      (i : Text) (n d : ℕ) (heap : List HeapEntry) (gens dues : Dict ℕ)
      → lookup i (pop_loop as_of heap gens dues).0.generation ≡ some n
      → lookup i gens ≡ some n
      → Any (λ e. IsEntryOf i n e × (e.due_at ≡ d)) heap
      → (lookup i (pop_loop as_of heap gens dues).0.due_at_by_item ≡ lookup i dues)
        × Any (λ e. IsEntryOf i n e × (e.due_at ≡ d)) (pop_loop as_of heap gens dues).0.heap
  unfolding pop_loop
  pop_loop-backed i n d [] g u l' l a = (refl, a)
  pop_loop-backed i n d (e ∷ h) g u l' l a = elim (Bool-cases (leb e.due_at as_of)) [
    | inr p ↦ rw p (refl, a)
    | inl p ↦ elim (Bool-cases (is_live g e)) [
      | inl q ↦
          let g' = remove e.item_id g in
          let u' = remove e.item_id u in
          let k : lookup i (pop_loop as_of h g' u').0.generation ≡ some n = rw (p, q) at l' in
          elim (Bool-cases (text_eq e.item_id i)) [
            | inl same ↦ absurd (elim (pop_loop-lookup as_of i h g' u') [
              | inl kept ↦ ground (arith, lookup-remove e.item_id i g)
              | inr (_, gone) ↦ cc
            ])
            | inr other ↦
                let (s, r) =
                  pop_loop-backed i n d h g' u' k (rw (lookup-remove, other) l)
                    (tail_entry i n d e h a (not_same e.item_id i other)) in
                rw (p, q) (s ∙ rw (lookup-remove, other), r)
          ]
      | inr q ↦
          rw (p, q)
            (pop_loop-backed i n d h g u (rw (p, q) at l') l (elim a [
              | inl here ↦ absurd (ground (arith, live-is_live g e i n here.0 l))
              | inr there ↦ there
            ]))
    ]
  ]

  pub pop_due-IsWheel : (w : RotationTimerWheel) → IsWheel w → IsWheel (pop_due w as_of).0
  unfolding pop_due
  pop_due-IsWheel w v =
      let g = w.generation in
      let u = w.due_at_by_item in
      record {
        ascending = (pop_loop-IsAscending as_of w.heap g u v.ascending).1;
        backed = λ i n l. elim (pop_loop-lookup as_of i w.heap g u) [
          | inl kept ↦
              let old : lookup i g ≡ some n = cc in
              let (d, k, a) = v.backed i n old in
              let (s, r) = pop_loop-backed i n d w.heap g u l old a in (d, s ∙ k, r)
          | inr (_, gone) ↦ absurd (ground arith)
        ];
      }

-- One call of a method of the wheel: `schedule` that does not raise, `invalidate`, `pop_due`.
pub data Step : RotationTimerWheel → RotationTimerWheel → Type 0 where
  scheduled : {w w' : RotationTimerWheel} (i : Text) (d : ℕ) → schedule w i d ≡ ok w' → Step w w'
  invalidated : {w : RotationTimerWheel} (i : Text) → Step w (invalidate w i)
  popped : {w : RotationTimerWheel} (as_of : ℕ) → Step w (pop_due w as_of).0

pub data Reach : RotationTimerWheel → Type 0 where
  start : Reach empty_wheel
  next : {w w' : RotationTimerWheel} → Reach w → Step w w' → Reach w'

Step-IsWheel : {w w' : RotationTimerWheel} → Step w w' → IsWheel w → IsWheel w'
Step-IsWheel (scheduled {w = w} i d e) v = (schedule-IsWheel w i d v e).1
Step-IsWheel (invalidated {w = w} i) v = invalidate-IsWheel w i v
Step-IsWheel (popped {w = w} as_of) v = pop_due-IsWheel as_of w v

-- On every wheel that calls of `schedule`, `invalidate` and `pop_due` reach from an empty one, the
-- heap is in the order of the deadlines, and each scheduled item has a deadline on record and an
-- entry of its current generation with that deadline.
pub Reach-IsWheel : {w : RotationTimerWheel} → Reach w → IsWheel w
Reach-IsWheel start = empty_wheel-IsWheel
Reach-IsWheel (next r s) = Step-IsWheel s (Reach-IsWheel r)

-- On a reachable wheel, a `schedule` of an item at `d` that does not raise leaves a wheel on which a
-- `pop_due` at any instant not before `d`, called right then, returns the item.
pub schedule-IsReturned :
    {w w' : RotationTimerWheel} (i : Text) (d as_of : ℕ)
    → Reach w
    → schedule w i d ≡ ok w'
    → d ≤ as_of
    → IsReturned i (pop_due w' as_of).1
unfolding push_entry
schedule-IsReturned {w} {w'} i d as_of r e late =
    let (p, v) = schedule-IsWheel w i d (Reach-IsWheel r) e in
    let n = next_generation w i in
    let l : lookup i w'.generation ≡ some n = rw p (lookup-insert_self i n w.generation) in
    (pop_due_iff w' as_of i v.ascending).1 (
      n,
      l,
      rw p (
          Any-insert_sorted entry_lt (λ x. IsEntryOf i n x × (x.due_at ≤ as_of)) _ w.heap
            (inl ((refl, refl), late))),
    )

-- The sequence `schedule i t`, `invalidate i`, `schedule i u` on an empty wheel gives both entries
-- the generation 1. If `t` is due and `u` is later, `pop_due` returns the item at its withdrawn
-- deadline `t`, and the item is then not scheduled at all: the deadline `u` is lost.
pub invalidate_reuses_generation :
    (i : Text) (t u as_of : ℕ)
    → t ≤ as_of
    → as_of < u
    → let w = push_entry (invalidate (push_entry empty_wheel i t) i) i u in
      ((pop_due w as_of).1 ≡ record { item_id = i; due_at = t } ∷ [])
      × (lookup i (pop_due w as_of).0.generation ≡ none)
      × (lookup i (pop_due w as_of).0.due_at_by_item ≡ none)
unfolding push_entry invalidate pop_due
invalidate_reuses_generation i t u as_of h k = ground (arith, text_eq_refl i)
