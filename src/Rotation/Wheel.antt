-- ===== src/Rotation/Wheel.antt =====
-- src/dashanan/domain/rotation_timer_wheel.py. A `datetime` is its number of microseconds. The
-- list that `heapq` manages is modelled by what `heapq` documents of it: pops come in ascending
-- order of the tuples, so the list is kept in that order.
pub mod Due
pub mod Reach
use dashanan.Prelude.{
  ℕ, ◌+◌, Bool, false, ◌&&◌, ◌||◌, none, some, List, [], ◌∷◌, ltb, leb, ◌==◌, if◌then◌else◌, Text,
  text_lt, is_blank, Dict, lookup, insert, remove, insert_sorted, length, Result, ok, raise,
  value_error,
}

-- A tuple of the heap: `(due_at, generation, item_id)`.
pub record HeapEntry : Type 0 where
  pub due_at : ℕ
  pub generation : ℕ
  pub item_id : Text

pub record ScheduledRotation : Type 0 where
  pub item_id : Text
  pub due_at : ℕ

pub record RotationTimerWheel : Type 0 where
  pub heap : List HeapEntry
  pub generation : Dict ℕ
  pub due_at_by_item : Dict ℕ

-- The order of the tuples.
unfoldable pub entry_lt : HeapEntry → HeapEntry → Bool
unfolding text_lt
entry_lt a b =
    ltb a.due_at b.due_at
    || ((a.due_at == b.due_at)
        && (ltb a.generation b.generation
            || ((a.generation == b.generation) && text_lt a.item_id b.item_id)))

abbrev pub empty_wheel : RotationTimerWheel
empty_wheel = record { heap = []; generation = []; due_at_by_item = [] }

unfoldable pub size : RotationTimerWheel → ℕ
size w = length w.generation

-- `self._generation.get(item_id, 0) + 1`
unfoldable pub next_generation : RotationTimerWheel → Text → ℕ
unfolding lookup
next_generation w item_id = elim (lookup item_id w.generation) [ none ↦ 0 + 1 | some g ↦ g + 1 ]

unfoldable pub push_entry : RotationTimerWheel → Text → ℕ → RotationTimerWheel
unfolding next_generation insert insert_sorted entry_lt
push_entry w item_id due_at =
    let generation = next_generation w item_id in
    record {
      heap =
          insert_sorted entry_lt
            (record { due_at = due_at; generation = generation; item_id = item_id }) w.heap;
      generation = insert item_id generation w.generation;
      due_at_by_item = insert item_id due_at w.due_at_by_item;
    }

unfoldable pub schedule : RotationTimerWheel → Text → ℕ → Result RotationTimerWheel
unfolding push_entry is_blank
schedule w item_id due_at =
    if is_blank item_id then raise value_error else ok (push_entry w item_id due_at)

unfoldable pub invalidate : RotationTimerWheel → Text → RotationTimerWheel
unfolding remove
invalidate w item_id = record w {
  generation = remove item_id w.generation;
  due_at_by_item = remove item_id w.due_at_by_item;
}

-- `self._generation.get(item_id) == generation`
unfoldable pub is_live : Dict ℕ → HeapEntry → Bool
unfolding lookup
is_live generations e = elim (lookup e.item_id generations) [
  | none ↦ false
  | some g ↦ g == e.generation
]

-- The loop of `pop_due` over the heap and the two dicts.
unfoldable pub pop_loop :
    ℕ → List HeapEntry → Dict ℕ → Dict ℕ → RotationTimerWheel × List ScheduledRotation
unfolding is_live remove
pop_loop as_of [] gens dues = (record { heap = []; generation = gens; due_at_by_item = dues }, [])
pop_loop as_of (e ∷ heap) gens dues =
    let stale = pop_loop as_of heap gens dues in
    let popped = pop_loop as_of heap (remove e.item_id gens) (remove e.item_id dues) in
    if leb e.due_at as_of
    then (if is_live gens e
        then (popped.0, record { item_id = e.item_id; due_at = e.due_at } ∷ popped.1)
        else stale)
    else (record { heap = e ∷ heap; generation = gens; due_at_by_item = dues }, [])

unfoldable pub pop_due : RotationTimerWheel → ℕ → RotationTimerWheel × List ScheduledRotation
unfolding pop_loop
pop_due w as_of = pop_loop as_of w.heap w.generation w.due_at_by_item
