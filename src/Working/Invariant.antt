-- ===== src/Working/Invariant.antt =====
-- The invariant of a session of src/dashanan/infrastructure/working_memory_lru_repository.py: its
-- items stand in the order of their last accesses, none of which is later than the clock, and they
-- are at most as many as the capacity.
use dashanan.Prelude.{
  ℕ, zero, suc, ◌-◌, ◌≡◌, ◌≤◌, sym, Bool-cases, inl, inr, some, [], ◌∷◌, ◌++◌, arith, ap, Text,
  text_eq, text_eq_refl, length, length-append, length-drop, drop, All, All-append, All-drop,
  All-map, Result-cases, Option-cases, subst, ◌∙◌, text_eq_iff,
}
use native.Mathlib.Nat.{le_trans}
use dashanan.Working.{
  WorkingItem, Items, find_item, set_item, without_item, move_to_end, evict_expired_locked,
  is_expired, put_items, put_session, get_session, check_item,
}
use dashanan.Working.Sweep.{IsByAccess}

abbrev pub IsKept : ℕ → ℕ → Items → Type 0
IsKept capacity now items =
    IsByAccess items × All (λ i. i.last_access_at ≤ now) items × (length items ≤ capacity)

find_item-set_item :
    (item : WorkingItem) (items : Items) → find_item item.item_id (set_item item items) ≡ some item
unfolding find_item set_item
find_item-set_item item [] = ground (arith, text_eq_refl item.item_id)
find_item-set_item item (i ∷ items) = elim (Bool-cases (text_eq i.item_id item.item_id)) [
  | inl e ↦ ground (arith, text_eq_refl item.item_id)
  | inr e ↦ ground (arith, find_item-set_item item items)
]

without_item-set_item :
    (item : WorkingItem) (items : Items)
    → without_item item.item_id (set_item item items) ≡ without_item item.item_id items
unfolding without_item set_item
without_item-set_item item [] = ground (arith, text_eq_refl item.item_id)
without_item-set_item item (i ∷ items) = elim (Bool-cases (text_eq i.item_id item.item_id)) [
  | inl e ↦ ground (arith, text_eq_refl item.item_id)
  | inr e ↦ ground (arith, without_item-set_item item items)
]

-- Writing an item and moving it to the end takes the item of its id out and puts it last.
pub move_to_end-set_item :
    (item : WorkingItem) (items : Items)
    → move_to_end item.item_id (set_item item items) ≡ without_item item.item_id items ++ item ∷ []
unfolding move_to_end
move_to_end-set_item item items =
    ground (arith, find_item-set_item item items, without_item-set_item item items)

length-without_item : (id : Text) (items : Items) → length (without_item id items) ≤ length items
unfolding without_item
length-without_item id [] = omega arith
length-without_item id (i ∷ items) = ground (arith, length-without_item id items)

length-without_item_found :
    (id : Text) (items : Items) (i : WorkingItem)
    → find_item id items ≡ some i
    → suc (length (without_item id items)) ≤ length items
unfolding without_item find_item
length-without_item_found id [] i e = ground arith
length-without_item_found id (j ∷ items) i e = elim (Bool-cases (text_eq j.item_id id)) [
  | inl h ↦ ground (arith, length-without_item id items)
  | inr h ↦
      let e' : find_item id items ≡ some i = ground arith in
      ground (arith, length-without_item_found id items i e')
]

All-without_item :
    (P : WorkingItem → Type 0) (id : Text) (items : Items)
    → All P items
    → All P (without_item id items)
unfolding without_item
All-without_item P id [] a = a
All-without_item P id (i ∷ items) a = elim (Bool-cases (text_eq i.item_id id)) [
  | inl e ↦ rw e (All-without_item P id items a.1)
  | inr e ↦ rw e (a.0, All-without_item P id items a.1)
]

without_item-IsByAccess :
    (id : Text) (items : Items) → IsByAccess items → IsByAccess (without_item id items)
unfolding without_item
without_item-IsByAccess id [] a = a
without_item-IsByAccess id (i ∷ items) a = elim (Bool-cases (text_eq i.item_id id)) [
  | inl e ↦ rw e (without_item-IsByAccess id items a.1)
  | inr e ↦ rw e (
    All-without_item (λ j. i.last_access_at ≤ j.last_access_at) id items a.0,
    without_item-IsByAccess id items a.1,
  )
]

append-IsByAccess :
    (items : Items) (item : WorkingItem)
    → IsByAccess items
    → All (λ i. i.last_access_at ≤ item.last_access_at) items
    → IsByAccess (items ++ item ∷ [])
append-IsByAccess [] item a h = (tt, tt)
append-IsByAccess (i ∷ items) item a h = (
  All-append (λ j. i.last_access_at ≤ j.last_access_at) items (item ∷ []) a.0 (h.0, tt),
  append-IsByAccess items item a.1 h.1,
)

drop-IsByAccess : (n : ℕ) (items : Items) → IsByAccess items → IsByAccess (drop n items)
drop-IsByAccess zero items a = a
drop-IsByAccess (suc n) [] a = a
drop-IsByAccess (suc n) (i ∷ items) a = drop-IsByAccess n items a.1

-- The sweep takes items from the front.
evict_expired_locked-IsKept :
    (ttl now then_ capacity : ℕ) (items : Items)
    → IsKept capacity then_ items
    → IsKept capacity then_ (evict_expired_locked ttl now items).0
unfolding evict_expired_locked
evict_expired_locked-IsKept ttl now then_ capacity [] k = k
evict_expired_locked-IsKept ttl now then_ capacity (i ∷ items) k =
    elim (Bool-cases (is_expired ttl now i)) [
      | inl e ↦
          let (a, b, c) = k in
          rw e (evict_expired_locked-IsKept ttl now then_ capacity items (a.1, b.1, ground arith))
      | inr e ↦ rw e k
    ]

-- The item of the newest access, put behind the others.
rewritten-IsByAccess :
    (item : WorkingItem) (items : Items)
    → IsByAccess items
    → All (λ i. i.last_access_at ≤ item.last_access_at) items
    → IsByAccess (without_item item.item_id items ++ item ∷ [])
rewritten-IsByAccess item items a h =
    append-IsByAccess (without_item item.item_id items) item
      (without_item-IsByAccess item.item_id items a)
      (All-without_item (λ i. i.last_access_at ≤ item.last_access_at) item.item_id items h)

rewritten-All :
    (item : WorkingItem) (items : Items)
    → All (λ i. i.last_access_at ≤ item.last_access_at) items
    → All
        (λ i. i.last_access_at ≤ item.last_access_at)
        (without_item item.item_id items ++ item ∷ [])
rewritten-All item items h =
    All-append (λ i. i.last_access_at ≤ item.last_access_at) (without_item item.item_id items)
      (item ∷ [])
      (All-without_item (λ i. i.last_access_at ≤ item.last_access_at) item.item_id items h)
      (omega arith, tt)

later :
    (a b : ℕ) (items : Items)
    → a ≤ b
    → All (λ i. i.last_access_at ≤ a) items
    → All (λ i. i.last_access_at ≤ b) items
later a b items le =
    All-map (λ i. i.last_access_at ≤ a) (λ i. i.last_access_at ≤ b) (λ i h. le_trans h le) items

put_items-IsKept :
    (capacity ttl before : ℕ) (items : Items) (item : WorkingItem)
    → before ≤ item.last_access_at
    → IsKept capacity before items
    → IsKept capacity item.last_access_at (put_items capacity ttl items item)
unfolding put_items
put_items-IsKept capacity ttl before items item le (a, h, n) =
    let all = without_item item.item_id items ++ item ∷ [] in
    let h' = later before item.last_access_at items le h in
    simp (move_to_end-set_item item items) (
      drop-IsByAccess (length all - capacity) all (rewritten-IsByAccess item items a h'),
      All-drop (λ i. i.last_access_at ≤ item.last_access_at) (length all - capacity) all
          (rewritten-All item items h'),
      omega (arith, length-drop (length all - capacity) all),
    )

-- If no access of a session's items is later than the instant of a write, then the write, accepted
-- or refused, leaves them in the order of their accesses, none later than that instant, and at most
-- as many as the capacity, if they were so before.
pub put_session-IsKept :
    (capacity ttl before swept : ℕ) (items : Items) (item : WorkingItem)
    → before ≤ item.last_access_at
    → IsKept capacity before items
    → IsKept capacity item.last_access_at (put_session capacity ttl items swept item).0
unfolding put_session
put_session-IsKept capacity ttl before swept items item le k =
    let live = (evict_expired_locked ttl swept items).0 in
    let l = evict_expired_locked-IsKept ttl swept before capacity items k in
    elim (Result-cases (check_item item)) [
      | inl (i, e) ↦ simp (put_session, e) (put_items-IsKept capacity ttl before live item le l)
      | inr (x, e) ↦
          let (a, h, n) = l in
          simp (put_session, e) (a, later before item.last_access_at live le h, n)
    ]

find_item_id :
    (id : Text) (items : Items) (i : WorkingItem) → find_item id items ≡ some i → i.item_id ≡ id
unfolding find_item
find_item_id id [] i e = ground arith
find_item_id id (j ∷ items) i e = elim (Bool-cases (text_eq j.item_id id)) [
  | inl h ↦
      let same : j ≡ i = ground arith in
      ap (λ k. k.item_id) (sym same) ∙ (text_eq_iff j.item_id id).0 h
  | inr h ↦ let e' : find_item id items ≡ some i = ground arith in find_item_id id items i e'
]

-- If no access of a session's items is later than the instant of a read, then the read, of an item
-- that is there or not, leaves them in the order of their accesses, none later than that instant,
-- and at most as many as the capacity, if they were so before.
pub get_session-IsKept :
    (capacity ttl before swept now : ℕ) (items : Items) (id : Text)
    → before ≤ now
    → IsKept capacity before items
    → IsKept capacity now (get_session capacity ttl items swept now id).0
unfolding get_session
get_session-IsKept capacity ttl before swept now items id le k =
    let live = (evict_expired_locked ttl swept items).0 in
    let (a, h, n) = evict_expired_locked-IsKept ttl swept before capacity items k in
    elim (Option-cases (find_item id live)) [
      | inl e ↦ simp (get_session, e) (a, later before now live le h, n)
      | inr (i, e) ↦
          let r : WorkingItem = record i { last_access_at = now } in
          let same = find_item_id id live i e in
          let h' = later before now live le h in
          let moved : move_to_end id (set_item r live) ≡ without_item i.item_id live ++ r ∷ [] =
            subst (λ x. move_to_end x (set_item r live) ≡ without_item i.item_id live ++ r ∷ [])
              same (move_to_end-set_item r live) in
          let e' : find_item i.item_id live ≡ some i =
            subst (λ x. find_item x live ≡ some i) (sym same) e in
          simp (get_session, e, moved)
            (
              rewritten-IsByAccess r live a h',
              rewritten-All r live h',
              omega (
                arith,
                length-append (without_item i.item_id live) (r ∷ []),
                length-without_item_found i.item_id live i e',
              ),
            )
    ]
