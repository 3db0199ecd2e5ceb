-- ===== src/Working/Reads.antt =====
-- Reads behind a write in src/dashanan/infrastructure/working_memory_lru_repository.py.
use dashanan.Prelude.{
  ℕ, zero, suc, ◌+◌, ◌-◌, ◌≡◌, ◌≤◌, ◌<◌, refl, sym, Bool-cases, inl, inr, false, ◌||◌, Option, none,
  some, [], ◌∷◌, ◌++◌, arith, ap, Text, text_eq, text_eq_refl, is_blank, length, length-append,
  drop, All, ok, Result-cases, Option-cases, subst, ◌∙◌,
}
use dashanan.Working.{
  WorkingItem, Items, Sessions, find_item, without_item, evict_expired_locked, is_expired,
  put_items, put_session, get_session, check_item, find_session, set_session, is_session, put, get,
}
use dashanan.Working.Invariant.{IsKept, move_to_end-set_item}

-- `item` is the last of the items, and no other has its id.
abbrev pub IsLast : WorkingItem → Items → Type 0
IsLast item items = (l : Items) × (items ≡ l ++ item ∷ []) × (find_item item.item_id l ≡ none)

find_item-without_item : (id : Text) (items : Items) → find_item id (without_item id items) ≡ none
unfolding find_item without_item
find_item-without_item id [] = refl
find_item-without_item id (i ∷ items) = ground (arith, find_item-without_item id items)

find_item-append :
    (item : WorkingItem) (l : Items)
    → find_item item.item_id l ≡ none
    → find_item item.item_id (l ++ item ∷ []) ≡ some item
unfolding find_item
find_item-append item [] h = ground (arith, text_eq_refl item.item_id)
find_item-append item (i ∷ l) h = elim (Bool-cases (text_eq i.item_id item.item_id)) [
  | inl e ↦ ground arith
  | inr e ↦
      let h' : find_item item.item_id l ≡ none = ground arith in
      ground (arith, find_item-append item l h')
]

find_item-tail :
    (id : Text) (i : WorkingItem) (l : Items) → find_item id (i ∷ l) ≡ none → find_item id l ≡ none
unfolding find_item
find_item-tail id i l h = ground arith

drop-IsLast :
    (n : ℕ) (item : WorkingItem) (l : Items)
    → n ≤ length l
    → find_item item.item_id l ≡ none
    → IsLast item (drop n (l ++ item ∷ []))
drop-IsLast zero item l le h = (l, refl, h)
drop-IsLast (suc n) item [] le h = ground arith
drop-IsLast (suc n) item (i ∷ l) le h =
    drop-IsLast n item l (omega arith) (find_item-tail item.item_id i l h)

put_items-IsLast :
    (capacity ttl : ℕ) (items : Items) (item : WorkingItem)
    → 0 < capacity
    → IsLast item (put_items capacity ttl items item)
unfolding put_items
put_items-IsLast capacity ttl items item pos =
    let l = without_item item.item_id items in
    simp (move_to_end-set_item item items) (
      drop-IsLast (length (l ++ item ∷ []) - capacity) item l
        (omega (arith, length-append l (item ∷ []))) (find_item-without_item item.item_id items))

evict_expired_locked-IsLast :
    (ttl now : ℕ) (item : WorkingItem) (l : Items)
    → is_expired ttl now item ≡ false
    → find_item item.item_id l ≡ none
    → IsLast item (evict_expired_locked ttl now (l ++ item ∷ [])).0
unfolding evict_expired_locked
evict_expired_locked-IsLast ttl now item [] live h = rw live ([], refl, h)
evict_expired_locked-IsLast ttl now item (i ∷ l) live h = elim (Bool-cases (is_expired ttl now i)) [
  | inl e ↦
      rw e (evict_expired_locked-IsLast ttl now item l live (find_item-tail item.item_id i l h))
  | inr e ↦ rw e (i ∷ l, refl, h)
]

-- A session in which an item that is not expired is the last one answers with it.
get_session-IsLast :
    (capacity ttl swept now : ℕ) (item : WorkingItem) (items : Items)
    → is_expired ttl swept item ≡ false
    → IsLast item items
    → (get_session capacity ttl items swept now item.item_id).1
      ≡ some (record item { last_access_at = now })
unfolding get_session
get_session-IsLast capacity ttl swept now item items live (l, e, h) =
    let (k, d, g) = evict_expired_locked-IsLast ttl swept item l live h in
    let found : find_item item.item_id (evict_expired_locked ttl swept items).0 ≡ some item =
      simp (e, d) (find_item-append item k g) in
    simp (get_session, found) refl

put_session-ok :
    (capacity ttl swept : ℕ) (items : Items) (item : WorkingItem)
    → (put_session capacity ttl items swept item).1 ≡ ok item
    → (put_session capacity ttl items swept item).0
      ≡ put_items capacity ttl (evict_expired_locked ttl swept items).0 item
unfolding put_session
put_session-ok capacity ttl swept items item e = elim (Result-cases (check_item item)) [
  | inl (i, h) ↦ simp (put_session, h) refl
  | inr (x, h) ↦ ground arith
]

find_session-set_session :
    (t s : Text) (items : Items) (sessions : Sessions)
    → find_session t s (set_session t s items sessions) ≡ some items
unfolding find_session set_session is_session
find_session-set_session t s items [] = ground (arith, text_eq_refl t, text_eq_refl s)
find_session-set_session t s items (e ∷ sessions) = elim (Bool-cases (is_session t s e)) [
  | inl h ↦ ground arith
  | inr h ↦ ground (arith, find_session-set_session t s items sessions)
]

-- The item that a `put` at the instant `now` makes.
abbrev pub written_item : Text → Text → Text → Text → ℕ → ℕ → WorkingItem
written_item t s id payload token_count now = record {
  tenant_id = t;
  session_id = s;
  item_id = id;
  payload = payload;
  token_count = token_count;
  written_at = now;
  last_access_at = now;
}

not_expired :
    (ttl now : ℕ) (i : WorkingItem) → now < i.last_access_at + ttl → is_expired ttl now i ≡ false
unfolding is_expired
not_expired ttl now i h = ground arith

abbrev items_or_empty : Option Items → Items
items_or_empty none = []
items_or_empty (some items) = items

-- What a `put` that succeeds leaves of its session.
put-eq-ok :
    (capacity ttl : ℕ) (sessions : Sessions) (t s id payload : Text) (token_count swept now : ℕ)
    (item : WorkingItem)
    → (put capacity ttl sessions t s id payload token_count swept now).1 ≡ ok item
    → ((is_blank t || is_blank s) ≡ false)
      × ((items : Items) × (find_session t s
              (put capacity ttl sessions t s id payload token_count swept now).0
            ≡ some
                (put_session capacity ttl items swept
                  (written_item t s id payload token_count now)).0)
          × ((put_session capacity ttl items swept (written_item t s id payload token_count now)).1
              ≡ ok item))
unfolding put
put-eq-ok capacity ttl sessions t s id payload token_count swept now item done =
    elim (Bool-cases (is_blank t || is_blank s)) [
      | inl e ↦ ground arith
      | inr e ↦ elim (Option-cases (find_session t s sessions)) [
        | inl n ↦
            let made =
              put_session capacity ttl [] swept (written_item t s id payload token_count now) in
            (e, ([], simp (put, e, n) (find_session-set_session t s made.0 sessions), ground arith))
        | inr (items, h) ↦
            let made =
              put_session capacity ttl items swept (written_item t s id payload token_count now) in
            (
              e,
              (
                items,
                simp (put, e, h) (find_session-set_session t s made.0 sessions),
                ground arith,
              ),
            )
      ]
    ]

get-find_session :
    (capacity ttl : ℕ) (sessions : Sessions) (t s id : Text) (swept now : ℕ) (items : Items)
    → (is_blank t || is_blank s) ≡ false
    → find_session t s sessions ≡ some items
    → (get capacity ttl sessions t s id swept now).1
      ≡ ok (get_session capacity ttl items swept now id).1
unfolding get
get-find_session capacity ttl sessions t s id swept now items e h = simp (get, e, h) refl

-- After a `put` that succeeds, a `get` of the same session and id whose sweep runs before the idle
-- time is over returns the written item with its access refreshed, whatever the sessions held, if
-- the capacity is positive.
pub get-put :
    (capacity ttl : ℕ) (sessions : Sessions) (t s id payload : Text)
    (token_count swept now swept' now' : ℕ)
    → 0 < capacity
    → (put capacity ttl sessions t s id payload token_count swept now).1
      ≡ ok (written_item t s id payload token_count now)
    → swept' < now + ttl
    → (get capacity ttl
        (put capacity ttl sessions t s id payload token_count swept now).0
        t
        s
        id
        swept'
        now').1
      ≡ ok (some (record (written_item t s id payload token_count now) { last_access_at = now' }))
unfolding put get
get-put capacity ttl sessions t s id payload token_count swept now swept' now' pos done early =
    let item = written_item t s id payload token_count now in
    let (e, (items, found, made)) =
      put-eq-ok capacity ttl sessions t s id payload token_count swept now item done in
    let kept : IsLast item (put_session capacity ttl items swept item).0 =
      subst (IsLast item) (sym (put_session-ok capacity ttl swept items item made))
        (put_items-IsLast capacity ttl (evict_expired_locked ttl swept items).0 item pos) in
    get-find_session capacity ttl (put capacity ttl sessions t s id payload token_count swept now).0
      t s id swept' now' (put_session capacity ttl items swept item).0 e found
    ∙ ap ok (
        get_session-IsLast capacity ttl swept' now' item
          (put_session capacity ttl items swept item).0 (not_expired ttl swept' item early) kept)

all_expired :
    (ttl swept before : ℕ) (items : Items)
    → before + ttl ≤ swept
    → All (λ i. i.last_access_at ≤ before) items
    → (evict_expired_locked ttl swept items).0 ≡ []
unfolding evict_expired_locked is_expired
all_expired ttl swept before [] le h = refl
all_expired ttl swept before (i ∷ items) le h =
    ground (arith, all_expired ttl swept before items le h.1)

-- If no access of a session's items is later than `before`, then a read of any id whose sweep runs
-- when the idle time has passed since `before` finds nothing and leaves the session empty.
pub get_session_expired :
    (capacity ttl before swept now : ℕ) (items : Items) (id : Text)
    → IsKept capacity before items
    → before + ttl ≤ swept
    → get_session capacity ttl items swept now id ≡ ([], none)
unfolding get_session find_item
get_session_expired capacity ttl before swept now items id (a, h, n) le =
    simp (get_session, all_expired ttl swept before items le h) refl
