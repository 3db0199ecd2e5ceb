-- ===== src/Working.antt =====
-- Zone 1: src/dashanan/infrastructure/working_memory_lru_repository.py with the item of
-- src/dashanan/domain/working_item.py. Every method holds the lock of its session, so it is one
-- step. The two instants of a method are what the clock returns in its sweep and behind it. An
-- `OrderedDict` is the list of its items from the front; `score_terms`, which the repository stores
-- and never reads, is left out.
pub mod Sweep
pub mod Invariant
pub mod Reads
use dashanan.Prelude.{
  ℕ, ◌+◌, ◌-◌, ◌≡◌, Bool, true, false, ◌&&◌, ◌||◌, not, Option, none, some, List, [], ◌∷◌, ◌++◌,
  leb, ltb, ◌==◌, if◌then◌else◌, length, take, drop, map, Text, text_eq, text_lt, is_blank, sorted,
  Result, ok, raise, value_error,
}
use dashanan.Prelude.Floats.{Floats}
use dashanan.Zone.{working}
use dashanan.Item.{MemoryItem}

pub record WorkingItem : Type 0 where
  pub tenant_id : Text
  pub session_id : Text
  pub item_id : Text
  pub payload : Text
  pub token_count : ℕ
  pub written_at : ℕ
  pub last_access_at : ℕ

-- `WorkingItem.__post_init__`
unfoldable pub check_item : WorkingItem → Result WorkingItem
unfolding is_blank
check_item i =
    if is_blank i.tenant_id
    then raise value_error
    else if is_blank i.session_id
    then raise value_error
    else if is_blank i.item_id
    then raise value_error
    else if leb i.token_count 0
    then raise value_error
    else ok i

abbrev pub Items : Type 0
Items = List WorkingItem

-- `session_items.get(item_id)`
unfoldable pub find_item : Text → Items → Option WorkingItem
unfolding text_eq
find_item id [] = none
find_item id (i ∷ items) = if text_eq i.item_id id then some i else find_item id items

-- `session_items[item_id] = item`, which keeps the place of a key that is there.
unfoldable pub set_item : WorkingItem → Items → Items
unfolding text_eq
set_item item [] = item ∷ []
set_item item (i ∷ items) =
    let rest = set_item item items in
    if text_eq i.item_id item.item_id then item ∷ items else i ∷ rest

unfoldable pub without_item : Text → Items → Items
unfolding text_eq
without_item id [] = []
without_item id (i ∷ items) =
    let rest = without_item id items in if text_eq i.item_id id then rest else i ∷ rest

-- `session_items.move_to_end(item_id)`
unfoldable pub move_to_end : Text → Items → Items
unfolding find_item without_item
move_to_end id items = elim (find_item id items) [
  | none ↦ items
  | some i ↦ without_item id items ++ i ∷ []
]

-- `now - oldest.last_access_at < self._idle_ttl` fails.
unfoldable pub is_expired : ℕ → ℕ → WorkingItem → Bool
is_expired idle_ttl now i = leb (i.last_access_at + idle_ttl) now

-- `_evict_expired_locked`: the items that stay, and the evicted ids, oldest first.
unfoldable pub evict_expired_locked : ℕ → ℕ → Items → Items × List Text
unfolding is_expired
evict_expired_locked idle_ttl now [] = ([], [])
evict_expired_locked idle_ttl now (i ∷ items) =
    let rest = evict_expired_locked idle_ttl now items in
    if is_expired idle_ttl now i then (rest.0, i.item_id ∷ rest.1) else (i ∷ items, [])

pub record Session : Type 0 where
  pub tenant_id : Text
  pub session_id : Text
  pub items : Items

abbrev pub Sessions : Type 0
Sessions = List Session

unfoldable pub is_session : Text → Text → Session → Bool
unfolding text_eq
is_session t s e = text_eq e.tenant_id t && text_eq e.session_id s

-- `self._sessions.get((tenant_id, session_id))`
unfoldable pub find_session : Text → Text → Sessions → Option Items
unfolding is_session
find_session t s [] = none
find_session t s (e ∷ es) = if is_session t s e then some e.items else find_session t s es

-- `_session_items_for`, and the writing back of the session's items.
unfoldable pub set_session : Text → Text → Items → Sessions → Sessions
unfolding is_session
set_session t s items [] = record { tenant_id = t; session_id = s; items = items } ∷ []
set_session t s items (e ∷ es) =
    let rest = set_session t s items es in
    if is_session t s e then record e { items = items } ∷ es else e ∷ rest

module _ (capacity idle_ttl : ℕ) where
  unfoldable pub put_items : Items → WorkingItem → Items
  unfolding set_item move_to_end
  put_items items item =
      let written = move_to_end item.item_id (set_item item items) in
      drop (length written - capacity) written

  -- What `put` does with the session's items.
  unfoldable pub put_session : Items → ℕ → WorkingItem → Items × Result WorkingItem
  unfolding evict_expired_locked check_item put_items
  put_session items swept item =
      let live = (evict_expired_locked idle_ttl swept items).0 in
      elim (check_item item) [ raise e ↦ (live, raise e) | ok _ ↦ (put_items live item, ok item) ]

  unfoldable pub put :
      Sessions → Text → Text → Text → Text → ℕ → ℕ → ℕ → Sessions × Result WorkingItem
  unfolding put_session find_session set_session is_blank
  put sessions tenant_id session_id item_id payload token_count swept now =
      let items = elim (find_session tenant_id session_id sessions) as (λ _. Items) [
        | none ↦ []
        | some i ↦ i
      ] in
      let item : WorkingItem = record {
        tenant_id = tenant_id;
        session_id = session_id;
        item_id = item_id;
        payload = payload;
        token_count = token_count;
        written_at = now;
        last_access_at = now;
      } in
      let done = put_session items swept item in
      if is_blank tenant_id || is_blank session_id
      then (sessions, raise value_error)
      else (set_session tenant_id session_id done.0 sessions, done.1)

  -- What `get` does with the session's items.
  unfoldable pub get_session : Items → ℕ → ℕ → Text → Items × Option WorkingItem
  unfolding evict_expired_locked find_item set_item move_to_end
  get_session items swept now item_id =
      let live = (evict_expired_locked idle_ttl swept items).0 in
      elim (find_item item_id live) [
        | none ↦ (live, none)
        | some i ↦
            let refreshed = record i { last_access_at = now } in
            (move_to_end item_id (set_item refreshed live), some refreshed)
      ]

  unfoldable pub get :
      Sessions → Text → Text → Text → ℕ → ℕ → Sessions × Result (Option WorkingItem)
  unfolding get_session find_session set_session is_blank
  get sessions tenant_id session_id item_id swept now =
      if is_blank tenant_id || is_blank session_id
      then (sessions, raise value_error)
      else elim (find_session tenant_id session_id sessions) [
        | none ↦ (sessions, ok none)
        | some items ↦
            let done = get_session items swept now item_id in
            (set_session tenant_id session_id done.0 sessions, ok done.1)
      ]

  unfoldable pub evict_expired : Sessions → Text → Text → ℕ → Sessions × Result (List Text)
  unfolding evict_expired_locked find_session set_session is_blank
  evict_expired sessions tenant_id session_id swept =
      if is_blank tenant_id || is_blank session_id
      then (sessions, raise value_error)
      else elim (find_session tenant_id session_id sessions) [
        | none ↦ (sessions, ok [])
        | some items ↦
            let done = evict_expired_locked idle_ttl swept items in
            (set_session tenant_id session_id done.0 sessions, ok done.1)
      ]

  unfoldable pub session_item_count : Sessions → Text → Text → ℕ → Sessions × ℕ
  unfolding evict_expired_locked find_session set_session
  session_item_count sessions tenant_id session_id swept =
      elim (find_session tenant_id session_id sessions) [
        | none ↦ (sessions, 0)
        | some items ↦
            let live = (evict_expired_locked idle_ttl swept items).0 in
            (set_session tenant_id session_id live sessions, length live)
      ]

  -- The loop of `fetch`: each session of the tenant is swept, and its items are candidates.
  unfoldable pub sweep_tenant : Sessions → Text → ℕ → Sessions × Items
  unfolding evict_expired_locked text_eq
  sweep_tenant [] tenant_id swept = ([], [])
  sweep_tenant (e ∷ es) tenant_id swept =
      let rest = sweep_tenant es tenant_id swept in
      let live = (evict_expired_locked idle_ttl swept e.items).0 in
      if text_eq e.tenant_id tenant_id
      then (record e { items = live } ∷ rest.0, live ++ rest.1)
      else (e ∷ rest.0, rest.1)

  -- `sort(key=(last_access_at, item_id), reverse=True)`
  unfoldable pub is_before : WorkingItem → WorkingItem → Bool
  unfolding text_lt
  is_before a b =
      ltb b.last_access_at a.last_access_at
      || ((a.last_access_at == b.last_access_at) && text_lt b.item_id a.item_id)

  module _ (f : Floats) where
    -- What `fetch` makes of an item; `score` keeps its default.
    unfoldable pub to_memory_item : WorkingItem → MemoryItem f
    to_memory_item i = record {
      item_id = i.item_id;
      source_zone = working;
      payload = i.payload;
      token_count = i.token_count;
      score = f.of_int 0;
    }

    unfoldable pub fetch : Sessions → Text → ℕ → ℕ → Sessions × List (MemoryItem f)
    unfolding sweep_tenant is_before sorted to_memory_item
    fetch sessions tenant_id max_items swept =
        let swept_all = sweep_tenant sessions tenant_id swept in
        (swept_all.0, map to_memory_item (take max_items (sorted is_before swept_all.1)))
