-- ===== src/Tests/Working.antt =====
-- Runs of Zone 1, src/dashanan/infrastructure/working_memory_lru_repository.py.
use dashanan.Prelude.{ℕ, ◌≡◌, refl, not, some, [], ◌∷◌, map, arith, Text, codes, keep_if, ok}
use dashanan.Working.{WorkingItem, Items, evict_expired_locked, is_expired, put_session, put, get}
use dashanan.Working.Sweep.{evict_expired_locked_exact}
use dashanan.Working.Invariant.{IsKept, put_session-IsKept}
use dashanan.Working.Reads.{get-put, written_item}

abbrev t : Text
t = codes "t"

abbrev s : Text
s = codes "s"

abbrev item : Text → ℕ → WorkingItem
item id now = written_item t s id (codes "p") 4 now

abbrev two : Items
two = item (codes "a") 10 ∷ item (codes "b") 20 ∷ []

two-IsKept : IsKept 2 20 two
two-IsKept = (((omega arith, tt), (tt, tt)), (omega arith, (omega arith, tt)), omega arith)

-- The least recently used item makes room.
put_session_run :
    (put_session 2 100 two 25 (item (codes "c") 30)).0
    ≡ item (codes "b") 20 ∷ item (codes "c") 30 ∷ []
unfolding put_session
put_session_run = refl

put_run : (put 2 100 [] t s (codes "a") (codes "p") 4 9 10).1 ≡ ok (item (codes "a") 10)
unfolding put
put_run = refl

get-put_example :
    (get 2 100 (put 2 100 [] t s (codes "a") (codes "p") 4 9 10).0 t s (codes "a") 50 51).1
    ≡ ok (some (record (item (codes "a") 10) { last_access_at = 51 }))
get-put_example =
    get-put 2 100 [] t s (codes "a") (codes "p") 4 9 10 50 51 (omega arith) put_run (omega arith)

put_session-IsKept_example : IsKept 2 30 (put_session 2 100 two 25 (item (codes "c") 30)).0
put_session-IsKept_example =
    put_session-IsKept 2 100 20 25 two (item (codes "c") 30) (omega arith) two-IsKept

evict_expired_locked_exact_example :
    ((evict_expired_locked 100 115 two).0 ≡ keep_if (λ i. not (is_expired 100 115 i)) two)
    × ((evict_expired_locked 100 115 two).1
        ≡ map (λ i. i.item_id) (keep_if (is_expired 100 115) two))
evict_expired_locked_exact_example =
    evict_expired_locked_exact 100 115 two ((omega arith, tt), (tt, tt))
