-- ===== src/Entity/Fetch.antt =====
-- `fetch` of src/dashanan/infrastructure/entity_memory_repository.py.
use dashanan.Prelude.{
  ℕ, zero, suc, ◌-◌, ◌≡◌, ◌↔◌, inl, inr, refl, sym, ap, ◌∙◌, Bool-cases, Option-cases, true, false,
  Option, none, some, List, [], ◌∷◌, ◌++◌, arith, leb, length, length-append, take, All, All-sorted,
  Text, text_eq_refl, text_lt, is_blank, Dict, has, sorted, ok,
}
use mathlib.Core.List.{append-nil, append_assoc}
use dashanan.Prelude.Floats.{Floats}
use dashanan.Item.{MemoryItem, check_memory_item}
use dashanan.Context.Orchestrator.{ZoneQuery}
use dashanan.Entity.Record.{EntityRecord}
use dashanan.Entity.Repository.{EntityMemory}
use dashanan.Entity.Read.{get_entity, resolve_alias_prefix, item_of, fetch_loop, fetch_task, fetch}
use dashanan.Entity.Tables.{knows}
use dashanan.Entity.Invariant.{IsEntityMemory}
use dashanan.Entity.Reach.{Reach, Reach-IsEntityMemory}
use dashanan.Entity.Resolve.{found, found_iff, get_entity_total, record_of}

All-has : (P : Text → Type 0) (s : List Text) → ((i : Text) → has i s ≡ true → P i) → All P s
unfolding has
All-has P [] h = tt
All-has P (x ∷ s) h =
    (h x (ground (arith, text_eq_refl x)), All-has P s (λ i g. h i (ground arith)))

take-nil {ℓ} : {A : Type ℓ} (n : ℕ) → take {A = A} n [] ≡ []
take-nil zero = refl
take-nil (suc n) = refl

module _ (f : Floats) (json_dumps : Dict Text → Text) where
  item_of-check :
      (e : Text) (r : EntityRecord)
      → is_blank e ≡ false
      → check_memory_item f (item_of f json_dumps e r) ≡ ok (item_of f json_dumps e r)
  unfolding check_memory_item item_of
  item_of-check e r he = ground arith

  -- The items of those entities that have attributes.
  abbrev with_item : Text → Option EntityRecord → List (MemoryItem f) → List (MemoryItem f)
  with_item e none rest = rest
  with_item e (some r) rest = item_of f json_dumps e r ∷ rest

  abbrev pub items_of : EntityMemory → Text → List Text → List (MemoryItem f)
  items_of m t [] = []
  items_of m t (e ∷ es) = with_item e (record_of t e (m.entity_attributes t e)) (items_of m t es)

  module _ (m : EntityMemory) (t : Text) (limit : ℕ) (e : Text) (es : List Text)
      (items : List (MemoryItem f)) where
    fetch_loop_full :
        leb limit (length items) ≡ true
        → fetch_loop f json_dumps m t limit (e ∷ es) items ≡ ok items
    unfolding fetch_loop
    fetch_loop_full h = simp (fetch_loop, h) refl

    fetch_loop_gone :
        leb limit (length items) ≡ false
        → get_entity m t e ≡ ok none
        → fetch_loop f json_dumps m t limit (e ∷ es) items
          ≡ fetch_loop f json_dumps m t limit es items
    unfolding fetch_loop
    fetch_loop_gone h g = simp (fetch_loop, h, g) refl

    fetch_loop_there :
        (r : EntityRecord) (i : MemoryItem f)
        → leb limit (length items) ≡ false
        → get_entity m t e ≡ ok (some r)
        → check_memory_item f (item_of f json_dumps e r) ≡ ok i
        → fetch_loop f json_dumps m t limit (e ∷ es) items
          ≡ fetch_loop f json_dumps m t limit es (items ++ i ∷ [])
    unfolding fetch_loop
    fetch_loop_there r i h g k = simp (fetch_loop, h, g, k) refl

  -- One item more on the list leaves room for one less.
  take_more :
      (limit : ℕ) (items rest : List (MemoryItem f)) (i : MemoryItem f)
      → leb limit (length items) ≡ false
      → (items ++ i ∷ []) ++ take (limit - length (items ++ i ∷ [])) rest
        ≡ items ++ take (limit - length items) (i ∷ rest)
  take_more limit items rest i h =
      let more : limit - length items ≡ suc (limit - length (items ++ i ∷ [])) =
        ground (arith, length-append items (i ∷ [])) in
      append_assoc items (i ∷ []) (take (limit - length (items ++ i ∷ [])) rest)
      ∙ ap (λ n. items ++ take n (i ∷ rest)) (sym more)

  fetch_loop_exact :
      (m : EntityMemory) (t : Text) (limit : ℕ) (es : List Text) (items : List (MemoryItem f))
      → IsEntityMemory m
      → is_blank t ≡ false
      → All (λ e. is_blank e ≡ false) es
      → fetch_loop f json_dumps m t limit es items
        ≡ ok (items ++ take (limit - length items) (items_of m t es))
  unfolding fetch_loop
  fetch_loop_exact m t limit [] items v ht hs =
      ap ok (sym (ap (items ++◌) (take-nil (limit - length items)) ∙ append-nil items))
  fetch_loop_exact m t limit (e ∷ es) items v ht hs =
      let got = get_entity_total m t e v ht hs.0 in
      elim (Bool-cases (leb limit (length items))) [
        | inl full ↦
            let none_left : limit - length items ≡ 0 = ground arith in
            fetch_loop_full m t limit e es items full
            ∙ ap ok (
                sym
                  (ap (λ n. items ++ take n (items_of m t (e ∷ es))) none_left ∙ append-nil items))
        | inr room ↦ elim (Option-cases (record_of t e (m.entity_attributes t e))) [
          | inl gone ↦
              fetch_loop_gone m t limit e es items room (got ∙ ap ok gone)
              ∙ fetch_loop_exact m t limit es items v ht hs.1
              ∙ ap
                  (λ o. ok (items ++ take (limit - length items) (with_item e o (items_of m t es))))
                  (sym gone)
          | inr (r, there) ↦
              let i = item_of f json_dumps e r in
              fetch_loop_there m t limit e es items r i room (got ∙ ap ok there)
                (item_of-check e r hs.0)
              ∙ fetch_loop_exact m t limit es (items ++ i ∷ []) v ht hs.1
              ∙ ap ok (take_more limit items (items_of m t es) i room)
              ∙ ap
                  (λ o. ok (items ++ take (limit - length items) (with_item e o (items_of m t es))))
                  (sym there)
        ]
      ]

  fetch_of_task :
      (query : ZoneQuery f) (task : Text) (m : EntityMemory)
      → query.task ≡ some task
      → fetch f json_dumps m query ≡ fetch_task f json_dumps m query.tenant_id query.max_items task
  unfolding fetch
  fetch_of_task query task m h = simp (fetch, h) refl

  fetch_task_loop :
      (m : EntityMemory) (t : Text) (limit : ℕ) (task : Text)
      → is_blank task ≡ false
      → is_blank t ≡ false
      → fetch_task f json_dumps m t limit task
        ≡ fetch_loop f json_dumps m t limit (sorted text_lt (found m t task)) []
  unfolding fetch_task resolve_alias_prefix
  fetch_task_loop m t limit task hk ht = simp (fetch_task, hk, ht) refl

  -- On every memory that calls reach from a new one, a `fetch` for a tenant and a task that are not blank
  -- never raises. It returns the items of the entities that have an alias beginning with the task and that
  -- have attributes, in the order of their ids, cut at `max_items`.
  pub fetch_exact :
      {m : EntityMemory} (query : ZoneQuery f) (task : Text)
      → Reach m
      → query.task ≡ some task
      → is_blank task ≡ false
      → is_blank query.tenant_id ≡ false
      → (fetch f json_dumps m query
          ≡ ok (
              take query.max_items
                (items_of m query.tenant_id (sorted text_lt (found m query.tenant_id task)))))
        × ((i : Text)
            → (has i (found m query.tenant_id task) ≡ true)
              ↔ ((s : Text) × (knows m query.tenant_id (task ++ s) i ≡ true)))
  fetch_exact {m = m} query task h ht hk hb =
      let v = Reach-IsEntityMemory h in
      let ids = found m query.tenant_id task in
      let named : All (λ e. is_blank e ≡ false) ids =
        All-has (λ e. is_blank e ≡ false) ids
          (λ i g.
            let (s, k) = (found_iff m query.tenant_id task i v).0 g in
            (v.recorded query.tenant_id (task ++ s) i k).0) in
      (
        fetch_of_task query task m ht
            ∙ fetch_task_loop m query.tenant_id query.max_items task hk hb
            ∙ fetch_loop_exact m query.tenant_id query.max_items (sorted text_lt ids) [] v hb
                (All-sorted text_lt (λ e. is_blank e ≡ false) ids named)
            ∙ ap (λ n. ok (take n (items_of m query.tenant_id (sorted text_lt ids)))) (omega arith),
        λ i. found_iff m query.tenant_id task i v,
      )
