-- ===== src/Context/Assembly.antt =====
-- What a call of `MemoryOrchestrator.assemble_context` in
-- src/dashanan/application/memory_orchestrator.py does with the zones that it reaches and with those
-- that it does not reach.
use dashanan.Prelude.{
  ◌≡◌, refl, sym, ap, ◌∙◌, subst, ap₂, Bool, Bool-cases, true, false, not, Option, none, some, List,
  [], ◌∷◌, ◌++◌, arith, if◌then◌else◌, keep_if, All, All-map, inl, inr, is_none, ok,
}
use mathlib.Core.List.{append-nil, append_assoc}
use dashanan.Prelude.Floats.{Floats}
use dashanan.Zone.{ZoneId, same_zone}
use dashanan.Item.{MemoryItem}
use dashanan.Context.Builder.{
  has_zone, ContextAssemblyBuilder, add_candidates, mark_zone_unavailable,
}
use dashanan.Context.Orchestrator.{
  unique_zones, target_zones, ZoneQuery, Fetched, fetched, zone_repository_error, other_error,
  fetch_zone, fetch_zones, add_fetched,
}

-- Each zone stands in the list once.
abbrev pub IsDistinct : List ZoneId → Type 0
IsDistinct [] = Unit
IsDistinct (z ∷ zones) = All (λ y. same_zone z y ≡ false) zones × IsDistinct zones

unique_zones_new :
    (seen : List ZoneId) (z : ZoneId) (zones : List ZoneId)
    → has_zone z seen ≡ false
    → unique_zones seen (z ∷ zones) ≡ z ∷ unique_zones (z ∷ seen) zones
unfolding unique_zones
unique_zones_new seen z zones e = rw e refl

unique_zones-IsUnseen :
    (seen zones : List ZoneId) → All (λ y. has_zone y seen ≡ false) (unique_zones seen zones)
unfolding unique_zones has_zone
unique_zones-IsUnseen seen [] = tt
unique_zones-IsUnseen seen (z ∷ zones) = elim (Bool-cases (has_zone z seen)) [
  | inl e ↦ rw e (unique_zones-IsUnseen seen zones)
  | inr e ↦ subst (All (λ y. has_zone y seen ≡ false)) (sym (unique_zones_new seen z zones e)) (
    e,
    All-map (λ y. has_zone y (z ∷ seen) ≡ false) (λ y. has_zone y seen ≡ false)
        (λ y h. ground arith) (unique_zones (z ∷ seen) zones)
        (unique_zones-IsUnseen (z ∷ seen) zones),
  )
]

unique_zones-IsDistinct : (seen zones : List ZoneId) → IsDistinct (unique_zones seen zones)
unfolding unique_zones has_zone
unique_zones-IsDistinct seen [] = tt
unique_zones-IsDistinct seen (z ∷ zones) = elim (Bool-cases (has_zone z seen)) [
  | inl e ↦ rw e (unique_zones-IsDistinct seen zones)
  | inr e ↦ rw e (
    All-map (λ y. has_zone y (z ∷ seen) ≡ false) (λ y. same_zone z y ≡ false) (λ y h. ground arith)
        (unique_zones (z ∷ seen) zones) (unique_zones-IsUnseen (z ∷ seen) zones),
    unique_zones-IsDistinct (z ∷ seen) zones,
  )
]

pub target_zones-IsDistinct : (zones : Option (List ZoneId)) → IsDistinct (target_zones zones)
unfolding target_zones same_zone
target_zones-IsDistinct none = ground arith
target_zones-IsDistinct (some zones) = unique_zones-IsDistinct [] zones

has_zone-append :
    (y z : ZoneId) (zones : List ZoneId)
    → has_zone y zones ≡ false
    → same_zone z y ≡ false
    → has_zone y (zones ++ z ∷ []) ≡ false
unfolding has_zone
has_zone-append y z [] h k = ground arith
has_zone-append y z (x ∷ zones) h k =
    let h' : has_zone y zones ≡ false = ground arith in
    ground (arith, has_zone-append y z zones h' k)

All-map₂ :
    (P Q R : ZoneId → Type 0)
    → ((y : ZoneId) → P y → Q y → R y)
    → (zones : List ZoneId) → All P zones
    → All Q zones
    → All R zones
All-map₂ P Q R g [] p q = tt
All-map₂ P Q R g (z ∷ zones) p q = (g z p.0 q.0, All-map₂ P Q R g zones p.1 q.1)

module _ (f : Floats) where
  unfoldable fetched_fails : Fetched f → Bool
  fetched_fails (fetched items) = false
  fetched_fails zone_repository_error = true
  fetched_fails (other_error e) = false

  unfoldable fetched_items : Fetched f → List (MemoryItem f)
  fetched_items (fetched items) = items
  fetched_items zone_repository_error = []
  fetched_items (other_error e) = []

  unfoldable fetched_contained : Fetched f → Bool
  fetched_contained (fetched items) = true
  fetched_contained zone_repository_error = true
  fetched_contained (other_error e) = false

  -- No repository, or one that raises ZoneRepositoryError.
  unfoldable pub is_unavailable : ZoneQuery f → Option (ZoneQuery f → Fetched f) → Bool
  unfolding fetched_fails
  is_unavailable query none = true
  is_unavailable query (some fetch) = fetched_fails (fetch query)

  unfoldable pub items_of : ZoneQuery f → Option (ZoneQuery f → Fetched f) → List (MemoryItem f)
  unfolding fetched_items
  items_of query none = []
  items_of query (some fetch) = fetched_items (fetch query)

  -- The repository, if there is one, raises no other exception than ZoneRepositoryError.
  unfoldable pub is_contained : ZoneQuery f → Option (ZoneQuery f → Fetched f) → Bool
  unfolding fetched_contained
  is_contained query none = true
  is_contained query (some fetch) = fetched_contained (fetch query)

  -- `x` alone, or nothing.
  abbrev only_if : Bool → ZoneId → List ZoneId
  only_if true z = z ∷ []
  only_if false z = []

  abbrev with_zone :
      ContextAssemblyBuilder f → List (MemoryItem f) → List ZoneId → ContextAssemblyBuilder f
  with_zone b items zones = record b {
    candidates = b.candidates ++ items;
    zones_unavailable = b.zones_unavailable ++ zones;
  }

  mark_zone_unavailable_new :
      (b : ContextAssemblyBuilder f) (z : ZoneId)
      → has_zone z b.zones_unavailable ≡ false
      → mark_zone_unavailable f b z ≡ with_zone b [] (z ∷ [])
  unfolding mark_zone_unavailable
  mark_zone_unavailable_new b z h =
      subst
        (λ x.
          (if x then b else record b { zones_unavailable = b.zones_unavailable ++ z ∷ [] })
          ≡ with_zone b [] (z ∷ []))
        (sym h)
        (ap (λ c. record b { candidates = c; zones_unavailable = b.zones_unavailable ++ z ∷ [] })
          (sym (append-nil b.candidates)))

  add_fetched_lem :
      (z : ZoneId) (b : ContextAssemblyBuilder f) (a : Fetched f)
      → fetched_contained a ≡ true
      → has_zone z b.zones_unavailable ≡ false
      → add_fetched f z b a ≡ ok (with_zone b (fetched_items a) (only_if (fetched_fails a) z))
  unfolding add_fetched add_candidates fetched_contained fetched_items fetched_fails
  add_fetched_lem z b (fetched items) c h =
      ap (λ u. ok (record b { candidates = b.candidates ++ items; zones_unavailable = u }))
        (sym (append-nil b.zones_unavailable))
  add_fetched_lem z b zone_repository_error c h = ap ok (mark_zone_unavailable_new b z h)
  add_fetched_lem z b (other_error e) c h = ground arith

  fetch_zone_lem :
      (query : ZoneQuery f) (z : ZoneId) (b : ContextAssemblyBuilder f)
      (o : Option (ZoneQuery f → Fetched f))
      → is_contained query o ≡ true
      → has_zone z b.zones_unavailable ≡ false
      → fetch_zone f z query b o ≡ (
        only_if (not (is_none o)) z,
        ok (with_zone b (items_of query o) (only_if (is_unavailable query o) z)),
      )
  unfolding fetch_zone is_contained items_of is_unavailable
  fetch_zone_lem query z b none c h = ap (λ b'. ([], ok b')) (mark_zone_unavailable_new b z h)
  fetch_zone_lem query z b (some fetch) c h =
      ap (λ r. (z ∷ [], r)) (add_fetched_lem z b (fetch query) c h)

  with_zone-with_zone :
      (b : ContextAssemblyBuilder f) (i j : List (MemoryItem f)) (u v : List ZoneId)
      → with_zone (with_zone b i u) j v ≡ with_zone b (i ++ j) (u ++ v)
  with_zone-with_zone b i j u v =
      ap₂ (λ c w. record b { candidates = c; zones_unavailable = w })
        (append_assoc b.candidates i j) (append_assoc b.zones_unavailable u v)

  keep_if-only_if :
      (p : ZoneId → Bool) (z : ZoneId) (zones : List ZoneId)
      → only_if (p z) z ++ keep_if p zones ≡ keep_if p (z ∷ zones)
  keep_if-only_if p z zones = ground arith

  has_zone-only_if :
      (y z : ZoneId) (b : Bool) (zones : List ZoneId)
      → has_zone y zones ≡ false
      → same_zone z y ≡ false
      → has_zone y (zones ++ only_if b z) ≡ false
  has_zone-only_if y z true zones h k = has_zone-append y z zones h k
  has_zone-only_if y z false zones h k = rw (append-nil zones) h

  module _ (repositories : ZoneId → Option (ZoneQuery f → Fetched f)) (query : ZoneQuery f) where
    abbrev pub gathered : List ZoneId → List (MemoryItem f)
    gathered [] = []
    gathered (z ∷ zones) = items_of query (repositories z) ++ gathered zones

    abbrev pub unavailable : List ZoneId → List ZoneId
    unavailable = keep_if (λ z. is_unavailable query (repositories z))

    abbrev pub registered : List ZoneId → List ZoneId
    registered = keep_if (λ z. not (is_none (repositories z)))

    fetch_zones_step :
        (z : ZoneId) (zones : List ZoneId) (b b' : ContextAssemblyBuilder f) (q : List ZoneId)
        → fetch_zone f z query b (repositories z) ≡ (q, ok b')
        → fetch_zones f repositories (z ∷ zones) query b ≡ (
          q ++ (fetch_zones f repositories zones query b').0,
          (fetch_zones f repositories zones query b').1,
        )
    unfolding fetch_zones
    fetch_zones_step z zones b b' q e = simp (fetch_zones, e) refl

    pub fetch_zones_lem :
        (zones : List ZoneId) (b : ContextAssemblyBuilder f)
        → IsDistinct zones
        → All (λ y. has_zone y b.zones_unavailable ≡ false) zones
        → All (λ y. is_contained query (repositories y) ≡ true) zones
        → fetch_zones f repositories zones query b
          ≡ (registered zones, ok (with_zone b (gathered zones) (unavailable zones)))
    unfolding fetch_zones
    fetch_zones_lem [] b d n c =
        ap₂ (λ x u. ([], ok (record b { candidates = x; zones_unavailable = u })))
          (sym (append-nil b.candidates)) (sym (append-nil b.zones_unavailable))
    fetch_zones_lem (z ∷ zones) b d n c =
        let u = is_unavailable query (repositories z) in
        let b' = with_zone b (items_of query (repositories z)) (only_if u z) in
        let fresh : All (λ y. has_zone y b'.zones_unavailable ≡ false) zones =
          All-map₂ (λ y. has_zone y b.zones_unavailable ≡ false) (λ y. same_zone z y ≡ false)
            (λ y. has_zone y b'.zones_unavailable ≡ false)
            (λ y h k. has_zone-only_if y z u b.zones_unavailable h k) zones n.1 d.0 in
        let rest = fetch_zones_lem zones b' d.1 fresh c.1 in
        fetch_zones_step z zones b b' (only_if (not (is_none (repositories z))) z)
          (fetch_zone_lem query z b (repositories z) c.0 n.0)
        ∙ ap (λ r. (only_if (not (is_none (repositories z))) z ++ r.0, r.1)) rest
        ∙ ap₂ (λ x y. (x, y)) (keep_if-only_if (λ y. not (is_none (repositories y))) z zones)
            (ap ok (
              with_zone-with_zone b (items_of query (repositories z)) (gathered zones) (only_if u z)
                (unavailable zones)
              ∙ ap (with_zone b (gathered (z ∷ zones)))
                  (keep_if-only_if (λ y. is_unavailable query (repositories y)) z zones)))
