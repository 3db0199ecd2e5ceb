-- ===== src/Backstop/Plan.antt =====
-- The plan of src/dashanan/domain/zone2_capacity_backstop.py decides on exactly the items that one of
-- the two triggers selects.
use dashanan.Prelude.{
  ◌≡◌, ◌≢◌, ◌⊎◌, inl, inr, refl, sym, ap, ◌∙◌, Bool, Bool-cases, true, false, ◌||◌, Option, none,
  some, List, [], ◌∷◌, map, arith, if◌then◌else◌, All, All-map, All-sorted, Any, Any-insert_sorted,
  sorted, Text, text_eq, text_eq_iff, text_eq_refl, Dict, lookup, insert, lookup-insert, ok,
}
use dashanan.Prelude.Floats.{Floats}
use dashanan.Backstop.{
  EvictionReason, capacity, max_age, EvictionDecision, EvictionCandidate, Zone2BackstopConfig,
  ranks_before, select_capacity_overflow, select_max_age_exceeded, put_reasons, put_items, decide,
  plan_backstop_eviction,
}

module _ (f : Floats) where
  -- One of the candidates has the id.
  unfoldable pub has_id : Text → List (EvictionCandidate f) → Bool
  has_id id [] = false
  has_id id (c ∷ cs) = let rest = has_id id cs in text_eq c.item_id id || rest

  -- The reason for which the plan decides on an item: the age before the capacity.
  abbrev pub expected :
      List (EvictionCandidate f) → List (EvictionCandidate f) → Text → Option EvictionReason
  expected overflow overaged id =
      if has_id id overaged
      then some max_age
      else if has_id id overflow
      then some capacity
      else none

  lookup-put_reasons :
      (id : Text) (r : EvictionReason) (cs : List (EvictionCandidate f)) (d : Dict EvictionReason)
      → lookup id (put_reasons f r cs d) ≡ (if has_id id cs then some r else lookup id d)
  unfolding put_reasons has_id
  lookup-put_reasons id r [] d = refl
  lookup-put_reasons id r (c ∷ cs) d =
      ground
        (arith, lookup-put_reasons id r cs (insert c.item_id r d), lookup-insert c.item_id id r d)

  abbrev IsKeyed : (Text → Bool) → Dict (EvictionCandidate f) → Type 0
  IsKeyed p = All (λ e. (e.1.item_id ≡ e.0) × (p e.0 ≡ true))

  insert-IsKeyed :
      (p : Text → Bool) (c : EvictionCandidate f) (d : Dict (EvictionCandidate f))
      → p c.item_id ≡ true
      → IsKeyed p d
      → IsKeyed p (insert c.item_id c d)
  unfolding insert
  insert-IsKeyed p c [] h k = ((refl, h), tt)
  insert-IsKeyed p c ((j, w) ∷ d) h k = elim (Bool-cases (text_eq j c.item_id)) [
    | inl e ↦ rw e ((sym ((text_eq_iff j c.item_id).0 e), k.0.1), k.1)
    | inr e ↦ rw e (k.0, insert-IsKeyed p c d h k.1)
  ]

  put_items-IsKeyed :
      (p : Text → Bool) (cs : List (EvictionCandidate f)) (d : Dict (EvictionCandidate f))
      → All (λ c. p c.item_id ≡ true) cs
      → IsKeyed p d
      → IsKeyed p (put_items f cs d)
  unfolding put_items
  put_items-IsKeyed p [] d h k = k
  put_items-IsKeyed p (c ∷ cs) d h k =
      put_items-IsKeyed p cs (insert c.item_id c d) h.1 (insert-IsKeyed p c d h.0 k)

  IsHeld : Text → Dict (EvictionCandidate f) → Type 0
  IsHeld id d = Any (λ e. e.0 ≡ id) d

  insert-IsHeld :
      (c : EvictionCandidate f) (id : Text) (d : Dict (EvictionCandidate f))
      → (c.item_id ≡ id) ⊎ IsHeld id d
      → IsHeld id (insert c.item_id c d)
  unfolding insert IsHeld
  insert-IsHeld c id [] h = h
  insert-IsHeld c id ((j, w) ∷ d) h = elim (Bool-cases (text_eq j c.item_id)) [
    | inl e ↦ rw e (elim h [ inl m ↦ inl ((text_eq_iff j c.item_id).0 e ∙ m) | inr m ↦ m ])
    | inr e ↦ rw e (elim h [
      | inl m ↦ inr (insert-IsHeld c id d (inl m))
      | inr (inl m) ↦ inl m
      | inr (inr m) ↦ inr (insert-IsHeld c id d (inr m))
    ])
  ]

  put_items-IsHeld :
      (id : Text) (cs : List (EvictionCandidate f)) (d : Dict (EvictionCandidate f))
      → (has_id id cs ≡ true) ⊎ IsHeld id d
      → IsHeld id (put_items f cs d)
  unfolding put_items has_id
  put_items-IsHeld id [] d h = elim h [ inl e ↦ ground arith | inr m ↦ m ]
  put_items-IsHeld id (c ∷ cs) d h =
      put_items-IsHeld id cs (insert c.item_id c d) (elim (Bool-cases (has_id id cs)) [
        | inl e ↦ inl e
        | inr e ↦ inr (
            insert-IsHeld c id d (elim h [
              | inl g ↦ inl ((text_eq_iff c.item_id id).0 (ground arith))
              | inr m ↦ inr m
            ]))
      ])

  decide_total :
      (d : Dict EvictionReason) (cs : List (EvictionCandidate f))
      → All (λ c. (r : EvictionReason) × (lookup c.item_id d ≡ some r)) cs
      → (ds : List EvictionDecision) × (decide f d cs ≡ ok ds)
        × All (λ x. lookup x.item_id d ≡ some x.reason) ds
        × ((id : Text) → Any (λ c. c.item_id ≡ id) cs → Any (λ x. x.item_id ≡ id) ds)
  unfolding decide
  decide_total d [] h = ([], refl, tt, λ id m. m)
  decide_total d (c ∷ cs) h =
      let (r, e) = h.0 in
      let (ds, made, sound, all) = decide_total d cs h.1 in
      let x : EvictionDecision = record { item_id = c.item_id; reason = r } in
      (
        x ∷ ds,
        simp (decide, e, made) refl,
        (e, sound),
        λ id m. elim m [ inl g ↦ inl g | inr g ↦ inr (all id g) ],
      )

  has_id-later :
      (c : EvictionCandidate f) (cs ds : List (EvictionCandidate f))
      → All (λ x. has_id x.item_id cs ≡ true) ds
      → All (λ x. has_id x.item_id (c ∷ cs) ≡ true) ds
  unfolding has_id
  has_id-later c cs ds =
      All-map (λ x. has_id x.item_id cs ≡ true) (λ x. has_id x.item_id (c ∷ cs) ≡ true)
        (λ x h. ground arith) ds

  has_id_self : (cs : List (EvictionCandidate f)) → All (λ c. has_id c.item_id cs ≡ true) cs
  unfolding has_id
  has_id_self [] = tt
  has_id_self (c ∷ cs) =
      (ground (arith, text_eq_refl c.item_id), has_id-later c cs cs (has_id_self cs))

  Any-sorted :
      (P : EvictionCandidate f → Type 0) (cs : List (EvictionCandidate f))
      → Any P cs
      → Any P (sorted (ranks_before f) cs)
  unfolding sorted
  Any-sorted P [] a = a
  Any-sorted P (c ∷ cs) (inl p) =
      Any-insert_sorted (ranks_before f) P c (sorted (ranks_before f) cs) (inl p)
  Any-sorted P (c ∷ cs) (inr a) =
      Any-insert_sorted (ranks_before f) P c (sorted (ranks_before f) cs) (inr (Any-sorted P cs a))

  -- The values of a dictionary whose keys are the ids of its values.
  values-IsKeyed :
      (p : Text → Bool) (d : Dict (EvictionCandidate f))
      → IsKeyed p d
      → All (λ c. p c.item_id ≡ true) (map (λ e. e.1) d)
  values-IsKeyed p [] k = tt
  values-IsKeyed p (e ∷ d) k = (ap p k.0.0 ∙ k.0.1, values-IsKeyed p d k.1)

  values-IsHeld :
      (p : Text → Bool) (id : Text) (d : Dict (EvictionCandidate f))
      → IsKeyed p d
      → IsHeld id d
      → Any (λ c. c.item_id ≡ id) (map (λ e. e.1) d)
  unfolding IsHeld
  values-IsHeld p id [] k a = a
  values-IsHeld p id (e ∷ d) k (inl m) = inl (k.0.0 ∙ m)
  values-IsHeld p id (e ∷ d) k (inr a) = inr (values-IsHeld p id d k.1 a)

  module _ (overflow overaged : List (EvictionCandidate f)) where
    abbrev reasons : Dict EvictionReason
    reasons = put_reasons f max_age overaged (put_reasons f capacity overflow [])

    abbrev held : Dict (EvictionCandidate f)
    held = put_items f overaged (put_items f overflow [])

    abbrev is_selected : Text → Bool
    is_selected id = has_id id overaged || has_id id overflow

    lookup-reasons : (id : Text) → lookup id reasons ≡ expected overflow overaged id
    unfolding lookup
    lookup-reasons id =
        lookup-put_reasons id max_age overaged (put_reasons f capacity overflow [])
        ∙ ap (λ o. if has_id id overaged then some max_age else o)
            (lookup-put_reasons id capacity overflow [])

    held-IsKeyed : IsKeyed is_selected held
    held-IsKeyed =
        put_items-IsKeyed is_selected overaged (put_items f overflow [])
          (All-map (λ c. has_id c.item_id overaged ≡ true) (λ c. is_selected c.item_id ≡ true)
            (λ c h. ground arith) overaged (has_id_self overaged))
          (put_items-IsKeyed is_selected overflow []
            (All-map (λ c. has_id c.item_id overflow ≡ true) (λ c. is_selected c.item_id ≡ true)
              (λ c h. ground arith) overflow (has_id_self overflow))
            tt)

    held-IsHeld : (id : Text) → is_selected id ≡ true → IsHeld id held
    held-IsHeld id h = elim (Bool-cases (has_id id overaged)) [
      | inl e ↦ put_items-IsHeld id overaged (put_items f overflow []) (inl e)
      | inr e ↦
          put_items-IsHeld id overaged (put_items f overflow [])
            (inr (put_items-IsHeld id overflow [] (inl (ground arith))))
    ]

    lookup-selected :
        (id : Text) → is_selected id ≡ true → (r : EvictionReason) × (lookup id reasons ≡ some r)
    lookup-selected id h = elim (Bool-cases (has_id id overaged)) [
      | inl e ↦ (max_age, lookup-reasons id ∙ (rw e refl))
      | inr e ↦
          let g : has_id id overflow ≡ true = ground arith in
          (capacity, lookup-reasons id ∙ (rw (e, g) refl))
    ]

    expected-selected : (id : Text) → expected overflow overaged id ≢ none → is_selected id ≡ true
    expected-selected id h = elim (Bool-cases (is_selected id)) [
      | inl e ↦ e
      | inr e ↦ absurd (h (ground arith))
    ]

    decide-exact :
        (ds : List EvictionDecision) × (decide f reasons
            (sorted (ranks_before f) (map (λ e. e.1) held))
          ≡ ok ds)
        × All (λ x. expected overflow overaged x.item_id ≡ some x.reason) ds
        × ((id : Text) → expected overflow overaged id ≢ none → Any (λ x. x.item_id ≡ id) ds)
    decide-exact =
        let ordered = sorted (ranks_before f) (map (λ e. e.1) held) in
        let known =
          All-map (λ c. is_selected c.item_id ≡ true)
            (λ c. (r : EvictionReason) × (lookup c.item_id reasons ≡ some r))
            (λ c h. lookup-selected c.item_id h) ordered
            (All-sorted (ranks_before f) (λ c. is_selected c.item_id ≡ true) (map (λ e. e.1) held)
              (values-IsKeyed is_selected held held-IsKeyed)) in
        let (ds, made, sound, all) = decide_total reasons ordered known in
        (
          ds,
          made,
          All-map (λ x. lookup x.item_id reasons ≡ some x.reason)
              (λ x. expected overflow overaged x.item_id ≡ some x.reason)
              (λ x h. sym (lookup-reasons x.item_id) ∙ h) ds sound,
          λ id h. all id (
              Any-sorted (λ c. c.item_id ≡ id) (map (λ e. e.1) held)
                (values-IsHeld is_selected id held held-IsKeyed
                  (held-IsHeld id (expected-selected id h)))),
        )

  -- The plan never raises. Each of its decisions is on an item that one of the two triggers selects,
  -- with the age as its reason if both do, and each item that one of them selects has a decision.
  pub plan_backstop_eviction_exact :
      (candidates : List (EvictionCandidate f)) (config : Zone2BackstopConfig f)
      → (ds : List EvictionDecision) × (plan_backstop_eviction f candidates config ≡ ok ds)
        × All
            (λ x.
              expected
                (select_capacity_overflow f candidates config.capacity_cap)
                (select_max_age_exceeded f candidates config.max_age_seconds)
                x.item_id
              ≡ some x.reason)
            ds
        × ((id : Text)
            → expected
                (select_capacity_overflow f candidates config.capacity_cap)
                (select_max_age_exceeded f candidates config.max_age_seconds)
                id
              ≢ none
            → Any (λ x. x.item_id ≡ id) ds)
  unfolding plan_backstop_eviction
  plan_backstop_eviction_exact candidates config =
      decide-exact (select_capacity_overflow f candidates config.capacity_cap)
        (select_max_age_exceeded f candidates config.max_age_seconds)
