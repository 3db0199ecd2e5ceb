-- ===== src/Provenance/Chain.antt =====
-- What `verify_chain` of src/dashanan/domain/provenance_record.py establishes of a lineage.
use dashanan.Prelude.{
  ℕ, ◌≡◌, ◌≢◌, ◌⊎◌, inl, inr, refl, sym, ap, ◌∙◌, Bool, Bool-cases, true, Option, none, some, List,
  [], ◌∷◌, ◌++◌, arith, length, length-append, append-split, All, Text, text_eq, text_eq_iff,
  text_eq_refl,
}
use dashanan.Prelude.Floats.{Floats}
use dashanan.Zone.{zone_value}
use dashanan.Gate.Canonical.{canonicalize_fields, canonicalize_fields-injective, IsField}
use dashanan.Provenance.Hash.{
  tail_fields, body_fields, hashed_fields, compute_record_hash, source_type_value, status_value,
  text_or_empty, flag_text,
}
use dashanan.Provenance.Record.{
  ProvenanceRecord, same_option, hashed_of, is_hash_of, verify_from, verify_chain,
}

pub same_option-eq : (a b : Option Text) → same_option a b ≡ true → a ≡ b
unfolding same_option
same_option-eq none none e = refl
same_option-eq (some a) (some b) e = ap some ((text_eq_iff a b).0 e)
same_option-eq none (some b) e = ground arith
same_option-eq (some a) none e = ground arith

pub same_option_refl : (a : Option Text) → same_option a a ≡ true
unfolding same_option
same_option_refl none = refl
same_option_refl (some a) = text_eq_refl a

-- The last of some texts.
last_text : List Text → Text
last_text [] = []
last_text (x ∷ []) = x
last_text (x ∷ y ∷ xs) = last_text (y ∷ xs)

last_text-append : (xs : List Text) (p : Text) → last_text (xs ++ p ∷ []) ≡ p
unfolding last_text
last_text-append [] p = refl
last_text-append (x ∷ []) p = refl
last_text-append (x ∷ y ∷ xs) p = last_text-append (y ∷ xs) p

module _ (f : Floats) (sha256 : List ℕ → Text) (isoformat : ℕ → Text)
    (format10 : f.Float → Text) where
  abbrev pub fields_of : ProvenanceRecord f → List Text
  fields_of r = hashed_fields f sha256 isoformat format10 (hashed_of f r)

  -- Two different byte strings with the same digest.
  abbrev pub Collision : Type 0
  Collision = (x : List ℕ) × (y : List ℕ) × (x ≢ y) × (sha256 x ≡ sha256 y)

  -- Two records of the same fact: all that is hashed is the same, the instant by its text and the
  -- confidence to ten digits.
  abbrev pub SameFact : ProvenanceRecord f → ProvenanceRecord f → Type 0
  SameFact r s =
      (r.tenant_id ≡ s.tenant_id)
      × (r.provenance_id ≡ s.provenance_id)
      × (r.item_id ≡ s.item_id)
      × (zone_value r.source_zone ≡ zone_value s.source_zone)
      × (source_type_value r.source_type ≡ source_type_value s.source_type)
      × (r.source_refs ≡ s.source_refs)
      × (isoformat r.write_timestamp ≡ isoformat s.write_timestamp)
      × (r.retrieval_context_hash ≡ s.retrieval_context_hash)
      × (status_value r.conflict_status ≡ status_value s.conflict_status)
      × (r.invalidation_flag ≡ s.invalidation_flag)
      × (format10 r.confidence ≡ format10 s.confidence)

  flag-injective : (a b : Bool) → flag_text a ≡ flag_text b → a ≡ b
  unfolding flag_text
  flag-injective a b e = ground arith

  -- The references of two records and what is behind them.
  refs-split :
      (r s : ProvenanceRecord f)
      → (r.source_refs ++ tail_fields f sha256 isoformat format10 (hashed_of f r))
          ++ text_or_empty r.prev_hash ∷ []
        ≡ (s.source_refs ++ tail_fields f sha256 isoformat format10 (hashed_of f s))
          ++ text_or_empty s.prev_hash ∷ []
      → (r.source_refs ≡ s.source_refs)
        × (tail_fields f sha256 isoformat format10 (hashed_of f r)
            ≡ tail_fields f sha256 isoformat format10 (hashed_of f s))
  unfolding tail_fields hashed_of
  refs-split r s e =
      let t = tail_fields f sha256 isoformat format10 (hashed_of f r) in
      let u = tail_fields f sha256 isoformat format10 (hashed_of f s) in
      let same : length r.source_refs ≡ length s.source_refs = omega (
        arith,
        ap length e,
        length-append (r.source_refs ++ t) (text_or_empty r.prev_hash ∷ []),
        length-append (s.source_refs ++ u) (text_or_empty s.prev_hash ∷ []),
        length-append r.source_refs t,
        length-append s.source_refs u,
      ) in
      let bodies =
        append-split (r.source_refs ++ t) (text_or_empty r.prev_hash ∷ []) (s.source_refs ++ u)
          (text_or_empty s.prev_hash ∷ [])
          (omega (arith, same, length-append r.source_refs t, length-append s.source_refs u)) e in
      append-split r.source_refs t s.source_refs u same bodies.0

  fields_of-SameFact : (r s : ProvenanceRecord f) → fields_of r ≡ fields_of s → SameFact r s
  unfolding hashed_fields body_fields tail_fields hashed_of
  fields_of-SameFact r s e =
      let (refs, rest) = refs-split r s (cc) in
      let flags : flag_text r.invalidation_flag ≡ flag_text s.invalidation_flag = cc in
      (
        cc,
        cc,
        cc,
        cc,
        cc,
        refs,
        cc,
        cc,
        cc,
        flag-injective r.invalidation_flag s.invalidation_flag flags,
        cc,
      )

  prev_of :
      (r s : ProvenanceRecord f)
      → fields_of r ≡ fields_of s
      → text_or_empty r.prev_hash ≡ text_or_empty s.prev_hash
  unfolding hashed_fields hashed_of
  prev_of r s e =
      sym (
        last_text-append (body_fields f sha256 isoformat format10 (hashed_of f r))
          (text_or_empty r.prev_hash))
      ∙ ap last_text e
      ∙ last_text-append (body_fields f sha256 isoformat format10 (hashed_of f s))
          (text_or_empty s.prev_hash)

  -- Two records with the same hash are of the same fact and have the same predecessor, or their
  -- bytes collide.
  same_hash :
      (r s : ProvenanceRecord f)
      → is_hash_of f sha256 isoformat format10 r ≡ true
      → is_hash_of f sha256 isoformat format10 s ≡ true
      → r.record_hash ≡ s.record_hash
      → All IsField (fields_of r)
      → All IsField (fields_of s)
      → (SameFact r s × (text_or_empty r.prev_hash ≡ text_or_empty s.prev_hash)) ⊎ Collision
  unfolding is_hash_of compute_record_hash
  same_hash r s hr hs e fr fs =
      let x = canonicalize_fields (fields_of r) in
      let y = canonicalize_fields (fields_of s) in
      let er = (text_eq_iff (sha256 x) r.record_hash).0 hr in
      let es = (text_eq_iff (sha256 y) s.record_hash).0 hs in
      elim (Bool-cases (text_eq x y)) [
        | inl same ↦
            let g =
              canonicalize_fields-injective (fields_of r) (fields_of s) fr fs
                ((text_eq_iff x y).0 same) in
            inl (fields_of-SameFact r s g, prev_of r s g)
        | inr other ↦ inr (x, y, (λ g. ground (arith, text_eq_iff x y)), er ∙ e ∙ sym es)
      ]

  -- The hash that the next record must name.
  abbrev pub last_hash : Option Text → List (ProvenanceRecord f) → Option Text
  last_hash expected [] = expected
  last_hash expected (r ∷ rs) = last_hash (some r.record_hash) rs

  abbrev pub AllSame : List (ProvenanceRecord f) → List (ProvenanceRecord f) → Type 0
  AllSame [] [] = Unit
  AllSame [] (s ∷ ss) = ⊥
  AllSame (r ∷ rs) [] = ⊥
  AllSame (r ∷ rs) (s ∷ ss) = SameFact r s × AllSame rs ss

  verify_from-parts :
      (e : Option Text) (r : ProvenanceRecord f) (rs : List (ProvenanceRecord f))
      → verify_from f sha256 isoformat format10 e (r ∷ rs) ≡ true
      → (r.prev_hash ≡ e)
        × (is_hash_of f sha256 isoformat format10 r ≡ true)
        × (verify_from f sha256 isoformat format10 (some r.record_hash) rs ≡ true)
  unfolding verify_from
  verify_from-parts e r rs v =
      (same_option-eq r.prev_hash e (ground arith), ground arith, ground arith)

  verify_from-AllSame :
      (d e : Option Text) (rs ss : List (ProvenanceRecord f))
      → length rs ≡ length ss
      → verify_from f sha256 isoformat format10 d rs ≡ true
      → verify_from f sha256 isoformat format10 e ss ≡ true
      → text_or_empty (last_hash d rs) ≡ text_or_empty (last_hash e ss)
      → All (λ r. All IsField (fields_of r)) rs
      → All (λ s. All IsField (fields_of s)) ss
      → (AllSame rs ss × (text_or_empty d ≡ text_or_empty e)) ⊎ Collision
  verify_from-AllSame d e [] [] n v w h fr fs = inl (tt, h)
  verify_from-AllSame d e [] (s ∷ ss) n v w h fr fs = absurd (omega (arith, n))
  verify_from-AllSame d e (r ∷ rs) [] n v w h fr fs = absurd (omega (arith, n))
  verify_from-AllSame d e (r ∷ rs) (s ∷ ss) n v w h fr fs =
      let (pr, hr, vr) = verify_from-parts d r rs v in
      let (ps, hs, vs) = verify_from-parts e s ss w in
      elim (verify_from-AllSame (some r.record_hash) (some s.record_hash) rs ss (omega (arith, n))
        vr vs h fr.1 fs.1) [
          | inr c ↦ inr c
          | inl (same, hash) ↦ elim (same_hash r s hr hs (unfold text_or_empty in hash) fr.0 fs.0) [
            | inr c ↦ inr c
            | inl (fact, prev) ↦
                inl ((fact, same), sym (ap text_or_empty pr) ∙ prev ∙ ap text_or_empty ps)
          ]
        ]

  -- If two lineages of the same length are both verified and end in the same hash, then they record
  -- the same facts in the same order, or two different byte strings have the same SHA-256. So who
  -- keeps the last hash notices each change to what is hashed, but by a collision.
  pub verify_chain-tamper :
      (r s : ProvenanceRecord f) (rs ss : List (ProvenanceRecord f))
      → length rs ≡ length ss
      → verify_chain f sha256 isoformat format10 (r ∷ rs) ≡ true
      → verify_chain f sha256 isoformat format10 (s ∷ ss) ≡ true
      → last_hash none (r ∷ rs) ≡ last_hash none (s ∷ ss)
      → All (λ x. All IsField (fields_of x)) (r ∷ rs)
      → All (λ x. All IsField (fields_of x)) (s ∷ ss)
      → AllSame (r ∷ rs) (s ∷ ss) ⊎ Collision
  unfolding verify_chain
  verify_chain-tamper r s rs ss n v w h fr fs =
      elim (verify_from-AllSame r.prev_hash s.prev_hash (r ∷ rs) (s ∷ ss) (omega (arith, n)) v w
        (ap text_or_empty h) fr fs) [ inl (same, _) ↦ inl same | inr c ↦ inr c ]
