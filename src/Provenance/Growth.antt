-- ===== src/Provenance/Growth.antt =====
-- How a lineage of src/dashanan/domain/provenance_record.py grows, and what its hashes do not cover.
use dashanan.Prelude.{
  ℕ, ◌≡◌, refl, sym, ap, ◌∙◌, subst, true, false, not, Option, none, some, List, [], ◌∷◌, ◌++◌, map,
  arith, if◌then◌else◌, Text, text_eq_refl, ok, >>=-eq-ok, ◌>>=◌, ok-injective,
}
use dashanan.Prelude.Floats.{Floats}
use dashanan.Provenance.Hash.{compute_confidence}
use dashanan.Provenance.Record.{
  ProvenanceRecord, ProvenanceUpdateEntry, Creation, creation_entry, create, made_record,
  check_entry, check_record, same_option, hashed_of, is_hash_of, verify_from, verify_chain,
}
use dashanan.Provenance.Chain.{last_hash, same_option_refl}

module _ (f : Floats) (sha256 : List ℕ → Text) (isoformat : ℕ → Text)
    (format10 : f.Float → Text) where
  check_entry-eq : (e d : ProvenanceUpdateEntry) → check_entry e ≡ ok d → e ≡ d
  unfolding check_entry
  check_entry-eq e d h = ground (arith, ok-injective {a = e} {b = d})

  check_record-eq : (r s : ProvenanceRecord f) → check_record f r ≡ ok s → r ≡ s
  unfolding check_record
  check_record-eq r s h = ground (arith, ok-injective {a = r} {b = s})

  -- What `create` returns when it returns.
  pub create-eq-ok :
      (c : Creation f) (r : ProvenanceRecord f)
      → create f sha256 isoformat format10 c ≡ ok r
      → (v : f.Float) × (compute_confidence f c.source_type c.conflict_status
            c.failed_faithfulness_check c.compression_generation c.source_confidences
          ≡ ok v)
        × (r ≡ made_record f sha256 isoformat format10 c v (creation_entry f c))
  unfolding create
  create-eq-ok c r h =
      let confidence =
        compute_confidence f c.source_type c.conflict_status c.failed_faithfulness_check
          c.compression_generation c.source_confidences in
      let made = made_record f sha256 isoformat format10 c in
      let (v, hv, h') =
        >>=-eq-ok confidence
          (λ v. check_entry (creation_entry f c) >>= λ e. check_record f (made v e)) h in
      let (e, he, h'') =
        >>=-eq-ok (check_entry (creation_entry f c)) (λ e. check_record f (made v e)) h' in
      (
        v,
        hv,
        sym (check_record-eq (made v e) r h'')
            ∙ ap (made v) (sym (check_entry-eq (creation_entry f c) e he)),
      )

  created-is_hash_of :
      (c : Creation f) (r : ProvenanceRecord f)
      → create f sha256 isoformat format10 c ≡ ok r
      → (is_hash_of f sha256 isoformat format10 r ≡ true) × (r.prev_hash ≡ c.prev_hash)
  unfolding is_hash_of made_record hashed_of
  created-is_hash_of c r h =
      let (v, _, e) = create-eq-ok c r h in
      let m = made_record f sha256 isoformat format10 c v (creation_entry f c) in
      subst (λ x. (is_hash_of f sha256 isoformat format10 x ≡ true) × (x.prev_hash ≡ c.prev_hash))
        (sym e) (text_eq_refl m.record_hash, refl)

  verify_from-append :
      (d : Option Text) (rs : List (ProvenanceRecord f)) (r : ProvenanceRecord f)
      → verify_from f sha256 isoformat format10 d rs ≡ true
      → r.prev_hash ≡ last_hash f sha256 isoformat format10 d rs
      → is_hash_of f sha256 isoformat format10 r ≡ true
      → verify_from f sha256 isoformat format10 d (rs ++ r ∷ []) ≡ true
  unfolding verify_from
  verify_from-append d [] r v p h =
      let q : same_option r.prev_hash d ≡ true =
        subst (λ x. same_option r.prev_hash x ≡ true) p (same_option_refl r.prev_hash) in
      ground arith
  verify_from-append d (s ∷ rs) r v p h =
      let tail : verify_from f sha256 isoformat format10 (some s.record_hash) rs ≡ true =
        ground arith in
      ground (arith, verify_from-append (some s.record_hash) rs r tail p h)

  -- A lineage that is verified stays so when a record is appended that `create` returned for the
  -- hash of its last record.
  pub verify_chain-create :
      (s r : ProvenanceRecord f) (rs : List (ProvenanceRecord f)) (c : Creation f)
      → verify_chain f sha256 isoformat format10 (s ∷ rs) ≡ true
      → c.prev_hash ≡ last_hash f sha256 isoformat format10 none (s ∷ rs)
      → create f sha256 isoformat format10 c ≡ ok r
      → verify_chain f sha256 isoformat format10 (s ∷ rs ++ r ∷ []) ≡ true
  unfolding verify_chain
  verify_chain-create s r rs c v p made =
      let (h, q) = created-is_hash_of c r made in
      verify_from-append s.prev_hash (s ∷ rs) r v (q ∙ p) h

  -- The record with another history.
  abbrev pub with_history :
      (ProvenanceRecord f → List ProvenanceUpdateEntry) → ProvenanceRecord f → ProvenanceRecord f
  with_history edit r = record r { update_history = edit r }

  verify_from-history :
      (edit : ProvenanceRecord f → List ProvenanceUpdateEntry) (d : Option Text)
      (rs : List (ProvenanceRecord f))
      → verify_from f sha256 isoformat format10 d (map (with_history edit) rs)
        ≡ verify_from f sha256 isoformat format10 d rs
  unfolding verify_from is_hash_of hashed_of
  verify_from-history edit d [] = refl
  verify_from-history edit d (r ∷ rs) =
      ap
        (λ rest.
          if not (same_option r.prev_hash d)
          then false
          else if not (is_hash_of f sha256 isoformat format10 r)
          then false
          else rest)
        (verify_from-history edit (some r.record_hash) rs)

  -- No change to the histories, that is to the actor, the change and the predecessor's id of any
  -- record, is noticed: a lineage is verified with other histories exactly if it is with its own.
  pub verify_chain-history :
      (edit : ProvenanceRecord f → List ProvenanceUpdateEntry) (rs : List (ProvenanceRecord f))
      → verify_chain f sha256 isoformat format10 (map (with_history edit) rs)
        ≡ verify_chain f sha256 isoformat format10 rs
  unfolding verify_chain
  verify_chain-history edit [] = refl
  verify_chain-history edit (r ∷ rs) = verify_from-history edit r.prev_hash (r ∷ rs)
