-- ===== src/Gate/Submit/Cases.antt =====
-- What one call of `submit_write` of src/dashanan/application/provenance_write_gate.py can do.
use dashanan.Prelude.{
  ℕ, ◌≡◌, ◌⊎◌, inl, inr, refl, sym, subst, ◌∙◌, Bool-cases, true, false, ◌&&◌, ◌||◌, not, Option,
  none, some, List, [], ◌∷◌, ◌++◌, arith, if◌then◌else◌, Text, is_blank, Result, ok, raise,
  foreign_error, Error,
}
use dashanan.Prelude.Floats.{Floats}
use dashanan.Gate.Request.{
  SourceType, resolve_source_type, requires_user_turn_marker, is_hex_sha256, WriteRequest,
  ProvenanceJournalEntry, WriteGateResult, accepted, rejected, ErrorCode, unresolvable_source_type,
  missing_user_turn_marker, forged_user_turn_marker, missing_caller_binding, idempotency_key_reused,
  rate_limit_exceeded,
}
use dashanan.Gate.Submit.{
  World, GateConfig, Gate, find_by_idempotency_key, is_verbatim_replay, consume_rate_limit_token,
  is_attested, entry_of, journal_and_persist, admit, submit_write,
}

module _ (f : Floats) (hmac : List ℕ → List ℕ → Text) (isoformat : ℕ → Text)
    (cfg : GateConfig f hmac isoformat) where
  -- The guards that a source type must pass.
  pub record IsAdmitted (r : WriteRequest) (w : World) (t : SourceType) : Type 0 where
    pub resolved : resolve_source_type r.source_type_raw ≡ some t
    pub marked : requires_user_turn_marker t ≡ true → r.user_turn_marker ≡ true
    pub attested :
        requires_user_turn_marker t ≡ true → is_attested f hmac isoformat cfg r w.verify_now ≡ true
    pub named : is_blank r.caller_identity ≡ false
    pub hashed : is_hex_sha256 r.retrieval_context_hash ≡ true

  -- The entry was appended, and then the callback was called.
  pub record IsJournaled (g : Gate f hmac isoformat) (r : WriteRequest) (w : World)
      (g' : Gate f hmac isoformat) (res : Result WriteGateResult) : Type 0 where
    pub source_type : SourceType
    pub append_returned : w.append_returns ≡ true
    pub unpersisted :
        w.persist_returns ≡ false → (res ≡ raise foreign_error) × (g'.persisted ≡ g.persisted)
    pub admitted : IsAdmitted r w source_type
    pub appended : g'.journal ≡ g.journal ++ entry_of f hmac isoformat cfg r source_type w ∷ []
    pub effect :
        ((res ≡ ok (accepted w.write_id w.written_now))
          × (g'.persisted ≡ g.persisted ++ w.write_id ∷ []))
        ⊎ ((w.persist_returns ≡ false) × (res ≡ raise foreign_error) × (g'.persisted ≡ g.persisted))

  -- Nothing was appended and the callback was not called, and the write was not accepted.
  pub record IsRefused (w : World) (g g' : Gate f hmac isoformat) (res : Result WriteGateResult)
      : Type 0 where
    pub not_called : (e : Error) → res ≡ raise e → w.append_returns ≡ false
    pub journal_kept : g'.journal ≡ g.journal
    pub persisted_kept : g'.persisted ≡ g.persisted
    pub not_accepted :
        ((s : ℕ) × (c : ErrorCode) × (res ≡ ok (rejected s c))) ⊎ (res ≡ raise foreign_error)

  abbrev pub IsOutcome :
      Gate f hmac isoformat
      → WriteRequest
      → World
      → Gate f hmac isoformat × Result WriteGateResult
      → Type 0
  IsOutcome g r w out = IsJournaled g r w out.0 out.1 ⊎ IsRefused w g out.0 out.1

  journal_and_persist-cases :
      (g : Gate f hmac isoformat) (r : WriteRequest) (w : World) (t : SourceType)
      → IsAdmitted r w t
      → IsOutcome g r w (journal_and_persist f hmac isoformat cfg g r t w)
  unfolding journal_and_persist
  journal_and_persist-cases g r w t v = elim (Bool-cases w.append_returns) [
    | inr e ↦ simp e (
        inr (record {
          not_called = λ x h. e;
          journal_kept = refl;
          persisted_kept = refl;
          not_accepted = inr refl;
        }))
    | inl e ↦ elim (Bool-cases w.persist_returns) [
      | inl p ↦
          simp (e, p)
            (inl (record {
              source_type = t;
              append_returned = e;
              unpersisted = λ h. absurd (cc (p, h));
              admitted = v;
              appended = refl;
              effect = inl (refl, refl);
            }))
      | inr p ↦
          simp (e, p)
            (inl (record {
              source_type = t;
              append_returned = e;
              unpersisted = λ h. (refl, refl);
              admitted = v;
              appended = refl;
              effect = inr (p, refl, refl);
            }))
    ]
  ]

  refused :
      (g : Gate f hmac isoformat) (r : WriteRequest) (w : World) (s : ℕ) (c : ErrorCode)
      → IsOutcome g r w (g, ok (rejected s c))
  refused g r w s c = inr (record {
    not_called = λ e h. absurd (ground (arith, h));
    journal_kept = refl;
    persisted_kept = refl;
    not_accepted = inl (s, c, refl);
  })

  admit_known :
      (g : Gate f hmac isoformat) (r : WriteRequest) (w : World) (t : SourceType)
      → resolve_source_type r.source_type_raw ≡ some t
      → IsOutcome g r w (admit f hmac isoformat cfg g r (some t) w)
  unfolding admit
  admit_known g r w t known =
      let needs = requires_user_turn_marker t in
      elim (Bool-cases (needs && not r.user_turn_marker)) [
        | inl e ↦ simp e (refused g r w 422 missing_user_turn_marker)
        | inr e ↦
            elim (Bool-cases (needs && not (is_attested f hmac isoformat cfg r w.verify_now))) [
              | inl e' ↦ simp (e, e') (refused g r w 422 forged_user_turn_marker)
              | inr e' ↦
                  elim (Bool-cases
                    (is_blank r.caller_identity || not (is_hex_sha256 r.retrieval_context_hash))) [
                      | inl e'' ↦ simp (e, e', e'') (refused g r w 422 missing_caller_binding)
                      | inr e'' ↦
                          simp (e, e', e'')
                            (journal_and_persist-cases g r w t (record {
                              resolved = known;
                              marked = λ n. ground arith;
                              attested = λ n. ground arith;
                              named = ground arith;
                              hashed = ground arith;
                            }))
                    ]
            ]
      ]

  pub admit-cases :
      (g : Gate f hmac isoformat) (r : WriteRequest) (w : World) (o : Option SourceType)
      → resolve_source_type r.source_type_raw ≡ o
      → IsOutcome g r w (admit f hmac isoformat cfg g r o w)
  unfolding admit
  admit-cases g r w none known = refused g r w 422 unresolvable_source_type
  admit-cases g r w (some t) known = admit_known g r w t known

  pub consume_keeps :
      (g : Gate f hmac isoformat) (tenant_id : Text) (now : ℕ)
      → let limited = consume_rate_limit_token f hmac isoformat cfg g tenant_id now in
        (limited.0.journal ≡ g.journal) × (limited.0.persisted ≡ g.persisted)
  unfolding consume_rate_limit_token
  consume_keeps g tenant_id now = (refl, refl)

  widen :
      (g h : Gate f hmac isoformat) (r : WriteRequest) (w : World)
      (out : Gate f hmac isoformat × Result WriteGateResult)
      → h.journal ≡ g.journal
      → h.persisted ≡ g.persisted
      → IsOutcome h r w out
      → IsOutcome g r w out
  widen g h r w out j p (inl v) = inl (record {
    source_type = v.source_type;
    append_returned = v.append_returned;
    unpersisted = λ h. ((v.unpersisted h).0, (v.unpersisted h).1 ∙ p);
    admitted = v.admitted;
    appended = rw (← j) v.appended;
    effect = rw (← p) v.effect;
  })
  widen g h r w out j p (inr v) = inr (record {
    not_called = v.not_called;
    journal_kept = v.journal_kept ∙ j;
    persisted_kept = v.persisted_kept ∙ p;
    not_accepted = v.not_accepted;
  })

  -- With an entry for the key in the journal, the call changes nothing; it returns the result of
  -- the entry if the request is the same, and refuses it otherwise.
  pub submit_write_found :
      (g : Gate f hmac isoformat) (r : WriteRequest) (w : World) (e : ProvenanceJournalEntry)
      → find_by_idempotency_key g.journal r.tenant_id r.idempotency_key ≡ some e
      → submit_write f hmac isoformat cfg g r w ≡ (
        g,
        ok (
            if is_verbatim_replay r e
            then accepted e.write_id e.written_at
            else rejected 422 idempotency_key_reused),
      )
  unfolding submit_write
  submit_write_found g r w e found = elim (Bool-cases (is_verbatim_replay r e)) [
    | inl v ↦ rw (found, submit_write) (rw v refl)
    | inr v ↦ rw (found, submit_write) (rw v refl)
  ]

  -- With no entry for the key, the call appends the entry of the request and then calls the
  -- callback, or does neither.
  pub submit_write_fresh :
      (g : Gate f hmac isoformat) (r : WriteRequest) (w : World)
      → find_by_idempotency_key g.journal r.tenant_id r.idempotency_key ≡ none
      → IsOutcome g r w (submit_write f hmac isoformat cfg g r w)
  unfolding submit_write
  submit_write_fresh g r w missing =
      let limited = consume_rate_limit_token f hmac isoformat cfg g r.tenant_id w.bucket_now in
      let (j, p) = consume_keeps g r.tenant_id w.bucket_now in
      let a = resolve_source_type r.source_type_raw in
      let e : submit_write f hmac isoformat cfg g r w ≡ (
          if limited.1
          then admit f hmac isoformat cfg limited.0 r a w
          else (limited.0, ok (rejected 429 rate_limit_exceeded))) =
        rw (missing, submit_write) refl in
      elim (Bool-cases limited.1) [
        | inl passed ↦
            subst (IsOutcome g r w) (sym (e ∙ rw passed refl))
              (widen g limited.0 r w _ j p (admit-cases limited.0 r w a refl))
        | inr throttled ↦
            subst (IsOutcome g r w) (sym (e ∙ rw throttled refl))
              (widen g limited.0 r w _ j p (refused limited.0 r w 429 rate_limit_exceeded))
      ]
