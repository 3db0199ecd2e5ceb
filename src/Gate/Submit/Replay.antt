-- ===== src/Gate/Submit/Replay.antt =====
-- Repeated submissions to the gate of src/dashanan/application/provenance_write_gate.py.

use dashanan.Prelude.{
  ℕ, ◌≡◌, ◌≢◌, inl, inr, refl, sym, ap, ◌∙◌, Bool, Bool-cases, true, ◌&&◌, Option-cases, none, some,
  List, [], ◌∷◌, ◌++◌, arith, if◌then◌else◌, Text, text_eq, text_eq_refl, Result, ok, raise,
  foreign_error,
}
use dashanan.Prelude.Floats.{Floats}
use dashanan.Zone.{same_zone_iff}
use dashanan.Gate.Request.{
  SourceType, same_source_refl, WriteRequest, ProvenanceJournalEntry, WriteGateResult, accepted,
}
use dashanan.Gate.Submit.{
  World, GateConfig, Gate, find_by_idempotency_key, same_refs, is_verbatim_replay, entry_of,
  submit_write,
}
use dashanan.Gate.Submit.Cases.{IsAdmitted, IsJournaled, submit_write_found, submit_write_fresh}

-- `e` is the entry of the key.
abbrev pub is_key_of : Text → Text → ProvenanceJournalEntry → Bool
is_key_of t k e = text_eq e.tenant_id t && text_eq e.idempotency_key k

find-append_found :
    (es fs : List ProvenanceJournalEntry) (t k : Text) {e : ProvenanceJournalEntry}
    → find_by_idempotency_key es t k ≡ some e
    → find_by_idempotency_key (es ++ fs) t k ≡ some e
unfolding find_by_idempotency_key
find-append_found [] fs t k h = cc
find-append_found (d ∷ es) fs t k {e} h = ground (arith, find-append_found es fs t k {e = e})

pub find-append_missing :
    (es : List ProvenanceJournalEntry) (e : ProvenanceJournalEntry) (t k : Text)
    → find_by_idempotency_key es t k ≡ none
    → find_by_idempotency_key (es ++ e ∷ []) t k ≡ (if is_key_of t k e then some e else none)
unfolding find_by_idempotency_key
find-append_missing [] e t k h = refl
find-append_missing (d ∷ es) e t k h = ground (arith, find-append_missing es e t k)

same_refs_refl : (xs : List Text) → same_refs xs xs ≡ true
unfolding same_refs
same_refs_refl [] = refl
same_refs_refl (x ∷ xs) = ground (arith, text_eq_refl x, same_refs_refl xs)

module _ (f : Floats) (hmac : List ℕ → List ℕ → Text) (isoformat : ℕ → Text)
    (cfg : GateConfig f hmac isoformat) where
  -- Any calls of `submit_write`, one after another: none begins before the one before it has ended.
  pub data Runs (g : Gate f hmac isoformat) : Gate f hmac isoformat → Type 0 where
    here : Runs g g
    next :
        {h : Gate f hmac isoformat} (r : WriteRequest) (w : World)
        → Runs g h
        → Runs g (submit_write f hmac isoformat cfg h r w).0

  entry_of-verbatim :
      (r : WriteRequest) (w : World) (t : SourceType)
      → IsAdmitted f hmac isoformat cfg r w t
      → is_verbatim_replay r (entry_of f hmac isoformat cfg r t w) ≡ true
  unfolding is_verbatim_replay
  entry_of-verbatim r w t v = ground (
    arith,
    text_eq_refl r.item_id,
    same_zone_iff r.source_zone r.source_zone,
    v.resolved,
    same_source_refl t,
    same_refs_refl r.source_refs,
    text_eq_refl r.caller_identity,
    text_eq_refl r.retrieval_context_hash,
  )

  -- An entry that a key has, it keeps.
  step-found :
      (g : Gate f hmac isoformat) (r : WriteRequest) (w : World) (t k : Text)
      {e : ProvenanceJournalEntry}
      → find_by_idempotency_key g.journal t k ≡ some e
      → find_by_idempotency_key (submit_write f hmac isoformat cfg g r w).0.journal t k ≡ some e
  step-found g r w t k {e} h =
      elim (Option-cases (find_by_idempotency_key g.journal r.tenant_id r.idempotency_key)) [
        | inr (d, found) ↦ rw (submit_write_found f hmac isoformat cfg g r w d found) h
        | inl missing ↦ elim (submit_write_fresh f hmac isoformat cfg g r w missing) [
          | inl v ↦ rw v.appended (find-append_found g.journal _ t k h)
          | inr v ↦ rw v.journal_kept h
        ]
      ]

  Runs-found :
      {g h : Gate f hmac isoformat} (t k : Text) {e : ProvenanceJournalEntry}
      → find_by_idempotency_key g.journal t k ≡ some e
      → Runs g h
      → find_by_idempotency_key h.journal t k ≡ some e
  Runs-found t k found here = found
  Runs-found t k found (next {h = h} r w q) = step-found h r w t k (Runs-found t k found q)

  -- The entry that a call left behind for its request.
  left_behind :
      (g : Gate f hmac isoformat) (r : WriteRequest) (w : World) (g' : Gate f hmac isoformat)
      {res : Result WriteGateResult}
      → find_by_idempotency_key g.journal r.tenant_id r.idempotency_key ≡ none
      → IsJournaled f hmac isoformat cfg g r w g' res
      → (e : ProvenanceJournalEntry) × (find_by_idempotency_key g'.journal r.tenant_id
            r.idempotency_key
          ≡ some e)
        × (is_verbatim_replay r e ≡ true)
        × (e.write_id ≡ w.write_id)
        × (e.written_at ≡ w.written_now)
  left_behind g r w g' missing v =
      let e = entry_of f hmac isoformat cfg r v.source_type w in
      (
        e,
        rw v.appended (
            find-append_missing g.journal e r.tenant_id r.idempotency_key missing
            ∙ ground (arith, text_eq_refl r.tenant_id, text_eq_refl r.idempotency_key)),
        entry_of-verbatim r w v.source_type v.admitted,
        refl,
        refl,
      )

  -- Once a call accepted a request, every later submission of the same request, after any other
  -- calls and whatever the world does, returns the same write id and instant and changes nothing:
  -- the journal, the buckets and the persisted writes stay as they are.
  pub submit_write-replay :
      (g h : Gate f hmac isoformat) (r : WriteRequest) (w later : World) (id : Text) (at : ℕ)
      → (submit_write f hmac isoformat cfg g r w).1 ≡ ok (accepted id at)
      → Runs (submit_write f hmac isoformat cfg g r w).0 h
      → submit_write f hmac isoformat cfg h r later ≡ (h, ok (accepted id at))
  submit_write-replay g h r w later id at a q =
      let (e, found, v, i, t) = accepted_entry in
      let same = Runs-found r.tenant_id r.idempotency_key found q in
      submit_write_found f hmac isoformat cfg h r later e same ∙ (rw (v, i, t) refl)
    where
      g' : Gate f hmac isoformat
      g' = (submit_write f hmac isoformat cfg g r w).0

      accepted_entry :
          (e : ProvenanceJournalEntry) × (find_by_idempotency_key g'.journal r.tenant_id
              r.idempotency_key
            ≡ some e)
          × (is_verbatim_replay r e ≡ true)
          × (e.write_id ≡ id)
          × (e.written_at ≡ at)
      accepted_entry =
          elim (Option-cases (find_by_idempotency_key g.journal r.tenant_id r.idempotency_key)) [
            | inr (d, found) ↦
                let e = submit_write_found f hmac isoformat cfg g r w d found in
                let e' = sym (ap (λ q. q.1) e) ∙ a in
                elim (Bool-cases (is_verbatim_replay r d)) [
                  | inl v ↦ (
                    d,
                    step-found g r w r.tenant_id r.idempotency_key found,
                    v,
                    ground arith,
                    ground arith,
                  )
                  | inr v ↦ absurd (ground arith)
                ]
            | inl missing ↦ elim (submit_write_fresh f hmac isoformat cfg g r w missing) [
              | inl j ↦
                  let (d, found, v, i, t) = left_behind g r w g' missing j in
                  elim j.effect [
                    | inl (res, _) ↦ (d, found, v, i ∙ ground arith, t ∙ ground arith)
                    | inr (_, res, _) ↦ absurd (ground arith)
                  ]
              | inr j ↦ elim j.not_accepted [
                | inl (s, c, res) ↦ absurd (ground arith)
                | inr res ↦ absurd (ground arith)
              ]
            ]
          ]

  -- If the callback of a fresh write raises, which happens behind the append, then the write is not
  -- among the persisted ones behind that call, and yet every later submission of the same request, after
  -- any other calls, is accepted with the id of that write and leaves the gate as it is, the persisted
  -- writes included.
  pub failed_persist_is_accepted_later :
      (g h : Gate f hmac isoformat) (r : WriteRequest) (w later : World)
      → find_by_idempotency_key g.journal r.tenant_id r.idempotency_key ≡ none
      → (submit_write f hmac isoformat cfg g r w).1 ≡ raise foreign_error
      → (submit_write f hmac isoformat cfg g r w).0.journal ≢ g.journal
      → Runs (submit_write f hmac isoformat cfg g r w).0 h
      → ((submit_write f hmac isoformat cfg g r w).0.persisted ≡ g.persisted)
        × (submit_write f hmac isoformat cfg h r later
            ≡ (h, ok (accepted w.write_id w.written_now)))
  failed_persist_is_accepted_later g h r w later missing raised grew q =
      let g' = (submit_write f hmac isoformat cfg g r w).0 in
      elim (submit_write_fresh f hmac isoformat cfg g r w missing) [
        | inr j ↦ absurd (grew j.journal_kept)
        | inl j ↦
            let (d, found, v, i, t) = left_behind g r w g' missing j in
            let same = Runs-found r.tenant_id r.idempotency_key found q in
            let again : submit_write f hmac isoformat cfg h r later
                ≡ (h, ok (accepted w.write_id w.written_now)) =
              submit_write_found f hmac isoformat cfg h r later d same ∙ (rw (v, i, t) refl) in
            elim j.effect [
              | inl (res, _) ↦ absurd (ground arith)
              | inr (_, _, kept) ↦ (kept, again)
            ]
      ]
