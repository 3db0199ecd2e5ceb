-- ===== src/Gate/Submit/Threads.antt =====
-- Overlapping calls of `submit_write` of src/dashanan/application/provenance_write_gate.py. A call holds
-- the lock of its tenant and key from its lookup to its end; calls of other keys run between its lookup,
-- its token, its journaling and its callback.
use dashanan.Prelude.{
  ℕ, ◌≡◌, Bool, true, false, ◌&&◌, none, List, [], ◌∷◌, ◌++◌, All, if◌then◌else◌, Text, text_eq,
  Result, ok, raise,
}
use dashanan.Prelude.Floats.{Floats}
use dashanan.Gate.Request.{resolve_source_type, WriteRequest, WriteGateResult}
use dashanan.Gate.Submit.{
  World, GateConfig, Gate, find_by_idempotency_key, consume_rate_limit_token, admit,
}

-- A call that has found no entry for its key, and whether it has its token.
pub record Call : Type 0 where
  pub request : WriteRequest
  pub world : World
  pub has_token : Bool

abbrev pub same_key : WriteRequest → WriteRequest → Bool
same_key r s = text_eq r.tenant_id s.tenant_id && text_eq r.idempotency_key s.idempotency_key

-- The calls that hold a lock and have no entry yet, and the ids of the writes whose callback runs.
pub record Threads (f : Floats) (hmac : List ℕ → List ℕ → Text) (isoformat : ℕ → Text)
    : Type 0 where
  pub gate : Gate f hmac isoformat
  pub calls : List Call
  pub running : List Text

-- The world of a call up to its callback: the code in front of the callback does with the gate what the
-- whole does when the callback raises.
abbrev pub before_callback : World → World
before_callback w = record w { persist_returns = false }

-- Whether the callback is reached: the entry was appended.
abbrev pub is_called : World → Result WriteGateResult → Bool
is_called w (raise e) = w.append_returns
is_called w (ok a) = false

module _ (f : Floats) (hmac : List ℕ → List ℕ → Text) (isoformat : ℕ → Text)
    (cfg : GateConfig f hmac isoformat) where
  abbrev consumed : Gate f hmac isoformat → Call → Gate f hmac isoformat × Bool
  consumed g c =
      consume_rate_limit_token f hmac isoformat cfg g c.request.tenant_id c.world.bucket_now

  abbrev admitted : Gate f hmac isoformat → Call → Gate f hmac isoformat × Result WriteGateResult
  admitted g c =
      admit f hmac isoformat cfg g c.request (resolve_source_type c.request.source_type_raw)
        (before_callback c.world)

  -- One step of one call: it takes the lock and finds no entry, it takes its token or is throttled, it
  -- passes the guards and journals or is refused, or its callback returns or raises. A call that finds an
  -- entry changes nothing and has no step. The calls take turns at the head of their list.
  pub data Step : Threads f hmac isoformat → Threads f hmac isoformat → Type 0 where
    yields :
        {g : Gate f hmac isoformat} {c : Call} {cs : List Call} {ids : List Text}
        → Step
            (record { gate = g; calls = c ∷ cs; running = ids })
            (record { gate = g; calls = cs ++ c ∷ []; running = ids })
    enters :
        {g : Gate f hmac isoformat} {cs : List Call} {ids : List Text} (r : WriteRequest)
        (w : World)
        → find_by_idempotency_key g.journal r.tenant_id r.idempotency_key ≡ none
        → All (λ c. same_key c.request r ≡ false) cs
        → Step
            (record { gate = g; calls = cs; running = ids })
            (record {
              gate = g;
              calls = record { request = r; world = w; has_token = false } ∷ cs;
              running = ids;
            })
    passes :
        {g : Gate f hmac isoformat} {c : Call} {cs : List Call} {ids : List Text}
        → c.has_token ≡ false
        → (consumed g c).1 ≡ true
        → Step
            (record { gate = g; calls = c ∷ cs; running = ids })
            (record {
              gate = (consumed g c).0;
              calls = record c { has_token = true } ∷ cs;
              running = ids;
            })
    throttled :
        {g : Gate f hmac isoformat} {c : Call} {cs : List Call} {ids : List Text}
        → c.has_token ≡ false
        → (consumed g c).1 ≡ false
        → Step
            (record { gate = g; calls = c ∷ cs; running = ids })
            (record { gate = (consumed g c).0; calls = cs; running = ids })
    journals :
        {g : Gate f hmac isoformat} {c : Call} {cs : List Call} {ids : List Text}
        → c.has_token ≡ true
        → Step
            (record { gate = g; calls = c ∷ cs; running = ids })
            (record {
              gate = (admitted g c).0;
              calls = cs;
              running = if is_called c.world (admitted g c).1 then c.world.write_id ∷ ids else ids;
            })
    persists :
        {g : Gate f hmac isoformat} {cs : List Call} (before after : List Text) (id : Text)
        → Step
            (record { gate = g; calls = cs; running = before ++ id ∷ after })
            (record {
              gate = record g { persisted = g.persisted ++ id ∷ [] };
              calls = cs;
              running = before ++ after;
            })
    fails :
        {g : Gate f hmac isoformat} {cs : List Call} (before after : List Text) (id : Text)
        → Step
            (record { gate = g; calls = cs; running = before ++ id ∷ after })
            (record { gate = g; calls = cs; running = before ++ after })

  abbrev pub idle : Threads f hmac isoformat
  idle = record {
    gate = record { journal = []; rate_limit_buckets = []; persisted = [] };
    calls = [];
    running = [];
  }

  -- What overlapping calls reach from a fresh gate.
  pub data Reach : Threads f hmac isoformat → Type 0 where
    start : Reach idle
    next : {s t : Threads f hmac isoformat} → Reach s → Step s t → Reach t
