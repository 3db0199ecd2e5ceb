-- ===== src/Provenance/Sweep.antt =====
-- The journal behind the decorator of src/dashanan/application/conflict_detection_sweep.py holds no
-- contradiction that is not flagged.
use dashanan.Prelude.{
  ℕ, ◌≡◌, ◌⊎◌, Option, none, some, List, [], ◌∷◌, ◌++◌, Text, text_eq, true, ◌&&◌, Bool,
}
use mathlib.Core.List.{foldr}
use mathlib.Core.List.Perm
use dashanan.Prelude.Floats.{Floats}
use dashanan.Provenance.Hash.{disputed}
use dashanan.Provenance.Record.{ProvenanceRecord, ProvenanceUpdateEntry}
use dashanan.Provenance.Conflict.{
  latest_active_record, Journal, ProvenanceRepository, IsLineage, SweepWorld, append,
}

module _ (f : Floats) where
  -- The latest active record of an item is there in the journal so far, and the record names it as its
  -- predecessor.
  abbrev pub IsNaming : Journal f → Text → Text → ProvenanceRecord f → Type 0
  IsNaming before tenant_id item_id r =
      (found : Journal f) × (a : ProvenanceRecord f) × (e : ProvenanceUpdateEntry) × (rest : List
        ProvenanceUpdateEntry)
      × IsLineage f before tenant_id item_id found
      × (latest_active_record f found ≡ some a)
      × (r.update_history ≡ e ∷ rest)
      × (e.prev_provenance_id ≡ some a.provenance_id)

  -- The record names the latest active record of its item, or there is none.
  abbrev pub IsLinked : Journal f → ProvenanceRecord f → Type 0
  IsLinked before r =
      ((found : Journal f) × IsLineage f before r.tenant_id r.item_id found
        × (latest_active_record f found ≡ none))
      ⊎ IsNaming before r.tenant_id r.item_id r

  -- The record is disputed, and right behind a disputed correction of its item, which names the record
  -- that was the latest active one of the item.
  abbrev pub IsDowngraded : Journal f → ProvenanceRecord f → Type 0
  IsDowngraded before r =
      (r.conflict_status ≡ disputed)
      × ((b : Journal f) × (c : ProvenanceRecord f) × (before ≡ b ++ c ∷ [])
          × (c.conflict_status ≡ disputed)
          × (c.tenant_id ≡ r.tenant_id)
          × (c.item_id ≡ r.item_id)
          × IsNaming b r.tenant_id r.item_id c)

  -- Each record of the journal is linked to what was before it, or downgraded.
  abbrev pub IsFlagged : Journal f → Type 0
  IsFlagged j =
      (before after : Journal f) (r : ProvenanceRecord f)
      → j ≡ before ++ r ∷ after
      → IsLinked before r ⊎ IsDowngraded before r

  -- Whether a record is one of the item.
  abbrev is_of : Text → Text → ProvenanceRecord f → Bool
  is_of t i r = text_eq r.tenant_id t && text_eq r.item_id i

  -- Whether all records are of the item.
  abbrev all_of : Text → Text → Journal f → Bool
  all_of t i rs = foldr (λ r b. is_of t i r && b) true rs

  module _ (sha256 : List ℕ → Text) (isoformat : ℕ → Text) (format10 : f.Float → Text)
      (repr : Text → Text) (repository : ProvenanceRepository f) where
    -- The journals that calls of the decorator reach from an empty one, those that raise included.
    pub data Appends : Journal f → Type 0 where
      start : Appends []
      appended :
          {j : Journal f} (r : ProvenanceRecord f) (w : SweepWorld)
          → Appends j
          → Appends (append f sha256 isoformat format10 repr repository j r w).0
