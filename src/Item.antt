-- ===== src/Item.antt =====
-- src/dashanan/domain/memory_item.py
use dashanan.Prelude.{ℕ, Text, is_blank, leb, if◌then◌else◌, Result, ok, raise, value_error}
use dashanan.Prelude.Floats.{Floats}
use dashanan.Zone.{ZoneId}

module _ (f : Floats) where
  open f use {Float}

  pub record MemoryItem : Type 0 where
    pub item_id : Text
    pub source_zone : ZoneId
    pub payload : Text
    pub token_count : ℕ
    pub score : Float

  -- `MemoryItem.__post_init__`
  unfoldable pub check_memory_item : MemoryItem → Result MemoryItem
  unfolding is_blank
  check_memory_item i =
      if is_blank i.item_id
      then raise value_error
      else if leb i.token_count 0
      then raise value_error
      else ok i
