-- ===== src/Zone.antt =====
-- src/dashanan/domain/zone.py
use dashanan.Prelude.{
  Text, codes, ◌≡◌, refl, Bool, true, List, [], ◌∷◌, ◌==◌, ℕ, ◌↔◌, if◌then◌else◌, sym, ap, ◌∙◌,
  ==_iff, ==_refl,
}

pub data ZoneId : Type 0 where
  working episodic semantic procedural entity retrieval_index provenance consolidation : ZoneId

-- The place of a member in the `Enum`.
ordinal : ZoneId → ℕ
ordinal working = 0
ordinal episodic = 1
ordinal semantic = 2
ordinal procedural = 3
ordinal entity = 4
ordinal retrieval_index = 5
ordinal provenance = 6
ordinal consolidation = 7

-- `a == b` for members.
unfoldable pub same_zone : ZoneId → ZoneId → Bool
unfolding ordinal
same_zone a b = ordinal a == ordinal b

-- `list(ZoneId)`
abbrev pub all_zones : List ZoneId
all_zones =
    working ∷ episodic ∷ semantic ∷ procedural ∷ entity ∷ retrieval_index ∷ provenance
    ∷ consolidation ∷ []

of_ordinal : ℕ → ZoneId
of_ordinal n =
    if n == 0
    then working
    else if n == 1
    then episodic
    else if n == 2
    then semantic
    else if n == 3
    then procedural
    else if n == 4
    then entity
    else if n == 5
    then retrieval_index
    else if n == 6
    then provenance
    else consolidation

of_ordinal-ordinal : (a : ZoneId) → of_ordinal (ordinal a) ≡ a
unfolding ordinal of_ordinal
of_ordinal-ordinal working = refl
of_ordinal-ordinal _ = refl

pub same_zone_iff : (a b : ZoneId) → (same_zone a b ≡ true) ↔ (a ≡ b)
unfolding same_zone
same_zone_iff a b = (
  λ h.
      sym (of_ordinal-ordinal a)
      ∙ ap of_ordinal ((==_iff (ordinal a) (ordinal b)).0 h)
      ∙ of_ordinal-ordinal b,
  λ e. rw e (==_refl (ordinal b)),
)

-- `zone.value`
unfoldable pub zone_value : ZoneId → Text
zone_value working = codes "working"
zone_value episodic = codes "episodic"
zone_value semantic = codes "semantic"
zone_value procedural = codes "procedural"
zone_value entity = codes "entity"
zone_value retrieval_index = codes "retrieval_index"
zone_value provenance = codes "provenance"
zone_value consolidation = codes "consolidation"
