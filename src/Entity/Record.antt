-- ===== src/Entity/Record.antt =====
-- src/dashanan/domain/entity_record.py
use dashanan.Prelude.{
  ℕ, Bool, true, false, ◌||◌, not, Option, none, some, List, [], ◌∷◌, if◌then◌else◌, Text, text_eq,
  is_blank, has, add_to, Result, ok, raise, value_error,
}

pub record EntityAttributeRecord : Type 0 where
  pub tenant_id : Text
  pub entity_id : Text
  pub attribute_name : Text
  pub value : Text
  pub provenance_id : Text
  pub updated_at : ℕ

-- `EntityAttributeRecord.__post_init__`
unfoldable pub check_attribute : EntityAttributeRecord → Result EntityAttributeRecord
unfolding is_blank
check_attribute r =
    if is_blank r.tenant_id
    then raise value_error
    else if is_blank r.entity_id
    then raise value_error
    else if is_blank r.attribute_name
    then raise value_error
    else if is_blank r.provenance_id
    then raise value_error
    else ok r

pub record EntityRecord : Type 0 where
  pub tenant_id : Text
  pub entity_id : Text
  pub attributes : List EntityAttributeRecord

-- The loop of `EntityRecord.__post_init__`, where `seen_names` are the names so far: whether it comes
-- to its end.
unfoldable pub are_attributes : Text → Text → List Text → List EntityAttributeRecord → Bool
unfolding text_eq has add_to
are_attributes tenant_id entity_id seen_names [] = true
are_attributes tenant_id entity_id seen_names (a ∷ rows) =
    let rest = are_attributes tenant_id entity_id (add_to a.attribute_name seen_names) rows in
    if not (text_eq a.tenant_id tenant_id) || not (text_eq a.entity_id entity_id)
    then false
    else if has a.attribute_name seen_names
    then false
    else rest

-- `EntityRecord.__post_init__`
unfoldable pub check_entity : EntityRecord → Result EntityRecord
unfolding is_blank are_attributes
check_entity r =
    if is_blank r.tenant_id
    then raise value_error
    else if is_blank r.entity_id
    then raise value_error
    else if are_attributes r.tenant_id r.entity_id [] r.attributes
    then ok r
    else raise value_error

-- The loop of `get_attribute`.
unfoldable pub find_attribute : Text → List EntityAttributeRecord → Option EntityAttributeRecord
unfolding text_eq
find_attribute name [] = none
find_attribute name (a ∷ rows) =
    if text_eq a.attribute_name name then some a else find_attribute name rows

-- `EntityRecord.get_attribute`
unfoldable pub get_attribute : EntityRecord → Text → Option EntityAttributeRecord
unfolding find_attribute
get_attribute r name = find_attribute name r.attributes
