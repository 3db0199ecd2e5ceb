-- ===== src/Rotation/State.antt =====
-- src/dashanan/domain/rotation_state.py
use dashanan.Prelude.{
  ◌≡◌, ◌↔◌, Bool, true, false, List, [], ◌∷◌, arith, if◌then◌else◌, ◌||◌, Result, ok, raise,
  transition_error,
}

pub data RotationState : Type 0 where
  active compressed archived : RotationState

-- Members of a Python `Enum` are equal when they are the same member.
unfoldable pub same_state : RotationState → RotationState → Bool
same_state active active = true
same_state compressed compressed = true
same_state archived archived = true
same_state _ _ = false

-- `_ALLOWED_TRANSITIONS.get(current, frozenset())`: there is no entry for `archived`.
unfoldable pub allowed_transitions : RotationState → List RotationState
allowed_transitions active = compressed ∷ []
allowed_transitions compressed = []
allowed_transitions archived = []

state_in : RotationState → List RotationState → Bool
unfolding same_state
state_in t [] = false
state_in t (s ∷ ss) = same_state t s || state_in t ss

unfoldable pub guarded_transition : RotationState → RotationState → Result RotationState
unfolding allowed_transitions state_in
guarded_transition current target =
    if state_in target (allowed_transitions current) then ok target else raise transition_error

-- A transition is permitted exactly from Active to Compressed, and then returns its target; every
-- other pair of states, self-transitions included, raises RotationTransitionError.
pub guarded_transition-eq-ok_iff :
    (current target s : RotationState)
    → (guarded_transition current target ≡ ok s)
      ↔ ((current ≡ active) × (target ≡ compressed) × (s ≡ compressed))
unfolding guarded_transition
guarded_transition-eq-ok_iff active target s = (λ h. ground arith, λ h. ground arith)
guarded_transition-eq-ok_iff current target s = (λ h. ground arith, λ h. ground arith)
