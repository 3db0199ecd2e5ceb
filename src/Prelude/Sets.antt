-- ===== src/Prelude/Sets.antt =====
-- Python's `set` of texts as a list without repetition, in the order of the additions, which no result
-- of the code shows.
use mathlib.Core.Path.{◌≡◌, refl}
use mathlib.Core.Bool.{Bool, false, ◌&&◌, ◌||◌, not}
use mathlib.Core.List.{List, [], ◌∷◌, ◌++◌}
use native.Mathlib.Omega.{arith}
use dashanan.Prelude.Tests.{if◌then◌else◌}
use dashanan.Prelude.Strings.{Text, text_eq, text_eq_iff}

-- `x in s`
unfoldable pub has : Text → List Text → Bool
unfolding text_eq
has x [] = false
has x (y ∷ s) = text_eq y x || has x s

-- `s.add(x)`
unfoldable pub add_to : Text → List Text → List Text
unfolding has
add_to x s = if has x s then s else s ++ x ∷ []

-- `s.discard(x)`
unfoldable pub discard : Text → List Text → List Text
unfolding text_eq
discard x [] = []
discard x (y ∷ s) = let rest = discard x s in if text_eq y x then rest else y ∷ rest

-- `s.update(t)`
unfoldable pub union : List Text → List Text → List Text
unfolding add_to
union s [] = s
union s (x ∷ t) = union (add_to x s) t

has-append : (y : Text) (s t : List Text) → has y (s ++ t) ≡ (has y s || has y t)
unfolding has
has-append y [] t = refl
has-append y (x ∷ s) t = ground (arith, has-append y s t)

pub has-add_to : (y x : Text) (s : List Text) → has y (add_to x s) ≡ (text_eq x y || has y s)
unfolding add_to has
has-add_to y x s = ground (arith, has-append y s (x ∷ []), text_eq_iff x y)

pub has-discard :
    (y x : Text) (s : List Text) → has y (discard x s) ≡ (not (text_eq x y) && has y s)
unfolding discard has
has-discard y x [] = ground arith
has-discard y x (z ∷ s) =
    ground (arith, has-discard y x s, text_eq_iff x y, text_eq_iff z y, text_eq_iff z x)

pub has-union : (y : Text) (s t : List Text) → has y (union s t) ≡ (has y s || has y t)
unfolding union has
has-union y s [] = ground arith
has-union y s (x ∷ t) = ground (arith, has-union y (add_to x s) t, has-add_to y x s)
