-- ===== src/Prelude/Utf8.antt =====
-- `str.encode("utf-8")`, for code points that are no surrogates (on those Python raises).
use dashanan.Prelude.{
  ℕ, ◌+◌, ◌/◌, ◌%◌, ◌≡◌, ◌<◌, refl, sym, ap₂, List, [], ◌∷◌, ◌++◌, arith, ltb, if◌then◌else◌, Text,
  All,
}

unfoldable pub utf8_char : ℕ → List ℕ
utf8_char c =
    if ltb c 128
    then c ∷ []
    else if ltb c 2048
    then (192 + c / 64) ∷ (128 + c % 64) ∷ []
    else if ltb c 65536
    then (224 + c / 4096) ∷ (128 + c / 64 % 64) ∷ (128 + c % 64) ∷ []
    else (240 + c / 262144) ∷ (128 + c / 4096 % 64) ∷ (128 + c / 64 % 64) ∷ (128 + c % 64) ∷ []

unfoldable pub utf8 : Text → List ℕ
unfolding utf8_char
utf8 [] = []
utf8 (c ∷ s) = utf8_char c ++ utf8 s

-- The code points of Unicode.
abbrev pub IsText : Text → Type 0
IsText = All (λ c. c < 1114112)

utf8_char-injective :
    (c d : ℕ) (xs ys : List ℕ)
    → c < 1114112
    → d < 1114112
    → utf8_char c ++ xs ≡ utf8_char d ++ ys
    → (c ≡ d) × (xs ≡ ys)
unfolding utf8_char
utf8_char-injective c d xs ys hc hd e = ground arith

utf8_char-nonempty : (c : ℕ) (xs : List ℕ) → utf8_char c ++ xs ≡ [] → ⊥
unfolding utf8_char
utf8_char-nonempty c xs e = ground arith

-- Texts with the same bytes are equal.
pub utf8-injective : (s t : Text) → IsText s → IsText t → utf8 s ≡ utf8 t → s ≡ t
unfolding utf8
utf8-injective [] [] hs ht e = refl
utf8-injective [] (d ∷ t) hs ht e = absurd (utf8_char-nonempty d (utf8 t) (sym e))
utf8-injective (c ∷ s) [] hs ht e = absurd (utf8_char-nonempty c (utf8 s) e)
utf8-injective (c ∷ s) (d ∷ t) hs ht e =
    let (same, rest) = utf8_char-injective c d (utf8 s) (utf8 t) hs.0 ht.0 e in
    ap₂ ◌∷◌ same (utf8-injective s t hs.1 ht.1 rest)
