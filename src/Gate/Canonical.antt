-- ===== src/Gate/Canonical.antt =====
-- `_canonicalize_fields` of src/dashanan/domain/write_gate.py: each field behind its length in bytes.
use native.Mathlib.Nat.{pow-suc}
use dashanan.Prelude.{
  ℕ, zero, suc, ◌+◌, ◌-◌, ◌*◌, ◌/◌, ◌%◌, ◌^◌, ◌≡◌, ◌≤◌, ◌<◌, refl, sym, ap, ap₂, ◌∙◌, ◌&&◌,
  Bool-cases, inl, inr, List, [], ◌∷◌, ◌++◌, arith, ltb, leb, if◌then◌else◌, Text, All, length,
  length-append, append-split,
}
use dashanan.Prelude.Utf8.{utf8, utf8-injective, IsText}

-- `f"{n:0{width}d}"`, from the last digit on. The fuel bounds the digits.
unfoldable pub decimal : ℕ → ℕ → ℕ → List ℕ
decimal zero width n = []
decimal (suc fuel) width n =
    let rest = decimal fuel (width - 1) (n / 10) in
    if ltb n 10 && leb width 1 then (b'0' + n) ∷ [] else rest ++ (b'0' + n % 10) ∷ []

-- `_FIELD_LENGTH_PREFIX_WIDTH`
abbrev pub field_length_prefix_width : ℕ
field_length_prefix_width = 10

unfoldable pub field_header : ℕ → List ℕ
unfolding decimal
field_header n = decimal (n + field_length_prefix_width) field_length_prefix_width n ++ b':' ∷ []

unfoldable pub canonicalize_fields : List Text → List ℕ
unfolding field_header utf8
canonicalize_fields [] = []
canonicalize_fields (field ∷ fields) =
    let encoded = utf8 field in
    field_header (length encoded) ++ (encoded ++ canonicalize_fields fields)

-- The number that digits stand for, in front of a given one.
value_from : ℕ → List ℕ → ℕ
value_from acc [] = acc
value_from acc (d ∷ ds) = value_from (acc * 10 + (d - b'0')) ds

value_from-append :
    (acc : ℕ) (xs : List ℕ) (d : ℕ)
    → value_from acc (xs ++ d ∷ []) ≡ value_from acc xs * 10 + (d - b'0')
unfolding value_from
value_from-append acc [] d = refl
value_from-append acc (x ∷ xs) d = value_from-append (acc * 10 + (x - b'0')) xs d

value_from-decimal :
    (fuel width n : ℕ) → n + width ≤ fuel → 0 < fuel → value_from 0 (decimal fuel width n) ≡ n
unfolding decimal value_from
value_from-decimal zero width n h p = absurd (omega arith)
value_from-decimal (suc fuel) width n h p = elim (Bool-cases (ltb n 10 && leb width 1)) [
  | inl e ↦ rw e (omega arith)
  | inr e ↦
      let ih = value_from-decimal fuel (width - 1) (n / 10) (ground arith) (ground arith) in
      rw e (
        value_from-append 0 (decimal fuel (width - 1) (n / 10)) (b'0' + n % 10) ∙ omega (arith, ih))
]

length-decimal :
    (fuel w n : ℕ) → n + suc w ≤ fuel → n < 10 ^ suc w → length (decimal fuel (suc w) n) ≡ suc w
unfolding decimal
length-decimal zero w n h b = absurd (omega arith)
length-decimal (suc fuel) zero n h b = ground arith
length-decimal (suc fuel) (suc w) n h b =
    let b' : n < 10 ^ suc w * 10 = rw (← pow-suc) b in
    ground (
      arith,
      length-decimal fuel w (n / 10) (omega arith) (omega arith),
      length-append (decimal fuel (suc w) (n / 10)) ((b'0' + n % 10) ∷ []),
    )

length-field_header : (n : ℕ) → n < 10 ^ 10 → length (field_header n) ≡ 11
unfolding field_header
length-field_header n h =
    length-append (decimal (n + 10) 10 n) (b':' ∷ [])
    ∙ omega (arith, length-decimal (n + 10) 9 n (omega arith) h)

field_header-injective :
    (n m : ℕ) (xs ys : List ℕ)
    → n < 10 ^ 10
    → m < 10 ^ 10
    → field_header n ++ xs ≡ field_header m ++ ys
    → (n ≡ m) × (xs ≡ ys)
unfolding field_header
field_header-injective n m xs ys hn hm e =
    let (heads, rest) =
      append-split (field_header n) xs (field_header m) ys
        (length-field_header n hn ∙ sym (length-field_header m hm)) e in
    let digits =
      (append-split (decimal (n + 10) 10 n) (b':' ∷ []) (decimal (m + 10) 10 m) (b':' ∷ [])
        (length-decimal (n + 10) 9 n (omega arith) hn
          ∙ sym (length-decimal (m + 10) 9 m (omega arith) hm))
        heads).0 in
    (
      sym (value_from-decimal (n + 10) 10 n (omega arith) (omega arith))
          ∙ ap (value_from 0) digits
          ∙ value_from-decimal (m + 10) 10 m (omega arith) (omega arith),
      rest,
    )

header_nonempty : (n : ℕ) (xs : List ℕ) → n < 10 ^ 10 → field_header n ++ xs ≡ [] → ⊥
header_nonempty n xs h e =
    omega (arith, length-field_header n h, length-append (field_header n) xs, ap length e)

-- A field of code points whose bytes fit the ten digits of the header.
abbrev pub IsField : Text → Type 0
IsField s = IsText s × (length (utf8 s) < 10 ^ 10)

-- Two lists of fields, of any two lengths, with the same canonical bytes are the same list, where
-- each field has fewer than 10 ^ 10 bytes.
pub canonicalize_fields-injective :
    (xs ys : List Text)
    → All IsField xs
    → All IsField ys
    → canonicalize_fields xs ≡ canonicalize_fields ys
    → xs ≡ ys
unfolding canonicalize_fields
canonicalize_fields-injective [] [] hx hy e = refl
canonicalize_fields-injective [] (y ∷ ys) hx hy e =
    absurd (header_nonempty (length (utf8 y)) _ hy.0.1 (sym e))
canonicalize_fields-injective (x ∷ xs) [] hx hy e =
    absurd (header_nonempty (length (utf8 x)) _ hx.0.1 e)
canonicalize_fields-injective (x ∷ xs) (y ∷ ys) hx hy e =
    let (lengths, rest) =
      field_header-injective (length (utf8 x)) (length (utf8 y)) (utf8 x ++ canonicalize_fields xs)
        (utf8 y ++ canonicalize_fields ys) hx.0.1 hy.0.1 e in
    let (bytes, later) =
      append-split (utf8 x) (canonicalize_fields xs) (utf8 y) (canonicalize_fields ys) lengths
        rest in
    ap₂ ◌∷◌ (utf8-injective x y hx.0.0 hy.0.0 bytes)
      (canonicalize_fields-injective xs ys hx.1 hy.1 later)
