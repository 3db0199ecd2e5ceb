-- ===== src/Prelude/Floats.antt =====
-- Python's `float` and the functions of `math` that the code calls, as a parameter. The values are
-- those that are no NaN; of their order it is assumed that it is total and transitive, and of
-- their arithmetic that a sum grows with its second part.
use Prim.Native.Nat.{ℕ, zero, suc, ◌+◌, ◌-◌, ◌*◌, ◌/◌}
use mathlib.Core.Path.{◌≡◌}
use mathlib.Core.Logic.{◌⊎◌}
use mathlib.Core.List.{List, [], ◌∷◌}
use mathlib.Core.Bool.{Bool, true, false, not}
use native.Mathlib.Omega.{arith}
use dashanan.Prelude.Tests.{if◌then◌else◌, leb}

pub record Floats : Type 1 where
  pub Float : Type 0
  -- `a <= b`
  pub le : Float → Float → Bool
  pub le-total : (a b : Float) → (le a b ≡ true) ⊎ (le b a ≡ true)
  pub le-trans : (a b c : Float) → le a b ≡ true → le b c ≡ true → le a c ≡ true
  pub add : Float → Float → Float
  pub sub : Float → Float → Float
  pub mul : Float → Float → Float
  pub div : Float → Float → Float
  pub neg : Float → Float
  pub exp : Float → Float
  -- whether `math.exp` raises OverflowError
  pub exp_overflows : Float → Bool
  pub log : Float → Float
  -- `math.log1p`
  pub log1p : Float → Float
  -- `abs(a)`
  pub abs : Float → Float
  -- `sum(xs)`
  pub sum : List Float → Float
  -- `a ** n`
  pub pow : Float → ℕ → Float
  -- `float(n)`
  pub of_int : ℕ → Float
  -- a decimal literal: `of_ratio n d` is the float nearest to n / d
  pub of_ratio : ℕ → ℕ → Float
  -- `datetime.timestamp` of an instant in microseconds
  pub timestamp : ℕ → Float
  -- `timedelta.total_seconds` of a number of microseconds
  pub seconds : ℕ → Float
  -- `math.ceil`, and 0 where that is negative
  pub ceil : Float → ℕ
  pub add-mono : (a b c : Float) → le b c ≡ true → le (add a b) (add a c) ≡ true
  -- `sys.float_info.epsilon`
  pub epsilon : Float

module _ (f : Floats) where
  open f use {Float, le, le-total, le-trans}

  -- `a < b`
  abbrev pub lt : Float → Float → Bool
  lt a b = not (le b a)

  -- `max(a, b)`, which keeps its first argument on a tie.
  abbrev pub fmax : Float → Float → Float
  fmax a b = if lt a b then b else a

  -- `min(a, b)`
  abbrev pub fmin : Float → Float → Float
  fmin a b = if lt b a then b else a

  pub le_refl : (a : Float) → le a a ≡ true
  le_refl a = ground (arith, le-total a a)

  pub fmin-le_right : (a b : Float) → le (fmin a b) b ≡ true
  fmin-le_right a b = ground (arith, le-total a b, le_refl b)

  pub fmin-le_left : (a b : Float) → le (fmin a b) a ≡ true
  fmin-le_left a b = ground (arith, le-total a b, le_refl a)

  pub le-fmax_left : (a b : Float) → le a (fmax a b) ≡ true
  le-fmax_left a b = ground (arith, le-total a b, le_refl a)

  pub le-fmax_right : (a b : Float) → le b (fmax a b) ≡ true
  le-fmax_right a b = ground (arith, le-total a b, le_refl b)

  pub le-fmin : (a b c : Float) → le a b ≡ true → le a c ≡ true → le a (fmin b c) ≡ true
  le-fmin a b c h k = ground arith

  pub lt-asym : (a b : Float) → lt a b ≡ true → lt b a ≡ false
  lt-asym a b h = ground (arith, le-total a b)

-- Fixed-point numbers in units of 10 ^ -6, without a sign: arithmetic on them is exact but for the
-- products and the quotients, which are rounded down. They have no use for `neg`, `exp` and `log`, and `log1p`
-- and `abs` are the identity.
abbrev pub micro_unit : ℕ
micro_unit = 1000000

pub micro_le-total : (a b : ℕ) → (leb a b ≡ true) ⊎ (leb b a ≡ true)
micro_le-total a b = ground arith

pub micro_le_trans : (a b c : ℕ) → leb a b ≡ true → leb b c ≡ true → leb a c ≡ true
micro_le_trans a b c h k = ground arith

pub micro_add_mono : (a b c : ℕ) → leb b c ≡ true → leb (a + b) (a + c) ≡ true
micro_add_mono a b c h = ground arith

abbrev pub micro_sum : List ℕ → ℕ
micro_sum [] = 0
micro_sum (x ∷ xs) = x + micro_sum xs

abbrev pub micro_pow : ℕ → ℕ → ℕ
micro_pow a zero = micro_unit
micro_pow a (suc n) = a * micro_pow a n / micro_unit

abbrev pub micro_floats : Floats
micro_floats = record {
  Float = ℕ;
  le = leb;
  le-total = micro_le-total;
  le-trans = micro_le_trans;
  add = λ a b. a + b;
  sub = λ a b. a - b;
  mul = λ a b. a * b / micro_unit;
  div = λ a b. a * micro_unit / b;
  neg = λ a. 0;
  exp = λ a. 0;
  exp_overflows = λ a. false;
  log = λ a. 0;
  log1p = λ a. a;
  abs = λ a. a;
  sum = micro_sum;
  pow = micro_pow;
  of_int = λ n. n * micro_unit;
  of_ratio = λ n d. n * micro_unit / d;
  timestamp = λ t. t;
  seconds = λ t. t;
  ceil = λ a. (a + (micro_unit - 1)) / micro_unit;
  add-mono = micro_add_mono;
  epsilon = 0;
}
