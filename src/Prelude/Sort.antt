-- ===== src/Prelude/Sort.antt =====
-- Python's `sorted`: stable, by a strict test on the keys. An insertion sort has its result.
use Prim.Native.Nat.{ℕ, suc, ◌≤◌}
use native.Mathlib.Nat.{le_trans}
use mathlib.Core.Path.{◌≡◌, refl}
use mathlib.Core.Bool.{Bool, true, false}
use mathlib.Core.List.{List, [], ◌∷◌, Perm}
use mathlib.Core.List.Perm
use native.Mathlib.Omega.{arith}
use dashanan.Prelude.Tests.{if◌then◌else◌, Bool-cases}
use dashanan.Prelude.Lists.{length, All, Any, All-map}
use mathlib.Core.Logic.{◌⊎◌, inl, inr}

-- The keys do not fall along the list.
abbrev pub IsAscending {ℓ} : {A : Type ℓ} → (A → ℕ) → List A → Type 0
IsAscending key [] = Unit
IsAscending key (x ∷ xs) = All (λ y. key x ≤ key y) xs × IsAscending key xs

module _ {ℓ} {A : Type ℓ} (lt : A → A → Bool) where
  -- `x` goes in front of the first element that is not strictly before it.
  unfoldable pub insert_sorted : A → List A → List A
  insert_sorted x [] = x ∷ []
  insert_sorted x (y ∷ ys) =
      let rest = insert_sorted x ys in if lt y x then y ∷ rest else x ∷ y ∷ ys

  unfoldable pub sorted : List A → List A
  unfolding insert_sorted
  sorted [] = []
  sorted (x ∷ xs) = insert_sorted x (sorted xs)

  pub insert_sorted-perm : (x : A) (ys : List A) → Perm (insert_sorted x ys) (x ∷ ys)
  unfolding insert_sorted
  insert_sorted-perm x [] = Perm.refl (x ∷ [])
  insert_sorted-perm x (y ∷ ys) = elim (Bool-cases (lt y x)) [
    | inl h ↦ rw h (Perm.trans (Perm.cons y (insert_sorted-perm x ys)) (Perm.swap x y ys))
    | inr h ↦ rw h (Perm.refl (x ∷ y ∷ ys))
  ]

  pub sorted-perm : (xs : List A) → Perm (sorted xs) xs
  unfolding sorted
  sorted-perm [] = Perm.refl []
  sorted-perm (x ∷ xs) =
      Perm.trans (insert_sorted-perm x (sorted xs)) (Perm.cons x (sorted-perm xs))

  pub length-insert_sorted : (x : A) (ys : List A) → length (insert_sorted x ys) ≡ suc (length ys)
  unfolding insert_sorted
  length-insert_sorted x [] = refl
  length-insert_sorted x (y ∷ ys) = ground (arith, length-insert_sorted x ys)

  pub length-sorted : (xs : List A) → length (sorted xs) ≡ length xs
  unfolding sorted
  length-sorted [] = refl
  length-sorted (x ∷ xs) = ground (arith, length-insert_sorted x (sorted xs), length-sorted xs)

  pub All-insert_sorted {κ} :
      (P : A → Type κ) (x : A) (ys : List A) → P x → All P ys → All P (insert_sorted x ys)
  unfolding insert_sorted
  All-insert_sorted P x [] px h = (px, h)
  All-insert_sorted P x (y ∷ ys) px h = elim (Bool-cases (lt y x)) [
    | inl e ↦ rw e (h.0, All-insert_sorted P x ys px h.1)
    | inr e ↦ rw e (px, h)
  ]

  pub All-sorted {κ} : (P : A → Type κ) (xs : List A) → All P xs → All P (sorted xs)
  unfolding sorted
  All-sorted P [] h = h
  All-sorted P (x ∷ xs) h = All-insert_sorted P x (sorted xs) h.0 (All-sorted P xs h.1)

  pub Any-insert_sorted :
      (P : A → Type 0) (x : A) (ys : List A) → P x ⊎ Any P ys → Any P (insert_sorted x ys)
  unfolding insert_sorted
  Any-insert_sorted P x [] h = h
  Any-insert_sorted P x (y ∷ ys) h = elim (Bool-cases (lt y x)) [
    | inl e ↦ rw e (elim h [
      | inl px ↦ inr (Any-insert_sorted P x ys (inl px))
      | inr (inl py) ↦ inl py
      | inr (inr r) ↦ inr (Any-insert_sorted P x ys (inr r))
    ])
    | inr e ↦ rw e h
  ]

  -- No later element is strictly before an earlier one.
  abbrev pub IsSortedBy : List A → Type 0
  IsSortedBy [] = Unit
  IsSortedBy (x ∷ xs) = All (λ y. lt y x ≡ false) xs × IsSortedBy xs

  module _ (asym : (x y : A) → lt x y ≡ true → lt y x ≡ false)
      (trans : (x y z : A) → lt y x ≡ false → lt z y ≡ false → lt z x ≡ false) where
    pub insert_sorted-IsSortedBy :
        (x : A) (ys : List A) → IsSortedBy ys → IsSortedBy (insert_sorted x ys)
    unfolding insert_sorted
    insert_sorted-IsSortedBy x [] h = (tt, tt)
    insert_sorted-IsSortedBy x (y ∷ ys) h = elim (Bool-cases (lt y x)) [
      | inl e ↦ rw e (
        All-insert_sorted (λ z. lt z y ≡ false) x ys (asym y x e) h.0,
        insert_sorted-IsSortedBy x ys h.1,
      )
      | inr e ↦ rw e (
        (e, All-map (λ z. lt z y ≡ false) (λ z. lt z x ≡ false) (λ z p. trans x y z e p) ys h.0),
        h,
      )
    ]

    pub sorted-IsSortedBy : (xs : List A) → IsSortedBy (sorted xs)
    unfolding sorted
    sorted-IsSortedBy [] = tt
    sorted-IsSortedBy (x ∷ xs) = insert_sorted-IsSortedBy x (sorted xs) (sorted-IsSortedBy xs)

  -- A sort by a finer order sorts by the key too.
  module _ (key : A → ℕ) (before : (x y : A) → lt y x ≡ true → key y ≤ key x)
      (after : (x y : A) → lt y x ≡ false → key x ≤ key y) where
    pub insert_sorted-IsAscending :
        (x : A) (ys : List A) → IsAscending key ys → IsAscending key (insert_sorted x ys)
    unfolding insert_sorted
    insert_sorted-IsAscending x [] h = (tt, tt)
    insert_sorted-IsAscending x (y ∷ ys) h = elim (Bool-cases (lt y x)) [
      | inl e ↦ rw e (
        All-insert_sorted (λ z. key y ≤ key z) x ys (before x y e) h.0,
        insert_sorted-IsAscending x ys h.1,
      )
      | inr e ↦ rw e (
        (
          after x y e,
          All-map (λ z. key y ≤ key z) (λ z. key x ≤ key z) (λ z p. le_trans (after x y e) p) ys
              h.0,
        ),
        h,
      )
    ]

    pub sorted-IsAscending : (xs : List A) → IsAscending key (sorted xs)
    unfolding sorted
    sorted-IsAscending [] = tt
    sorted-IsAscending (x ∷ xs) = insert_sorted-IsAscending x (sorted xs) (sorted-IsAscending xs)
