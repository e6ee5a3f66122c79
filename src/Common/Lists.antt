-- ===== src/Common/Lists.antt =====
-- Lists measured by native numbers, membership as a predicate by recursion, and Boolean membership.
use Prim.Native.Nat.{ℕ, suc, ◌+◌}
use mathlib.Core.Path.{◌≡◌}
use mathlib.Core.Logic.{◌⊎◌, inl, inr}
use mathlib.Core.Bool.{Bool, true, false, ◌||◌, ◌&&◌}
use mathlib.Core.List.{List, [], ◌∷◌, ◌++◌}
use native.Mathlib.Omega.{arith}
use piccolod.Common.Tests.{Eq, ◌==◌, Eq-cases}

module _ {ℓ} {A : Type ℓ} where
  abbrev pub length : List A → ℕ
  length [] = 0
  length (x ∷ xs) = suc (length xs)

  pub length-append : (xs ys : List A) → length (xs ++ ys) ≡ length xs + length ys
  length-append [] ys = omega arith
  length-append (x ∷ xs) ys = omega (arith, length-append xs ys)

  abbrev pub All {κ} : (A → Type κ) → List A → Type κ
  All P [] = Unit
  All P (x ∷ xs) = P x × All P xs

  abbrev pub all : (A → Bool) → List A → Bool
  all p [] = true
  all p (x ∷ xs) = p x && all p xs

  abbrev pub any : (A → Bool) → List A → Bool
  any p [] = false
  any p (x ∷ xs) = p x || any p xs

module _ {A : Type 0} where
  -- `x` occurs in the list.
  abbrev pub Occurs : A → List A → Type 0
  Occurs x [] = ⊥
  Occurs x (y ∷ ys) = (x ≡ y) ⊎ Occurs x ys

  -- No entry occurs twice.
  abbrev pub Distinct : List A → Type 0
  Distinct [] = Unit
  Distinct (x ∷ xs) = (¬ Occurs x xs) × Distinct xs

module _ {A : Type 0} ⦃e : Eq A⦄ where
  abbrev pub elem : A → List A → Bool
  elem a [] = false
  elem a (x ∷ xs) = a == x || elem a xs

  pub elem→Occurs : (a : A) (xs : List A) → elem a xs ≡ true → Occurs a xs
  elem→Occurs a [] h = ground arith
  elem→Occurs a (x ∷ xs) h = elim (Eq-cases a x) [
    | inl (p, q) ↦ inl p
    | inr (p, q) ↦ inr (elem→Occurs a xs (ground arith))
  ]

  pub Occurs→elem : (a : A) (xs : List A) → Occurs a xs → elem a xs ≡ true
  Occurs→elem a [] h = absurd h
  Occurs→elem a (x ∷ xs) (inl p) = ground (arith, (e.beq_iff a x).1 p)
  Occurs→elem a (x ∷ xs) (inr h) = ground (arith, Occurs→elem a xs h)
