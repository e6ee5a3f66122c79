-- ===== src/Common/Suffix.antt =====
-- The ends of texts: what the program uses of strings.HasSuffix and strings.TrimSuffix.
use Prim.Native.Nat.{ℕ}
use mathlib.Core.Path.{◌≡◌, refl}
use mathlib.Core.Logic.{◌↔◌, inl, inr}
use mathlib.Core.Bool.{Bool, true, false, ◌&&◌}
use mathlib.Core.Option
use mathlib.Core.Option.{Option, none, some}
use mathlib.Core.List.{List, [], ◌∷◌, ◌++◌}
use native.Mathlib.Omega.{arith}
use piccolod.Common.Tests.{nat_eq, nat_eq_iff, if◌then◌else◌, Bool-cases, Option-cases, is_some}

unfoldable pub text_eq : List ℕ → List ℕ → Bool
text_eq [] [] = true
text_eq (a ∷ s) (b ∷ t) = nat_eq a b && text_eq s t
text_eq _ _ = false

pub text_eq→≡ : (s t : List ℕ) → text_eq s t ≡ true → s ≡ t
unfolding text_eq
text_eq→≡ [] [] h = refl
text_eq→≡ [] (b ∷ t) h = cc
text_eq→≡ (a ∷ s) [] h = cc
text_eq→≡ (a ∷ s) (b ∷ t) h = ground (arith, text_eq→≡ s t, nat_eq_iff a b)

pub text_eq_refl : (s : List ℕ) → text_eq s s ≡ true
unfolding text_eq
text_eq_refl [] = refl
text_eq_refl (a ∷ s) = ground (arith, text_eq_refl s, nat_eq_iff a a)

-- strings.HasSuffix and strings.TrimSuffix: the front, if the text ends in the suffix.
unfoldable pub strip_suffix : List ℕ → List ℕ → Option (List ℕ)
strip_suffix suffix [] = if text_eq [] suffix then some [] else none
strip_suffix suffix (c ∷ s) =
    let rest = Option.map (◌∷◌ c) (strip_suffix suffix s) in
    if text_eq (c ∷ s) suffix then some [] else rest

pub strip-append : (suffix s f : List ℕ) → strip_suffix suffix s ≡ some f → s ≡ f ++ suffix
unfolding strip_suffix
strip-append suffix [] f h = elim (Bool-cases (text_eq [] suffix)) [
  | inl e ↦ ground (arith, text_eq→≡ [] suffix e, e)
  | inr e ↦ ground (arith, e)
]
strip-append suffix (c ∷ s) f h = elim (Bool-cases (text_eq (c ∷ s) suffix)) [
  | inl e ↦ ground (arith, text_eq→≡ (c ∷ s) suffix e, e)
  | inr e ↦ elim (Option-cases (strip_suffix suffix s)) [
    | inl q ↦ absurd (ground (arith, e, q))
    | inr (g, q) ↦ ground (arith, e, q, strip-append suffix s g q)
  ]
]

-- strings.HasSuffix
abbrev pub has_suffix : List ℕ → List ℕ → Bool
has_suffix suffix s = is_some (strip_suffix suffix s)

append-has_suffix : (suffix f : List ℕ) → has_suffix suffix (f ++ suffix) ≡ true
unfolding strip_suffix text_eq
append-has_suffix [] [] = refl
append-has_suffix (c ∷ suffix) [] = ground (arith, text_eq_refl (c ∷ suffix))
append-has_suffix suffix (c ∷ f) = elim (Bool-cases (text_eq (c ∷ f ++ suffix) suffix)) [
  | inl e ↦ ground (arith, e)
  | inr e ↦ elim (Option-cases (strip_suffix suffix (f ++ suffix))) [
    | inl q ↦ ground (arith, e, q, append-has_suffix suffix f)
    | inr (g, q) ↦ ground (arith, e, q)
  ]
]

pub has_suffix_iff :
    (suffix s : List ℕ) → (has_suffix suffix s ≡ true) ↔ ((f : List ℕ) × (s ≡ f ++ suffix))
has_suffix_iff suffix s = (
  λ h. elim (Option-cases (strip_suffix suffix s)) [
    | inl e ↦ absurd (ground (arith, e, h))
    | inr (f, e) ↦ (f, strip-append suffix s f e)
  ],
  λ (f, e). rw (e, append-has_suffix suffix f),
)
