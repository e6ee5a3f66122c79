-- ===== src/Container/Decimal.antt =====
-- internal/container/podman.go: the numbers of ports in the arguments of podman, as fmt prints them, and
-- how they are read.
use piccolod.Common.{
  ℕ, zero, suc, ◌+◌, ◌-◌, ◌*◌, ◌/◌, ◌%◌, ◌<◌, ◌≡◌, refl, sym, ap, ◌∙◌, true, ◌&&◌, Option, none,
  some, List, [], ◌∷◌, ◌++◌, ltb, leb, arith, if◌then◌else◌, if_true, if_false, Bool-cases, inl,
  inr,
}
use piccolod.Common.Int.{ℤ, pos, negsuc}
use piccolod.Auth.Password.Encoding.{lacks}

-- The last digits of a number, with fuel for one more digit than it has.
digits_from : ℕ → ℕ → List ℕ
digits_from zero n = []
digits_from (suc fuel) n =
    let front = digits_from fuel (n / 10) in
    if ltb n 10 then (b'0' + n) ∷ [] else front ++ (b'0' + n % 10) ∷ []

pub digits : ℕ → List ℕ
unfolding digits_from
digits n = digits_from (suc n) n

-- "%d"
unfoldable pub int_text : ℤ → List ℕ
unfolding digits
int_text (pos n) = digits n
int_text (negsuc n) = b'-' ∷ digits (n + 1)

-- What digits stand for, after those that make `n`.
number_from : ℕ → List ℕ → Option ℕ
number_from n [] = some n
number_from n (c ∷ s) =
    let rest = number_from (n * 10 + (c - b'0')) s in
    if leb b'0' c && leb c b'9' then rest else none

pub number : List ℕ → Option ℕ
unfolding number_from
number [] = none
number (c ∷ s) = number_from 0 (c ∷ s)

next : ℕ → Option ℕ → Option ℕ
next d none = none
next d (some n) = some (n * 10 + d)

number_from-append :
    (m : ℕ) (s : List ℕ) (d : ℕ)
    → d < 10
    → number_from m (s ++ (b'0' + d) ∷ []) ≡ next d (number_from m s)
unfolding number_from next
number_from-append m [] d h = ground (arith, h)
number_from-append m (c ∷ s) d h = elim (Bool-cases (leb b'0' c && leb c b'9')) [
  | inl e ↦
      if_true (leb b'0' c && leb c b'9') _ none e
      ∙ number_from-append (m * 10 + (c - b'0')) s d h
      ∙ ap (next d) (sym (if_true (leb b'0' c && leb c b'9') _ none e))
  | inr e ↦
      if_false (leb b'0' c && leb c b'9') _ none e
      ∙ ap (next d) (sym (if_false (leb b'0' c && leb c b'9') _ none e))
]

number_from-digits_from : (fuel n : ℕ) → n < fuel → number_from 0 (digits_from fuel n) ≡ some n
unfolding digits_from number_from next
number_from-digits_from zero n h = absurd (omega (arith, h))
number_from-digits_from (suc fuel) n h = elim (Bool-cases (ltb n 10)) [
  | inl e ↦ ap (number_from 0) (if_true (ltb n 10) _ _ e) ∙ ground (arith, e)
  | inr e ↦
      ap (number_from 0) (if_false (ltb n 10) _ _ e)
      ∙ number_from-append 0 (digits_from fuel (n / 10)) (n % 10) (omega arith)
      ∙ ap (next (n % 10)) (number_from-digits_from fuel (n / 10) (ground (arith, e, h)))
      ∙ ap some (omega arith)
]

number-cons : (s : List ℕ) (n : ℕ) → number_from 0 s ≡ some n → (s ≡ [] → ⊥) → number s ≡ some n
unfolding number
number-cons [] n h k = absurd (k refl)
number-cons (c ∷ s) n h k = h

ends-ne-nil : (s : List ℕ) (c : ℕ) → s ++ c ∷ [] ≡ [] → ⊥
ends-ne-nil [] c e = cc
ends-ne-nil (d ∷ s) c e = cc

digits-ne-nil : (n : ℕ) → digits n ≡ [] → ⊥
unfolding digits digits_from
digits-ne-nil n = elim (Bool-cases (ltb n 10)) [
  | inl e ↦ λ h. cc (
      sym (if_true (ltb n 10) ((b'0' + n) ∷ []) (digits_from n (n / 10) ++ (b'0' + n % 10) ∷ []) e)
      ∙ h)
  | inr e ↦ λ h. ends-ne-nil (digits_from n (n / 10)) (b'0' + n % 10) (
      sym (if_false (ltb n 10) ((b'0' + n) ∷ []) (digits_from n (n / 10) ++ (b'0' + n % 10) ∷ []) e)
      ∙ h)
]

pub number-digits : (n : ℕ) → number (digits n) ≡ some n
unfolding digits
number-digits n =
    number-cons (digits n) n (number_from-digits_from (suc n) n (omega arith)) (digits-ne-nil n)

lacks-ends :
    (s : List ℕ) (d : ℕ) → d < 10 → lacks b':' s ≡ true → lacks b':' (s ++ (b'0' + d) ∷ []) ≡ true
lacks-ends [] d h p = ground (arith, h)
lacks-ends (c ∷ s) d h p = ground (arith, p, lacks-ends s d h)

lacks-digits_from : (fuel n : ℕ) → lacks b':' (digits_from fuel n) ≡ true
unfolding digits_from
lacks-digits_from zero n = refl
lacks-digits_from (suc fuel) n = elim (Bool-cases (ltb n 10)) [
  | inl e ↦ ap (lacks b':') (if_true (ltb n 10) _ _ e) ∙ ground (arith, e)
  | inr e ↦
      ap (lacks b':') (if_false (ltb n 10) _ _ e)
      ∙ lacks-ends (digits_from fuel (n / 10)) (n % 10) (omega arith)
          (lacks-digits_from fuel (n / 10))
]

pub lacks-digits : (n : ℕ) → lacks b':' (digits n) ≡ true
unfolding digits
lacks-digits n = lacks-digits_from (suc n) n
