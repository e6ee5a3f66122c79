-- ===== src/App/Parser/Sizes.antt =====
-- parser.go, validateSizeLimit. What strings.ToUpper does to characters outside ASCII is the argument
-- `upper`.
use piccolod.Common.{
  ℕ, ◌-◌, ◌≡◌, ◌≢◌, ◌↔◌, ◌⊎◌, inl, inr, refl, sym, ◌∙◌, String, Option, none, some, List, [], ◌∷◌,
  ◌++◌, map, Occurs, elem, elem→Occurs, Occurs→elem, append_assoc, Result, ok, err, ltb, nat_eq_iff,
  codes, Eq-nat, arith, Bool-cases, Option-cases, if◌then◌else◌,
}
use piccolod.App.Parser.{SizeError, no_number, negative_size, no_unit, is_lower}
use piccolod.Common.{text_eq, strip_suffix, strip-append}

check_number : List ℕ → Result SizeError (Unit {0})
check_number [] = err no_number
check_number (c ∷ s) = if elem b'-' (c ∷ s) then err negative_size else ok tt

-- The first of the suffixes that fits decides.
check_suffixes : List (List ℕ) → List ℕ → Result SizeError (Unit {0})
unfolding check_number
check_suffixes [] s = err no_unit
check_suffixes (suffix ∷ rest) s = elim (strip_suffix suffix s) [
  | none ↦ check_suffixes rest s
  | some front ↦ check_number front
]

abbrev pub size_suffixes : List (List ℕ)
size_suffixes = map codes ("B" ∷ "KB" ∷ "MB" ∷ "GB" ∷ "TB" ∷ [])

module _ (upper : ℕ → ℕ) where
  pub to_upper : List ℕ → List ℕ
  to_upper s = map (λ c. if is_lower c then c - 32 else if ltb c 128 then c else upper c) s

  check_limit : List ℕ → Result SizeError (Unit {0})
  unfolding check_suffixes to_upper
  check_limit [] = ok tt
  check_limit (c ∷ s) = check_suffixes size_suffixes (to_upper (c ∷ s))

  pub validate_size_limit : String → Result SizeError (Unit {0})
  unfolding check_limit
  validate_size_limit limit = check_limit (codes limit)

strip_unit : (b : ℕ) (f : List ℕ) → strip_suffix (b ∷ []) (f ++ b ∷ []) ≡ some f
unfolding strip_suffix text_eq
strip_unit b [] = ground (arith, nat_eq_iff b b)
strip_unit b (x ∷ []) = ground (arith, strip_unit b [])
strip_unit b (x ∷ y ∷ f) = ground (arith, strip_unit b (y ∷ f))

-- A text that ends in the shorter of two suffixes is settled by it.
strip_longer :
    (k b : ℕ) (s : List ℕ) → strip_suffix (b ∷ []) s ≡ none → strip_suffix (k ∷ b ∷ []) s ≡ none
strip_longer k b s h = elim (Option-cases (strip_suffix (k ∷ b ∷ []) s)) [
  | inl e ↦ e
  | inr (f, e) ↦ absurd (
      ground (
        arith,
        h,
        strip-append (k ∷ b ∷ []) s f e,
        append_assoc f (k ∷ []) (b ∷ []),
        strip_unit b (f ++ k ∷ []),
      ))
]

-- A size that is accepted: none at all, or some text without a minus sign, and then a B.
abbrev pub IsSize : (ℕ → ℕ) → String → Type 0
IsSize upper limit =
    (codes limit ≡ [])
    ⊎ ((front : List ℕ) × (to_upper upper (codes limit) ≡ front ++ b'B' ∷ [])
        × (front ≢ [])
        × (¬ Occurs b'-' front))

abbrev Unsigned : List ℕ → Type 0
Unsigned front = (front ≢ []) × (¬ Occurs b'-' front)

check_number_iff : (front : List ℕ) → (check_number front ≡ ok tt) ↔ Unsigned front
unfolding check_number
check_number_iff [] = ((λ h. absurd (ground (arith, h))), λ h. absurd (h.0 refl))
check_number_iff (c ∷ s) = (
  (λ h. ((λ e. cc), λ o. ground (arith, h, Occurs→elem b'-' (c ∷ s) o))),
  λ h. elim (Bool-cases (elem b'-' (c ∷ s))) [
    | inl e ↦ absurd (h.1 (elem→Occurs b'-' (c ∷ s) e))
    | inr e ↦ rw e
  ],
)

-- Only the suffix B ever decides: each of the others ends in it.
check_suffixes_lem :
    (s : List ℕ)
    → check_suffixes size_suffixes s
      ≡ elim (strip_suffix (b'B' ∷ []) s) [ none ↦ err no_unit | some front ↦ check_number front ]
unfolding check_suffixes
check_suffixes_lem s = elim (Option-cases (strip_suffix (b'B' ∷ []) s)) [
  | inr (f, e) ↦ ground (arith, e)
  | inl e ↦ ground (
    arith,
    e,
    strip_longer b'K' b'B' s e,
    strip_longer b'M' b'B' s e,
    strip_longer b'G' b'B' s e,
    strip_longer b'T' b'B' s e,
  )
]

abbrev Ends : List ℕ → Type 0
Ends t = (front : List ℕ) × (t ≡ front ++ b'B' ∷ []) × (front ≢ []) × (¬ Occurs b'-' front)

suffixes_found :
    (t : List ℕ) (o : Option (List ℕ))
    → strip_suffix (b'B' ∷ []) t ≡ o
    → ◌≡◌ {A = Result SizeError (Unit {0})}
        (elim o [ none ↦ err no_unit | some front ↦ check_number front ])
        (ok tt)
    → Ends t
suffixes_found t none e h = absurd (ground (arith, h))
suffixes_found t (some f) e h =
    let (a, b) = (check_number_iff f).0 h in (f, strip-append (b'B' ∷ []) t f e, a, b)

suffixes_iff : (t : List ℕ) → (check_suffixes size_suffixes t ≡ ok tt) ↔ Ends t
suffixes_iff t = (
  (λ h. suffixes_found t _ refl (sym (check_suffixes_lem t) ∙ h)),
  λ (f, e, a, b).
      check_suffixes_lem t ∙ ground (arith, strip_unit b'B' f, e, (check_number_iff f).1 (a, b)),
)

limit_iff :
    (upper : ℕ → ℕ) (s : List ℕ)
    → (check_limit upper s ≡ ok tt) ↔ ((s ≡ []) ⊎ Ends (to_upper upper s))
unfolding check_limit
limit_iff upper [] = ((λ _. inl refl), λ _. refl)
limit_iff upper (c ∷ s) =
    let iff = suffixes_iff (to_upper upper (c ∷ s)) in
    ((λ h. inr (iff.0 h)), elim [ inl e ↦ absurd (cc) | inr e ↦ iff.1 e ])

-- A size limit is accepted exactly if it is empty, or if in capitals it ends in B, with something
-- before the B and no minus sign in it. What stands before the B need not be a number.
pub validate_size_limit_iff :
    (upper : ℕ → ℕ) (limit : String)
    → (validate_size_limit upper limit ≡ ok tt) ↔ IsSize upper limit
unfolding validate_size_limit
validate_size_limit_iff upper limit = limit_iff upper (codes limit)
