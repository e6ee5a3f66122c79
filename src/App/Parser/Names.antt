-- ===== src/App/Parser/Names.antt =====
-- parser.go, validateName, against a description of the names of apps.
use piccolod.Common.{
  ℕ, ◌≤◌, ◌≡◌, ◌≢◌, ◌↔◌, inl, inr, refl, sym, ap, ◌∙◌, String, Bool, true, false, not, ◌&&◌, List,
  [], ◌∷◌, ◌++◌, All, Occurs, elem, elem→Occurs, Occurs→elem, ok, leb, codes, byte_len, Eq-string,
  arith, Bool-cases, ◌==◌, eq_iff, nat_eq, &&-eq-true, &&-true, false≢true,
}
use piccolod.App.Regex.{full_match, accepts, accepts_many, one, is_end}
use piccolod.App.Parser.{
  validate_name, app_name_regex, guard, guard-then, then_guard, is_lower, is_alnum, is_name_char,
  reserved_names, name_required, name_too_long, name_pattern, name_reserved,
}

-- What may follow the first letter.
ends_well : List ℕ → Bool
ends_well [] = true
ends_well (c ∷ []) = is_alnum c
ends_well (c ∷ d ∷ s) = is_name_char c && ends_well (d ∷ s)

accepts_rest :
    (c : ℕ) (s : List ℕ)
    → accepts_many is_name_char (c ∷ s) (λ t. accepts (one is_alnum) t is_end) ≡ ends_well (c ∷ s)
unfolding accepts ends_well
accepts_rest c [] = ground arith
accepts_rest c (d ∷ s) = ground (arith, accepts_rest d s)

matches_name :
    (c : ℕ) (s : List ℕ) → full_match app_name_regex (c ∷ s) ≡ (is_lower c && ends_well s)
unfolding full_match app_name_regex ends_well
matches_name c [] = ground arith
matches_name c (d ∷ s) = ground (arith, accepts_rest d s)

matches_nothing : full_match app_name_regex [] ≡ false
unfolding full_match app_name_regex
matches_nothing = refl

-- The text does not end in a hyphen.
abbrev pub NoHyphenAtEnd : List ℕ → Type 0
NoHyphenAtEnd s = (front : List ℕ) → s ≢ front ++ b'-' ∷ []

abbrev pub NameChars : List ℕ → Type 0
NameChars = All (λ c. is_name_char c ≡ true)

append-ne-nil : (front : List ℕ) (c : ℕ) → front ++ c ∷ [] ≢ []
append-ne-nil [] c e = cc
append-ne-nil (x ∷ front) c e = cc

NoHyphenAtEnd-tail : (c d : ℕ) (s : List ℕ) → NoHyphenAtEnd (c ∷ d ∷ s) → NoHyphenAtEnd (d ∷ s)
NoHyphenAtEnd-tail c d s h front e = h (c ∷ front) (ap (◌∷◌ c) e)

NoHyphenAtEnd-cons : (c d : ℕ) (s : List ℕ) → NoHyphenAtEnd (d ∷ s) → NoHyphenAtEnd (c ∷ d ∷ s)
NoHyphenAtEnd-cons c d s h [] e = cc
NoHyphenAtEnd-cons c d s h (x ∷ front) e = h front (ground arith)

ends_well→ : (s : List ℕ) → ends_well s ≡ true → NameChars s × NoHyphenAtEnd s
unfolding ends_well
ends_well→ [] h = (tt, λ front e. append-ne-nil front b'-' (sym e))
ends_well→ (c ∷ []) h = ((ground arith, tt), no_hyphen)
  where
    no_hyphen : NoHyphenAtEnd (c ∷ [])
    no_hyphen [] e = ground (arith, h)
    no_hyphen (x ∷ front) e = append-ne-nil front b'-' (ground arith)
ends_well→ (c ∷ d ∷ s) h =
    let (p, q) = ends_well→ (d ∷ s) (ground arith) in
    ((ground arith, p), NoHyphenAtEnd-cons c d s q)

→ends_well : (s : List ℕ) → NameChars s → NoHyphenAtEnd s → ends_well s ≡ true
unfolding ends_well
→ends_well [] p q = refl
→ends_well (c ∷ []) p q = elim (Bool-cases (nat_eq c b'-')) [
  | inl e ↦ absurd (q [] (ground (arith, e)))
  | inr e ↦ ground (arith, e, p.0)
]
→ends_well (c ∷ d ∷ s) p q = ground (arith, →ends_well (d ∷ s) p.1 (NoHyphenAtEnd-tail c d s q))

-- A name of an app: it begins with a small letter, goes on in small letters, digits and hyphens, does
-- not end in a hyphen, is at most 50 bytes long, and is not reserved.
pub record IsAppName (name : String) : Type 0 where
  pub first : ℕ
  pub rest : List ℕ
  pub spelled : codes name ≡ first ∷ rest
  pub begins : is_lower first ≡ true
  pub chars : NameChars rest
  pub ends : NoHyphenAtEnd rest
  pub short : byte_len (codes name) ≤ 50
  pub free : ¬ Occurs name reserved_names

accepted_name : (name : String) → validate_name name ≡ ok tt → IsAppName name
unfolding validate_name
accepted_name name h =
    let (a, h1) = guard-then (not (name == "")) name_required _ h in
    let (b, h2) = guard-then (leb (byte_len (codes name)) 50) name_too_long _ h1 in
    let (c, h3) = guard-then (full_match app_name_regex (codes name)) name_pattern _ h2 in
    spell (codes name) refl c (ground arith)
      (λ o. ground (arith, h3, Occurs→elem name reserved_names o))
  where
    spell :
        (s : List ℕ)
        → codes name ≡ s
        → full_match app_name_regex s ≡ true
        → byte_len (codes name) ≤ 50
        → ¬ Occurs name reserved_names
        → IsAppName name
    spell [] e m l o = absurd (false≢true (sym matches_nothing ∙ m))
    spell (c ∷ s) e m l o =
        let (p, q) = &&-eq-true (is_lower c) (ends_well s) (sym (matches_name c s) ∙ m) in
        let (x, y) = ends_well→ s q in
        record {
          first = c;
          rest = s;
          spelled = e;
          begins = p;
          chars = x;
          ends = y;
          short = l;
          free = o;
        }

named_not_empty : (name : String) → IsAppName name → not (name == "") ≡ true
named_not_empty name n = elim (Bool-cases (name == "")) [
  | inl e ↦ absurd (ground (arith, n.spelled, ap codes ((eq_iff name "").0 e)))
  | inr e ↦ rw e
]

named_is_accepted : (name : String) → IsAppName name → validate_name name ≡ ok tt
unfolding validate_name
named_is_accepted name n = then_guard (not (name == "")) name_required _ (named_not_empty name n) (
    then_guard (leb (byte_len (codes name)) 50) name_too_long _ (ground (arith, n.short))
      (then_guard (full_match app_name_regex (codes name)) name_pattern _ matched unreserved))
  where
    matched : full_match app_name_regex (codes name) ≡ true
    matched =
        ap (full_match app_name_regex) n.spelled
        ∙ (matches_name n.first n.rest ∙ &&-true n.begins (→ends_well n.rest n.chars n.ends))

    unreserved : guard (not (elem name reserved_names)) name_reserved ≡ ok tt
    unreserved = elim (Bool-cases (elem name reserved_names)) [
      | inl e ↦ absurd (n.free (elem→Occurs name reserved_names e))
      | inr e ↦ ap (λ (b : Bool). guard (not b) name_reserved) e
    ]

-- validateName accepts exactly the names of apps.
pub validate_name_iff : (name : String) → (validate_name name ≡ ok tt) ↔ IsAppName name
validate_name_iff name = (accepted_name name, named_is_accepted name)
