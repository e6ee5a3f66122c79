-- ===== src/Persistence/Mounts/Escapes.antt =====
-- internal/persistence/file_volume_manager.go: isMountPoint against the table as the kernel writes it.
use piccolod.Common.{
  ℕ, ◌≡◌, refl, sym, ap, ◌∙◌, Bool, true, false, ◌||◌, none, List, [], ◌∷◌, ◌++◌, nat_eq, text_eq,
  codes, if◌then◌else◌, ok, arith, Bool-cases, inl, inr, nat_eq_iff, subst, ap,
}
use piccolod.Auth.Password.{split}
use piccolod.Auth.Password.Encoding.{lacks, split-append}
use piccolod.Persistence.Mounts.{
  escaped, decode_from, decode_mount_point, mount_of, is_target, line_matches, any_line,
  is_mount_point,
}

-- The kernel writes the four bytes that would break a line as octal numbers.
escape_byte : ℕ → List ℕ
escape_byte c =
    if nat_eq c 32
    then codes "\\040"
    else if nat_eq c 9
    then codes "\\011"
    else if nat_eq c 10
    then codes "\\012"
    else if nat_eq c 92
    then codes "\\134"
    else c ∷ []

pub escape : List ℕ → List ℕ
unfolding escape_byte
escape [] = []
escape (c ∷ path) = escape_byte c ++ escape path

escaped-none : (c : ℕ) (s : List ℕ) → nat_eq c 92 ≡ false → escaped (c ∷ s) ≡ none
unfolding escaped text_eq
escaped-none c [] h = refl
escaped-none c (a ∷ []) h = refl
escaped-none c (a ∷ b ∷ []) h = refl
escaped-none c (a ∷ b ∷ d ∷ s) h = rw h refl

decode-plain :
    (c : ℕ) (s : List ℕ) → nat_eq c 92 ≡ false → decode_from 0 (c ∷ s) ≡ c ∷ decode_from 0 s
unfolding decode_from
decode-plain c s h = rw (escaped-none c s h, decode_from) refl

decode-escape_byte : (c : ℕ) (s : List ℕ) → decode_from 0 (escape_byte c ++ s) ≡ c ∷ decode_from 0 s
unfolding decode_from escape_byte text_eq
decode-escape_byte c s = elim (Bool-cases (nat_eq c 32)) [
  | inl e ↦
      subst (λ x. decode_from 0 (escape_byte x ++ s) ≡ x ∷ decode_from 0 s)
        (sym ((nat_eq_iff c 32).0 e)) refl
  | inr e ↦ elim (Bool-cases (nat_eq c 9)) [
    | inl f ↦
        subst (λ x. decode_from 0 (escape_byte x ++ s) ≡ x ∷ decode_from 0 s)
          (sym ((nat_eq_iff c 9).0 f)) refl
    | inr f ↦ elim (Bool-cases (nat_eq c 10)) [
      | inl g ↦
          subst (λ x. decode_from 0 (escape_byte x ++ s) ≡ x ∷ decode_from 0 s)
            (sym ((nat_eq_iff c 10).0 g)) refl
      | inr g ↦ elim (Bool-cases (nat_eq c 92)) [
        | inl h ↦
            subst (λ x. decode_from 0 (escape_byte x ++ s) ≡ x ∷ decode_from 0 s)
              (sym ((nat_eq_iff c 92).0 h)) refl
        | inr h ↦ rw (e, f, g, h) (decode-plain c s h)
      ]
    ]
  ]
]

pub decode-escape : (path : List ℕ) → decode_mount_point (escape path) ≡ path
unfolding decode_mount_point escape
decode-escape [] = refl
decode-escape (c ∷ path) = decode-escape_byte c (escape path) ∙ ap (◌∷◌ c) (decode-escape path)

-- A line of the table: four fields, the path where it is mounted, and the rest.
pub record Mount : Type 0 where
  pub id : List ℕ
  pub parent : List ℕ
  pub device : List ℕ
  pub root : List ℕ
  pub path : List ℕ
  pub rest : List ℕ

pub line_of : Mount → List ℕ
line_of m =
    m.id
    ++ b' '
      ∷ (m.parent
          ++ b' ' ∷ (m.device ++ b' ' ∷ (m.root ++ b' ' ∷ (escape m.path ++ b' ' ∷ m.rest))))

pub table_of : List Mount → List ℕ
unfolding line_of
table_of [] = []
table_of (m ∷ ms) = line_of m ++ 10 ∷ table_of ms

-- No field has a space, and no part of the line a line break.
pub record IsClean (m : Mount) : Type 0 where
  pub id : (lacks b' ' m.id ≡ true) × (lacks 10 m.id ≡ true)
  pub parent : (lacks b' ' m.parent ≡ true) × (lacks 10 m.parent ≡ true)
  pub device : (lacks b' ' m.device ≡ true) × (lacks 10 m.device ≡ true)
  pub root : (lacks b' ' m.root ≡ true) × (lacks 10 m.root ≡ true)
  pub rest : lacks 10 m.rest ≡ true

abbrev pub AllClean : List Mount → Type 0
AllClean [] = Unit
AllClean (m ∷ ms) = IsClean m × AllClean ms

abbrev pub mounted_at : List ℕ → List Mount → Bool
mounted_at target [] = false
mounted_at target (m ∷ ms) = text_eq m.path target || mounted_at target ms

lacks-append :
    (sep : ℕ) (s t : List ℕ) → lacks sep s ≡ true → lacks sep t ≡ true → lacks sep (s ++ t) ≡ true
lacks-append sep [] t p q = q
lacks-append sep (c ∷ s) t p q = ground (arith, p, lacks-append sep s t)

lacks-escape_byte :
    (c : ℕ) → (lacks b' ' (escape_byte c) ≡ true) × (lacks 10 (escape_byte c) ≡ true)
unfolding escape_byte
lacks-escape_byte c = (ground arith, ground arith)

lacks-escape : (path : List ℕ) → (lacks b' ' (escape path) ≡ true) × (lacks 10 (escape path) ≡ true)
unfolding escape
lacks-escape [] = (refl, refl)
lacks-escape (c ∷ path) = (
  lacks-append b' ' (escape_byte c) (escape path) (lacks-escape_byte c).0 (lacks-escape path).0,
  lacks-append 10 (escape_byte c) (escape path) (lacks-escape_byte c).1 (lacks-escape path).1,
)

lacks-joined :
    (s t : List ℕ) → lacks 10 s ≡ true → lacks 10 t ≡ true → lacks 10 (s ++ b' ' ∷ t) ≡ true
lacks-joined s t p q = lacks-append 10 s (b' ' ∷ t) p q

lacks-line_of : (m : Mount) → IsClean m → lacks 10 (line_of m) ≡ true
unfolding line_of
lacks-line_of m k =
    let t4 = escape m.path ++ b' ' ∷ m.rest in
    let t3 = m.root ++ b' ' ∷ t4 in
    let t2 = m.device ++ b' ' ∷ t3 in
    let t1 = m.parent ++ b' ' ∷ t2 in
    lacks-joined m.id t1 k.id.1 (
      lacks-joined m.parent t2 k.parent.1 (
        lacks-joined m.device t3 k.device.1 (
          lacks-joined m.root t4 k.root.1
            (lacks-joined (escape m.path) m.rest (lacks-escape m.path).1 k.rest))))

fields-line_of :
    (m : Mount)
    → IsClean m
    → split b' ' (line_of m)
      ≡ m.id ∷ m.parent ∷ m.device ∷ m.root ∷ escape m.path ∷ split b' ' m.rest
unfolding line_of
fields-line_of m k =
    split-append b' ' m.id _ k.id.0
    ∙ ap (◌∷◌ m.id) (
        split-append b' ' m.parent _ k.parent.0
        ∙ ap (◌∷◌ m.parent) (
            split-append b' ' m.device _ k.device.0
            ∙ ap (◌∷◌ m.device) (
                split-append b' ' m.root _ k.root.0
                ∙ ap (◌∷◌ m.root)
                    (split-append b' ' (escape m.path) m.rest (lacks-escape m.path).0))))

line_matches-fields :
    (target s : List ℕ) {a b c d path : List ℕ} {rest : List (List ℕ)}
    → split b' ' s ≡ a ∷ b ∷ c ∷ d ∷ path ∷ rest
    → line_matches target s ≡ text_eq (decode_mount_point path) target
unfolding line_matches mount_of is_target split
line_matches-fields target [] h = ground (arith, h)
line_matches-fields target (x ∷ s) h = ap (λ f. is_target target (mount_of f)) h

if_true_or : (b : Bool) {x y : Bool} → x ≡ y → (if b then true else x) ≡ (b || y)
if_true_or true h = refl
if_true_or false h = h

any_line-table_of :
    (target : List ℕ) (ms : List Mount)
    → AllClean ms
    → any_line target (split 10 (table_of ms)) ≡ mounted_at target ms
unfolding any_line table_of split line_matches
any_line-table_of target [] k = refl
any_line-table_of target (m ∷ ms) (k, ks) =
    ap (any_line target) (split-append 10 (line_of m) (table_of ms) (lacks-line_of m k))
    ∙ ap (λ b. if b then true else any_line target (split 10 (table_of ms)))
        (line_matches-fields target (line_of m) (fields-line_of m k)
          ∙ ap (λ p. text_eq p target) (decode-escape m.path))
    ∙ if_true_or (text_eq m.path target) (any_line-table_of target ms ks)

-- A path is found to be a mount point exactly if the table that the kernel writes has an entry for it,
-- also where the path has spaces, tabs, line breaks or backslashes. The four fields
-- before the path have no space and no line break, and what follows it no line break.
pub is_mount_point-table_of :
    {E : Type 0} (target : List ℕ) (ms : List Mount)
    → AllClean ms
    → is_mount_point {E = E} (ok (table_of ms)) target ≡ ok (mounted_at target ms)
unfolding is_mount_point
is_mount_point-table_of target ms k = ap ok (any_line-table_of target ms k)
