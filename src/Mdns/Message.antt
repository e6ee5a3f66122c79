-- ===== src/Mdns/Message.antt =====
-- internal/mdns/security.go, validateDNSMessage, and internal/mdns/protocol.go, what
-- handleDualStackQuery does with a message once its packet was accepted. What the library makes
-- of the bytes is an argument, nothing where it cannot read them.
use piccolod.Common.{
  ℕ, ◌≤◌, ◌≡◌, ◌≢◌, ◌↔◌, ◌⊎◌, inl, inr, refl, String, Bool, true, false, not, ◌&&◌, ◌||◌, Option,
  none, some, List, [], ◌∷◌, ◌++◌, length, All, ltb, nat_eq, nat_eq_iff, codes, byte_len,
  has_suffix, has_suffix_iff, arith, Bool-cases, if◌then◌else◌,
}

pub record Question : Type 0 where
  pub name : String
  pub qtype : ℕ
  pub qclass : ℕ

-- The answers by the names that they are about.
pub record Message : Type 0 where
  pub questions : List Question
  pub answers : List String
  pub extra : ℕ
  pub response : Bool
  pub opcode : ℕ

pub data MessageError : Type 0 where
  too_many_questions : MessageError
  answers_only : MessageError
  too_many_answers : MessageError
  too_many_extra : MessageError
  unsupported_class : MessageError
  unsupported_type : MessageError
  non_local : MessageError
  hostname_too_long : MessageError

-- Types A, AAAA and ANY; the class INET is 1.
known_type : ℕ → Bool
known_type t = nat_eq t 1 || nat_eq t 28 || nat_eq t 255

abbrev pub local_suffix : List ℕ
local_suffix = codes ".local."

validate_question : Question → Option MessageError
unfolding known_type
validate_question q =
    if not (nat_eq q.qclass 1)
    then some unsupported_class
    else if not (known_type q.qtype)
    then some unsupported_type
    else if not (has_suffix local_suffix (codes q.name))
    then some non_local
    else if ltb 253 (byte_len (codes q.name))
    then some hostname_too_long
    else none

or_rest : Option MessageError → Option MessageError → Option MessageError
or_rest none rest = rest
or_rest (some e) rest = some e

validate_questions : List Question → Option MessageError
unfolding validate_question or_rest
validate_questions [] = none
validate_questions (q ∷ questions) = or_rest (validate_question q) (validate_questions questions)

pub validate_dns_message : Message → Option MessageError
unfolding validate_questions
validate_dns_message m =
    if ltb 10 (length m.questions)
    then some too_many_questions
    else if ltb 0 (length m.answers) && nat_eq (length m.questions) 0
    then some answers_only
    else if ltb 10 (length m.answers)
    then some too_many_answers
    else if ltb 100 m.extra
    then some too_many_extra
    else validate_questions m.questions

-- What becomes of an accepted packet.
pub data Handling : Type 0 where
  malformed : Handling
  invalid : MessageError → Handling
  conflict_detection : Handling
  ignored : Handling
  answering : Handling

handle_valid : Message → Option MessageError → Handling
handle_valid m (some e) = invalid e
handle_valid m none =
    if m.response
    then conflict_detection
    else if not (nat_eq m.opcode 0)
    then ignored
    else answering

pub handle_message : Option Message → Handling
unfolding handle_valid validate_dns_message
handle_message none = malformed
handle_message (some m) = handle_valid m (validate_dns_message m)

-- A question that is answered: of the class INET, of a known type, and about a name under "local".
-- that is not too long.
pub record IsQuestion (q : Question) : Type 0 where
  pub inet : q.qclass ≡ 1
  pub known : (q.qtype ≡ 1) ⊎ ((q.qtype ≡ 28) ⊎ (q.qtype ≡ 255))
  pub about_local : (host : List ℕ) × (codes q.name ≡ host ++ local_suffix)
  pub short : byte_len (codes q.name) ≤ 253

pub record IsMessage (m : Message) : Type 0 where
  pub few_questions : length m.questions ≤ 10
  pub few_answers : length m.answers ≤ 10
  pub little_extra : m.extra ≤ 100
  pub asks : (m.questions ≢ []) ⊎ (m.answers ≡ [])
  pub all_good : All IsQuestion m.questions

known_type_iff : (t : ℕ) → (known_type t ≡ true) ↔ ((t ≡ 1) ⊎ ((t ≡ 28) ⊎ (t ≡ 255)))
unfolding known_type
known_type_iff t = (
  λ h. elim (Bool-cases (nat_eq t 1)) [
    | inl e ↦ inl ((nat_eq_iff t 1).0 e)
    | inr e ↦ inr (elim (Bool-cases (nat_eq t 28)) [
      | inl f ↦ inl ((nat_eq_iff t 28).0 f)
      | inr f ↦ inr ((nat_eq_iff t 255).0 (ground (arith, e, f, h)))
    ])
  ],
  λ h. ground (arith, h),
)

validate_question_iff : (q : Question) → (validate_question q ≡ none) ↔ IsQuestion q
unfolding validate_question
validate_question_iff q = (
  λ h. record {
    inet = ground (arith, h);
    known = (known_type_iff q.qtype).0 (ground (arith, h));
    about_local = (has_suffix_iff local_suffix (codes q.name)).0 (ground (arith, h));
    short = ground (arith, h);
  },
  λ g. ground (
    arith,
    g.inet,
    (known_type_iff q.qtype).1 g.known,
    g.short,
    (has_suffix_iff local_suffix (codes q.name)).1 g.about_local,
  ),
)

validate_questions_iff :
    (questions : List Question) → (validate_questions questions ≡ none) ↔ All IsQuestion questions
unfolding validate_questions or_rest
validate_questions_iff [] = (λ h. tt, λ h. refl)
validate_questions_iff (q ∷ questions) =
    let (f, g) = validate_question_iff q in
    let (f', g') = validate_questions_iff questions in
    (λ h. (f (ground (arith, h)), f' (ground (arith, h))), λ (a, b). ground (arith, g a, g' b))

-- The test for answers without a question.
abbrev only_answers : List Question → List String → Bool
only_answers questions answers = ltb 0 (length answers) && nat_eq (length questions) 0

asks_at :
    (questions : List Question) (answers : List String)
    → only_answers questions answers ≡ false
    → (questions ≢ []) ⊎ (answers ≡ [])
asks_at [] [] h = inr refl
asks_at [] (a ∷ answers) h = ground (arith, h)
asks_at (q ∷ questions) answers h = inl (λ p. cc)

at_asks :
    (questions : List Question) (answers : List String)
    → (questions ≢ []) ⊎ (answers ≡ [])
    → only_answers questions answers ≡ false
at_asks [] [] h = refl
at_asks [] (a ∷ answers) (inl h) = absurd (h refl)
at_asks [] (a ∷ answers) (inr h) = cc
at_asks (q ∷ questions) answers h = ground arith

-- A message is accepted just when it has at most ten questions, ten answers and a hundred extra
-- records, no answers without a question, and only questions of the class INET for addresses (or
-- any records) of names under "local" of at most 253 bytes.
pub validate_dns_message_iff : (m : Message) → (validate_dns_message m ≡ none) ↔ IsMessage m
unfolding validate_dns_message
validate_dns_message_iff m = (
  λ h. record {
    few_questions = ground (arith, h);
    few_answers = ground (arith, h);
    little_extra = ground (arith, h);
    asks = asks_at m.questions m.answers (ground (arith, h));
    all_good = (validate_questions_iff m.questions).0 (ground (arith, h));
  },
  λ g. ground (
    arith,
    g.few_questions,
    g.few_answers,
    g.little_extra,
    at_asks m.questions m.answers g.asks,
    (validate_questions_iff m.questions).1 g.all_good,
  ),
)

-- A response with answers and without questions never reaches the conflict detection.
pub answers_only-undetected :
    (m : Message) → m.questions ≡ [] → m.answers ≢ [] → handle_message (some m) ≢ conflict_detection
unfolding handle_message handle_valid validate_dns_message
answers_only-undetected m q a h = elim (Bool-cases (only_answers m.questions m.answers)) [
  | inl e ↦ ground (arith, e, h, q)
  | inr e ↦ elim (asks_at m.questions m.answers e) [ inl n ↦ n q | inr n ↦ a n ]
]
