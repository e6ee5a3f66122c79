-- ===== src/Tests/Passwords.antt =====
-- The credentials of internal/auth/manager.go with libraries that obey their laws, and with a storage
-- that fails to save.
use piccolod.Common.{
  ℕ, zero, suc, ◌+◌, ◌-◌, ◌≡◌, refl, ap, String, true, false, Option, none, some, List, [], ◌∷◌,
  length, Result, ok, arith, Eq-string,
}
use piccolod.Auth.Password.{verify_argon2id, split}
use piccolod.Auth.Password.Encoding.{lacks, verify-hash, hash-some}
use piccolod.Auth.Credentials.{State, Manager, storage_error, already_set_up, setup, verify}
use piccolod.Auth.Credentials.Once.{
  IsSetUp, Act, setting_up, recovering, asking, act_all, setup-once,
}
use piccolod.Auth.Credentials.Keeping.{AreLawful, setup-kept}

abbrev zeros : ℕ → List ℕ
zeros zero = []
zeros (suc n) = 0 ∷ zeros n

-- A key that does not depend on the password.
abbrev flat_key : String → List ℕ → ℕ → ℕ → ℕ → ℕ → List ℕ
flat_key password salt rounds memory threads size = zeros size

abbrev shift : List ℕ → List ℕ
shift [] = []
shift (b ∷ bytes) = (b + 37) ∷ shift bytes

abbrev unshift : List ℕ → List ℕ
unshift [] = []
unshift (c ∷ text) = (c - 37) ∷ unshift text

abbrev decode : List ℕ → Option (List ℕ)
decode text = some (unshift text)

unshift-shift : (bytes : List ℕ) → unshift (shift bytes) ≡ bytes
unshift-shift [] = refl
unshift-shift (b ∷ bytes) = ground (arith, unshift-shift bytes)

lacks-shift : (bytes : List ℕ) → lacks b'$' (shift bytes) ≡ true
lacks-shift [] = refl
lacks-shift (b ∷ bytes) = ground (arith, lacks-shift bytes)

length-zeros : (n : ℕ) → length (zeros n) ≡ n
length-zeros zero = refl
length-zeros (suc n) = ground (arith, length-zeros n)

decodes : (bytes : List ℕ) → decode (shift bytes) ≡ some bytes
decodes bytes = ap some (unshift-shift bytes)

sized : (p : String) (s : List ℕ) (t m c n : ℕ) → length (flat_key p s t m c n) ≡ n
sized p s t m c n = length-zeros n

abbrev salt : List ℕ
salt = 1 ∷ 2 ∷ []

verify-hash_example :
    verify_argon2id flat_key shift decode
      (hash-some flat_key shift decode 8 salt "secret").0
      "secret"
    ≡ true
verify-hash_example =
    verify-hash flat_key shift decode 8 salt "secret"
      (hash-some flat_key shift decode 8 salt "secret").0 decodes lacks-shift sized
      (hash-some flat_key shift decode 8 salt "secret").1

-- A storage that holds one state and fails with a number.
abbrev load : State → Result ℕ State
load w = ok w

abbrev save : State → State → Option ℕ × State
save state w = (some 28, w)

lawful : AreLawful State ℕ load save flat_key shift decode 8
lawful = record { decodes = decodes; no_dollar = lacks-shift; sized = sized }

abbrev empty : State
empty = record { initialized = false; password_hash = [] }

abbrev fresh : Manager
fresh = record { state = empty; loaded = true }

setup-kept_example :
    let (error, m', w') =
      setup State ℕ load save flat_key shift decode 8 (some salt) "secret" fresh empty in
    (error ≡ some (storage_error 28))
    × ((verify State ℕ load save flat_key shift decode 8 "admin" "secret" m' empty).0 ≡ ok true)
setup-kept_example =
    setup-kept State ℕ load save flat_key shift decode 8 salt "secret" fresh empty empty lawful refl
      refl refl

-- A manager with the password "secret".
abbrev known : Manager
known = record {
  state = record {
    initialized = true;
    password_hash = (hash-some flat_key shift decode 8 salt "secret").0;
  };
  loaded = true;
}

known-IsSetUp : IsSetUp State ℕ load save flat_key shift decode 8 known
known-IsSetUp = record { loaded = refl; initialized = refl }

-- No password verifies against the empty hash.
abbrev locked : Manager
locked = record { state = record { initialized = true; password_hash = [] }; loaded = true }

wrong : verify_argon2id flat_key shift decode [] "guess" ≡ false
unfolding verify_argon2id split
wrong = refl

abbrev acts : List (Act State ℕ load save flat_key shift decode 8)
acts = recovering (some salt) "other" ∷ asking ∷ setting_up none "again" ∷ []

setup-once_example :
    let (m', w') = act_all State ℕ load save flat_key shift decode 8 acts (known, empty) in
    setup State ℕ load save flat_key shift decode 8 (some salt) "mine" m' w'
    ≡ (some already_set_up, m', w')
setup-once_example =
    setup-once State ℕ load save flat_key shift decode 8 (some salt) "mine" acts known empty
      known-IsSetUp refl
