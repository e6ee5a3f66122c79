-- ===== src/Tests/Keys.antt =====
-- internal/crypt/manager.go with a disk that never fails and a toy cipher that obeys its laws.
use piccolod.Common.{
  ℕ, ◌+◌, ◌≤◌, ◌≡◌, refl, ap, String, true, false, Option, none, some, List, [], ◌∷◌, length,
  Result, ok, err, nat_eq, nat_eq_iff, if_true, if◌then◌else◌, codes, Eq-string,
}
use piccolod.Crypt.Platform.{
  FileState, Platform, invalid_password, select_crypto_parallelism, checked, checked_bytes,
  unchecked, derive_key, read_state, read_supported, password_key, password_key_unchecked, saved,
}
use piccolod.Crypt.Mnemonic.{words_of, mnemonic}
use piccolod.Crypt.Manager.{Manager, setup, unlock, rewrap, unlock_key, fresh_params}
use piccolod.Crypt.Recovery.{is_set, generate_recovery_key}
use piccolod.Crypt.Laws.{IsLawful}
use piccolod.Crypt.SettingUp.{setup-unlock}
use piccolod.Crypt.Recovering.{Recovers, generate_recovery_key-Recovers}
use piccolod.Crypt.History.{System, Calls, here, next, unlocking, rewrapping, Keeps, setup-Calls}
use piccolod.Crypt.Locking as Locking
use piccolod.Crypt.Locking.{perform, Presents, perform-Presents}
use piccolod.Crypt.Refusing.{LeavesAll, perform-LeavesAll}
use piccolod.Crypt.Words.{fresh_params-bounds}

-- A text in which the characters are summed up.
abbrev sum : List ℕ → ℕ
sum [] = 0
sum (c ∷ s) = c + sum s

abbrev first : List ℕ → Result ℕ ℕ
first [] = err 2
first (c ∷ s) = ok c

abbrev read : Option FileState → Result ℕ FileState
read none = err 1
read (some st) = ok st

abbrev present : Option FileState → Option ℕ
present none = some 1
present (some st) = none

abbrev unseal : ℕ → List ℕ → Option (List ℕ)
unseal a [] = none
unseal a (b ∷ pt) = if nat_eq a b then some pt else none

abbrev pub toy : Platform
toy = record {
  W = Option FileState;
  File = FileState;
  Aead = ℕ;
  E = ℕ;
  stat = present;
  read_file = read;
  write_file = λ st w. (none, some st);
  marshal = λ st. st;
  unmarshal = λ st. ok st;
  encode = λ b. b;
  decode = λ b. (b, none);
  id_key = λ pw salt time memory threads size. sum (codes pw) ∷ salt;
  new_gcm = first;
  nonce_size = λ a. 12;
  seal = λ a nonce pt. a ∷ pt;
  open_sealed = λ a nonce ct. unseal a ct;
  num_cpu = 4;
}

wrote :
    (f : FileState) (w w' : Option FileState)
    → ◌≡◌ {A = Option ℕ × Option FileState} (none, some f) (none, w')
    → read w' ≡ ok f
wrote f w w' h = cc (ap (λ (p : Option ℕ × Option FileState). read p.1) h)

unseal_lem : (a : ℕ) (nonce pt : List ℕ) → length nonce ≡ 12 → unseal a (a ∷ pt) ≡ some pt
unseal_lem a nonce pt size = if_true (nat_eq a a) _ _ ((nat_eq_iff a a).1 refl)

pub toy-IsLawful : IsLawful toy
unfolding is_set
toy-IsLawful = record {
  file = wrote;
  json = λ st. refl;
  base64 = λ b. refl;
  sizes = λ a. refl;
  aead = unseal_lem;
  sealed = λ a nonce pt. refl;
}

abbrev pub salt : List ℕ
salt = 1 ∷ 2 ∷ []

abbrev pub key : List ℕ
key = 5 ∷ 6 ∷ 7 ∷ []

abbrev pub nonce : List ℕ
nonce = 0 ∷ 1 ∷ 2 ∷ 3 ∷ 4 ∷ 5 ∷ 6 ∷ 7 ∷ 8 ∷ 9 ∷ 10 ∷ 11 ∷ []

abbrev unset : Manager
unset = record { sdek = []; inited = false }

abbrev pub closed : Manager
closed = record { sdek = []; inited = true }

abbrev pub unlocked : Manager
unlocked = record { sdek = key; inited = true }

abbrev pub keyset : String → FileState
keyset password = record {
  sdek = sum (codes password) ∷ key;
  salt = salt;
  nonce = nonce;
  kdf = record { alg = "argon2id"; time = 3; memory = 524288; threads = 3 };
  rk_salt = [];
  rk_nonce = [];
  sdek_rk = [];
}

set_up :
    setup toy (ok salt) (ok key) (ok nonce) "first" unset none
    ≡ (none, closed, some (keyset "first"))
unfolding setup checked derive_key saved select_crypto_parallelism
set_up = refl

opened : unlock toy "first" closed (some (keyset "first")) ≡ (none, unlocked)
unfolding unlock read_supported checked password_key checked_bytes
opened = refl

refused : unlock toy "second" closed (some (keyset "first")) ≡ (some invalid_password, closed)
unfolding unlock read_supported checked password_key checked_bytes
refused = refl

pub rewrapped :
    rewrap toy (ok salt) (ok nonce) "first" "second" unlocked (some (keyset "first"))
    ≡ (none, some (keyset "second"))
unfolding rewrap read_supported checked unchecked password_key_unchecked derive_key saved
rewrapped = refl

abbrev pub after : Manager → String → System toy
after m password = record {
  password = password;
  words = none;
  manager = m;
  disk = some (keyset password);
}

calls : Calls toy (after closed "first") (after unlocked "second")
calls = next (next here (unlocking (after closed "first") unlocked opened)) (
    rewrapping (after unlocked "first") (ok salt) (ok nonce) "second" (some (keyset "second")) refl
      rewrapped)

setup-unlock_example :
    (closed.sdek ≡ [])
    × (k : List ℕ) × (◌≡◌ {A = Result ℕ (List ℕ)} (ok key) (ok k))
    × (unlock_key toy "first" (some (keyset "first")) ≡ ok k)
    × (unlock toy "first" closed (some (keyset "first"))
        ≡ (none, record { sdek = k; inited = true }))
setup-unlock_example =
    setup-unlock toy toy-IsLawful (ok salt) (ok key) (ok nonce) "first" unset closed none
      (some (keyset "first")) refl set_up

setup-Calls_example :
    (k : List ℕ) × (◌≡◌ {A = Result ℕ (List ℕ)} (ok key) (ok k))
    × Keeps toy k (after unlocked "second")
setup-Calls_example =
    setup-Calls toy toy-IsLawful (ok salt) (ok key) (ok nonce) "first" unset closed none
      (some (keyset "first")) (after unlocked "second") refl set_up calls

perform-LeavesAll_example :
    LeavesAll toy closed
      (some (keyset "first"))
      (perform toy (Locking.unlocking "second") closed (some (keyset "first")))
perform-LeavesAll_example =
    perform-LeavesAll toy (Locking.unlocking "second") closed (some (keyset "first"))

abbrev bytes : List ℕ
bytes = 0 ∷ 27 ∷ 255 ∷ []

abbrev with_words : FileState
with_words = record (keyset "first") {
  rk_salt = salt;
  rk_nonce = nonce;
  sdek_rk = sum (codes "alpha bravo victor") ∷ key;
}

made_words :
    generate_recovery_key toy (ok bytes) (ok salt) (ok nonce) false unlocked (some (keyset "first"))
    ≡ (ok ("alpha" ∷ "bravo" ∷ "victor" ∷ []), some with_words)
unfolding generate_recovery_key read_state checked unchecked derive_key saved words_of mnemonic
    is_set
made_words = refl

generate_recovery_key-Recovers_example :
    Recovers toy toy-IsLawful key
      ("alpha" ∷ "bravo" ∷ "victor" ∷ [])
      (some (keyset "first"))
      (some with_words)
generate_recovery_key-Recovers_example =
    generate_recovery_key-Recovers toy toy-IsLawful (ok bytes) (ok salt) (ok nonce) false unlocked
      (some (keyset "first")) (some with_words) ("alpha" ∷ "bravo" ∷ "victor" ∷ []) refl made_words

fresh_params-bounds_example :
    (1 ≤ (fresh_params toy).threads)
    × ((fresh_params toy).threads ≤ 8)
    × ((fresh_params toy).threads ≡ select_crypto_parallelism toy.num_cpu)
fresh_params-bounds_example = fresh_params-bounds toy
