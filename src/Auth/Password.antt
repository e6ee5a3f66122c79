-- ===== src/Auth/Password.antt =====
-- internal/auth/manager.go: hashArgon2id, selectAuthParallelism and verifyArgon2id. A text is the list
-- of its code points. Arguments stand for argon2.IDKey, which takes the password, the salt, the
-- rounds, the memory, the threads and the length, and for base64.RawStdEncoding.
pub mod Encoding
use piccolod.Common.{
  ℕ, ◌+◌, ◌-◌, ◌*◌, ◌/◌, String, Bool, true, false, ◌&&◌, ◌||◌, not, Option, none, some, List, [],
  ◌∷◌, ◌++◌, length, ltb, leb, nat_eq, codes, text_eq, if◌then◌else◌,
}

-- strings.Split with a separator of one character.
add_front : ℕ → List (List ℕ) → List (List ℕ)
add_front c [] = (c ∷ []) ∷ []
add_front c (t ∷ ts) = (c ∷ t) ∷ ts

unfoldable pub split : ℕ → List ℕ → List (List ℕ)
unfolding add_front
split sep [] = [] ∷ []
split sep (c ∷ s) = let rest = split sep s in if nat_eq c sep then [] ∷ rest else add_front c rest

-- strings.SplitN with the limit 2; nothing if the separator does not occur.
unfoldable pub cut : ℕ → List ℕ → Option (List ℕ × List ℕ)
cut sep [] = none
cut sep (c ∷ s) =
    let rest = cut sep s in
    if nat_eq c sep then some ([], s) else elim rest [ none ↦ none | some (k, v) ↦ some (c ∷ k, v) ]

-- strconv.ParseUint in base 10, its error ignored: 0 for what is no number, and the greatest number
-- for one that is too great.
parse_digits : ℕ → ℕ → List ℕ → ℕ
parse_digits max n [] = n
parse_digits max n (c ∷ s) =
    let next = n * 10 + (c - b'0') in
    let rest = parse_digits max next s in
    if ltb c b'0' || ltb b'9' c then 0 else if ltb max next then max else rest

parse_uint : ℕ → List ℕ → ℕ
unfolding parse_digits
parse_uint max [] = 0
parse_uint max (c ∷ s) = parse_digits max 0 (c ∷ s)

pub record Params : Type 0 where
  pub memory : ℕ
  pub rounds : ℕ
  pub threads : ℕ

set_param : Params → Option (List ℕ × List ℕ) → Params
unfolding parse_uint
set_param p none = p
set_param p (some (key, value)) =
    if text_eq key (codes "m")
    then record p { memory = parse_uint 4294967295 value }
    else if text_eq key (codes "t")
    then record p { rounds = parse_uint 4294967295 value }
    else if text_eq key (codes "p")
    then record p { threads = parse_uint 255 value }
    else p

set_params : Params → List (List ℕ) → Params
unfolding set_param cut
set_params p [] = p
set_params p (t ∷ ts) = set_params (set_param p (cut b'=' t)) ts

pub read_params : List ℕ → Params
unfolding set_params split
read_params t = set_params (record { memory = 0; rounds = 0; threads = 0 }) (split b',' t)

-- Half of the processors, from one thread to four.
pub select_auth_parallelism : ℕ → ℕ
select_auth_parallelism cores =
    if leb cores 1
    then 1
    else if ltb (cores / 2) 1
    then 1
    else if ltb 4 (cores / 2)
    then 4
    else cores / 2

-- The number of threads has one digit.
params_text : ℕ → List ℕ
params_text threads = codes "m=65536,t=3,p=" ++ (b'0' + threads) ∷ []

module _ (id_key : String → List ℕ → ℕ → ℕ → ℕ → ℕ → List ℕ) (encode : List ℕ → List ℕ)
    (decode : List ℕ → Option (List ℕ)) where
  -- The salt is random; without one there is no hash.
  pub hash_argon2id : ℕ → Option (List ℕ) → String → Option (List ℕ)
  unfolding params_text
  hash_argon2id cores none password = none
  hash_argon2id cores (some salt) password =
      let threads = select_auth_parallelism cores in
      some (
        codes "argon2id"
        ++ b'$'
          ∷ (codes "v=19"
              ++ b'$'
                ∷ (params_text threads
                    ++ b'$'
                      ∷ (encode salt ++ b'$' ∷ encode (id_key password salt 3 65536 threads 32)))))

  check_key : String → Params → Option (List ℕ) → Option (List ℕ) → Bool
  check_key password p (some salt) (some want) =
      text_eq (id_key password salt p.rounds p.memory p.threads (length want)) want
  check_key password p _ _ = false

  verify_tokens : String → List (List ℕ) → Bool
  unfolding check_key
  verify_tokens password (name ∷ version ∷ params ∷ salt ∷ hash ∷ rest) =
      text_eq name (codes "argon2id")
      && check_key password (read_params params) (decode salt) (decode hash)
  verify_tokens password _ = false

  -- The bytes are compared in full; two texts of different lengths differ.
  unfoldable pub verify_argon2id : List ℕ → String → Bool
  unfolding verify_tokens
  verify_argon2id encoded password = verify_tokens password (split b'$' encoded)
