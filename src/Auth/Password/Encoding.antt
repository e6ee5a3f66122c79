-- ===== src/Auth/Password/Encoding.antt =====
-- hashArgon2id against verifyArgon2id: internal/auth/manager.go.
use piccolod.Common.{
  ℕ, ◌≤◌, ◌≡◌, not, ◌&&◌, ◌⊎◌, inl, inr, refl, ap, ◌∙◌, String, Bool, true, Option, none, some,
  List, [], ◌∷◌, ◌++◌, length, nat_eq, codes, text_eq, text_eq_refl, arith, Bool-cases, subst,
}
use piccolod.Auth.Password.{
  split, add_front, Params, read_params, select_auth_parallelism, params_text, hash_argon2id,
  check_key, verify_tokens, verify_argon2id,
}

-- The separator does not occur.
abbrev pub lacks : ℕ → List ℕ → Bool
lacks sep [] = true
lacks sep (c ∷ s) = not (nat_eq c sep) && lacks sep s

pub split-last : (sep : ℕ) (s : List ℕ) → lacks sep s ≡ true → split sep s ≡ s ∷ []
unfolding split add_front
split-last sep [] l = refl
split-last sep (c ∷ s) l = ground (arith, l, split-last sep s)

pub split-append :
    (sep : ℕ) (s t : List ℕ) → lacks sep s ≡ true → split sep (s ++ sep ∷ t) ≡ s ∷ split sep t
unfolding split add_front
split-append sep [] t l = ground arith
split-append sep (c ∷ s) t l = ground (arith, l, split-append sep s t)

-- The number of threads is from one to four.
pub select_auth_parallelism-bounds :
    (cores : ℕ) → (1 ≤ select_auth_parallelism cores) × (select_auth_parallelism cores ≤ 4)
unfolding select_auth_parallelism
select_auth_parallelism-bounds cores = (ground arith, ground arith)

few_threads : (p : ℕ) → 1 ≤ p → p ≤ 4 → (p ≡ 1) ⊎ ((p ≡ 2) ⊎ ((p ≡ 3) ⊎ (p ≡ 4)))
few_threads p low high = elim (Bool-cases (nat_eq p 1)) [
  | inl e ↦ inl (ground (arith, e))
  | inr e ↦ inr (elim (Bool-cases (nat_eq p 2)) [
    | inl f ↦ inl (ground (arith, f))
    | inr f ↦ inr (elim (Bool-cases (nat_eq p 3)) [
      | inl g ↦ inl (ground (arith, g))
      | inr g ↦ inr (ground (arith, e, f, g, low, high))
    ])
  ])
]

-- What is read of the parameters is what was written.
written : ℕ → Params
written threads = record { memory = 65536; rounds = 3; threads = threads }

read-params_text :
    (threads : ℕ)
    → (threads ≡ 1) ⊎ ((threads ≡ 2) ⊎ ((threads ≡ 3) ⊎ (threads ≡ 4)))
    → (read_params (params_text threads) ≡ written threads)
      × (lacks b'$' (params_text threads) ≡ true)
unfolding read_params params_text written text_eq
read-params_text threads (inl e) = rw e (refl, refl)
read-params_text threads (inr (inl e)) = rw e (refl, refl)
read-params_text threads (inr (inr (inl e))) = rw e (refl, refl)
read-params_text threads (inr (inr (inr e))) = rw e (refl, refl)

-- The tokens of a hash, where the parts that base64 wrote have no separator in them.
hash_tokens :
    (params salt hash : List ℕ)
    → lacks b'$' params ≡ true
    → lacks b'$' salt ≡ true
    → lacks b'$' hash ≡ true
    → split b'$' (
        codes "argon2id"
        ++ b'$' ∷ (codes "v=19" ++ b'$' ∷ (params ++ b'$' ∷ (salt ++ b'$' ∷ hash))))
      ≡ codes "argon2id" ∷ codes "v=19" ∷ params ∷ salt ∷ hash ∷ []
hash_tokens params salt hash p q r =
    split-append b'$' (codes "argon2id") _ refl
    ∙ ap (◌∷◌ (codes "argon2id")) (
        split-append b'$' (codes "v=19") _ refl
        ∙ ap (◌∷◌ (codes "v=19")) (
            split-append b'$' params _ p
            ∙ ap (◌∷◌ params)
                (split-append b'$' salt hash q ∙ ap (◌∷◌ salt) (split-last b'$' hash r))))

module _ (id_key : String → List ℕ → ℕ → ℕ → ℕ → ℕ → List ℕ) (encode : List ℕ → List ℕ)
    (decode : List ℕ → Option (List ℕ)) where
  verify-tokens :
      (password : String) (threads : ℕ) (salt : List ℕ)
      → read_params (params_text threads) ≡ written threads
      → (decode (encode salt) ≡ some salt)
      → (let hash = id_key password salt 3 65536 threads 32 in decode (encode hash) ≡ some hash)
      → length (id_key password salt 3 65536 threads 32) ≡ 32
      → verify_tokens id_key encode decode password (
          codes "argon2id"
          ∷ codes "v=19"
          ∷ params_text threads
          ∷ encode salt
          ∷ encode (id_key password salt 3 65536 threads 32)
          ∷ [])
        ≡ true
  unfolding verify_tokens check_key text_eq written
  verify-tokens password threads salt p d e n =
      rw (p, d, e, n) (text_eq_refl (id_key password salt 3 65536 threads 32))

  -- A password verifies against the hash that was made of it, on any number of processors and with
  -- any salt, if base64 decodes what it encoded and writes no "$", and if argon2 returns as many
  -- bytes as it is asked for.
  pub verify-hash :
      (cores : ℕ) (salt : List ℕ) (password : String) (hash : List ℕ)
      → ((bytes : List ℕ) → decode (encode bytes) ≡ some bytes)
      → ((bytes : List ℕ) → lacks b'$' (encode bytes) ≡ true)
      → ((p : String) (s : List ℕ) (t m c n : ℕ) → length (id_key p s t m c n) ≡ n)
      → hash_argon2id id_key encode decode cores (some salt) password ≡ some hash
      → verify_argon2id id_key encode decode hash password ≡ true
  unfolding hash_argon2id verify_argon2id
  verify-hash cores salt password hash decodes no_dollar sized made =
      let threads = select_auth_parallelism cores in
      let (low, high) = select_auth_parallelism-bounds cores in
      let (read, lacking) = read-params_text threads (few_threads threads low high) in
      let key = id_key password salt 3 65536 threads 32 in
      let same = ap (λ (o : Option (List ℕ)). elim o [ none ↦ hash | some h ↦ h ]) made in
      subst (λ h. verify_argon2id id_key encode decode h password ≡ true) same
        (ap (verify_tokens id_key encode decode password) (
            hash_tokens (params_text threads) (encode salt) (encode key) lacking (no_dollar salt)
              (no_dollar key))
          ∙ verify-tokens password threads salt read (decodes salt) (decodes key)
              (sized password salt 3 65536 threads 32))

  pub hash-some :
      (cores : ℕ) (salt : List ℕ) (password : String)
      → (hash : List ℕ) × (hash_argon2id id_key encode decode cores (some salt) password
          ≡ some hash)
  unfolding hash_argon2id
  hash-some cores salt password = (_, refl)
