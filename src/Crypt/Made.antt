-- ===== src/Crypt/Made.antt =====
-- internal/crypt/manager.go: what a file that Rewrap or RewrapUnlocked writes was made of.
use piccolod.Common.{
  ℕ, ◌≡◌, refl, sym, ap, ◌∙◌, subst, String, Bool, true, false, Option, none, some, List, Result,
  ok, err, ◌>>=◌, >>=-elim, ok_injective, Bool-cases, arith, if_true, if_false, if◌then◌else◌, inl,
  inr, Eq-string, ◌==◌,
}
use piccolod.Crypt.Platform.{
  FileState, Platform, CryptError, checked, unchecked, checked_bytes, derive_key, open_with,
  read_state, supported, read_supported, password_key, password_key_unchecked, invalid_password,
  invalid_old_password,
}
use piccolod.Crypt.Manager.{resealed, rewrapped, rewrapped_unlocked}
use piccolod.Crypt.Sealing.{checked-ok, unchecked-ok}

-- A guard that did not refuse.
pub passes :
    {E W : Type 0} (b : Bool) (e : E) (w : W) (x : Option E × W) {w' : W}
    → (if b then (some e, w) else x) ≡ (none, w')
    → (b ≡ false) × (x ≡ (none, w'))
passes {E} {W} true e w x h = cc (ap (λ (p : Option E × W). p.0) h)
passes false e w x h = (refl, h)

module _ (l : Platform) where
  open l use {W, E}

  open_with-failure :
      (f g : CryptError E) (a : l.Aead) (nonce ct : List ℕ) {k : List ℕ}
      → open_with l f a nonce ct ≡ ok k
      → open_with l g a nonce ct ≡ ok k
  unfolding open_with
  open_with-failure f g a nonce ct h = ground arith

  opens_unchecked :
      (f g : CryptError E) (made : Result E l.Aead) (nonce ct : List ℕ) {k : List ℕ}
      → (checked l made >>= λ a. open_with l f a nonce ct) ≡ ok k
      → (unchecked l made >>= λ a. open_with l g a nonce ct) ≡ ok k
  unfolding checked unchecked
  opens_unchecked f g (ok a) nonce ct h = open_with-failure f g a nonce ct h
  opens_unchecked f g (err e) nonce ct h = cc h

  chain_unchecked :
      (f g : CryptError E) (make : List ℕ → Result E l.Aead) (s n c : List ℕ × Option E)
      {k : List ℕ}
      → (do
        salt ← checked_bytes l s
        a ← checked l (make salt)
        nonce ← checked_bytes l n
        ct ← checked_bytes l c
        open_with l f a nonce ct)
        ≡ ok k
      → (unchecked l (make s.0) >>= λ a. open_with l g a n.0 c.0) ≡ ok k
  unfolding checked_bytes
  chain_unchecked f g make (salt, none) (nonce, none) (ct, none) h =
      opens_unchecked f g (make salt) nonce ct h
  chain_unchecked f g make (salt, some e) n c h = cc h
  chain_unchecked f g make (salt, none) (nonce, some e) c h = ground (arith, h)
  chain_unchecked f g make (salt, none) (nonce, none) (ct, some e) h = ground (arith, h)

  -- To ignore the errors changes nothing where there are none.
  pub password_key-unchecked :
      (f : CryptError E) (pw : String) (st : FileState) {k : List ℕ}
      → password_key l pw st ≡ ok k
      → password_key_unchecked l f pw st ≡ ok k
  unfolding password_key password_key_unchecked
  password_key-unchecked f pw st h =
      chain_unchecked invalid_password f (λ salt. l.new_gcm (derive_key l pw salt st.kdf))
        (l.decode st.salt) (l.decode st.nonce) (l.decode st.sdek) h

  supports :
      (r : Result (CryptError E) FileState) {st : FileState}
      → (r >>= supported l) ≡ ok st
      → (r ≡ ok st) × ((st.kdf.alg == "argon2id") ≡ true)
  unfolding supported
  supports (err e) h = cc h
  supports (ok st') {st} h = elim (Bool-cases (st'.kdf.alg == "argon2id")) [
    | inl e ↦
        let same = sym (if_true _ (ok st') _ e) ∙ h in
        (same, subst (λ (x : FileState). (x.kdf.alg == "argon2id") ≡ true) (ok_injective same) e)
    | inr e ↦ cc (sym (if_false _ (ok st') _ e) ∙ h)
  ]

  pub read_supported-ok :
      (w : W) {st : FileState}
      → read_supported l w ≡ ok st
      → (read_state l w ≡ ok st) × ((st.kdf.alg == "argon2id") ≡ true)
  unfolding read_supported
  read_supported-ok w {st} h = supports (read_state l w) h

  pub read_supported-true :
      (w : W) (st : FileState)
      → read_state l w ≡ ok st
      → (st.kdf.alg == "argon2id") ≡ true
      → read_supported l w ≡ ok st
  unfolding read_supported
  read_supported-true w st r h = rw r (if_true _ _ _ h)

  -- What a file that is written anew was made of.
  pub record Made (random_nonce : Result E (List ℕ)) (new : String) (st : FileState) (pt : List ℕ)
      (st' : FileState) : Type 0 where
    pub salt : List ℕ
    pub a : l.Aead
    pub nonce : List ℕ
    pub random : random_nonce ≡ ok nonce
    pub cipher : l.new_gcm (derive_key l new salt st.kdf) ≡ ok a
    pub result : st' ≡ resealed l st salt pt a nonce

  pub rewrapped-Made :
      {Q : Type 0} (random_salt random_nonce : Result E (List ℕ)) (old new : String) (w : W)
      {st' : FileState}
      → rewrapped l random_salt random_nonce old new w ≡ ok st'
      → ((st : FileState) (pt : List ℕ)
          → read_supported l w ≡ ok st
          → password_key_unchecked l invalid_old_password old st ≡ ok pt
          → Made random_nonce new st pt st'
          → Q)
      → Q
  unfolding rewrapped
  rewrapped-Made random_salt random_nonce old new w h q =
      >>=-elim (read_supported l w) _ h λ st h0 k0.
        >>=-elim (password_key_unchecked l invalid_old_password old st) _ k0 λ pt h1 k1.
          >>=-elim (checked l random_salt) _ k1 λ salt h2 k2.
            >>=-elim (unchecked l (l.new_gcm (derive_key l new salt st.kdf))) _ k2 λ a h3 k3.
              >>=-elim (checked l random_nonce) _ k3 λ nonce h4 k4. q st pt h0 h1 (record {
                salt = salt;
                a = a;
                nonce = nonce;
                random = checked-ok l _ h4;
                cipher = unchecked-ok l _ h3;
                result = sym (ok_injective k4);
              })

  pub rewrapped_unlocked-Made :
      {Q : Type 0} (random_salt random_nonce : Result E (List ℕ)) (new : String) (sdek : List ℕ)
      (w : W) {st' : FileState}
      → rewrapped_unlocked l random_salt random_nonce new sdek w ≡ ok st'
      → ((st : FileState) → read_supported l w ≡ ok st → Made random_nonce new st sdek st' → Q)
      → Q
  unfolding rewrapped_unlocked
  rewrapped_unlocked-Made random_salt random_nonce new sdek w h q =
      >>=-elim (read_supported l w) _ h λ st h0 k0.
        >>=-elim (checked l random_salt) _ k0 λ salt h2 k2.
          >>=-elim (checked l (l.new_gcm (derive_key l new salt st.kdf))) _ k2 λ a h3 k3.
            >>=-elim (checked l random_nonce) _ k3 λ nonce h4 k4. q st h0 (record {
              salt = salt;
              a = a;
              nonce = nonce;
              random = checked-ok l _ h4;
              cipher = checked-ok l _ h3;
              result = sym (ok_injective k4);
            })
