-- ===== src/Crypt/Worded.antt =====
-- internal/crypt/manager.go: what a file with a new recovery key was made of.
use piccolod.Common.{
  ℕ, ok_injective, ◌≡◌, refl, sym, ap, ◌∙◌, String, Bool, true, false, not, ◌&&◌, Option, none,
  some, List, length, nat_eq, Result, ok, err, ◌>>=◌, >>=-elim, if_true, if_false, if◌then◌else◌,
  Bool-cases, inl, inr, Eq-string, ◌==◌,
}
use piccolod.Crypt.Platform.{
  FileState, Platform, CryptError, checked, unchecked, derive_key, read_state, read_supported,
  supported, open_with, password_key, password_key_unchecked, saved, invalid_password,
  recovery_key_set, unlock_required, invalid_recovery_key,
}
use piccolod.Crypt.Mnemonic.{words_of, mnemonic}
use piccolod.Crypt.Manager.{unlock_key}
use piccolod.Crypt.Recovery.{
  is_set, free_state, with_recovery, worded, recovery_saved, recovery_state,
  recovery_state_with_password, recovered,
}
use piccolod.Crypt.Sealing.{checked-ok, unchecked-ok}

-- A guard of a chain that did not refuse.
pub unrefused :
    {E A : Type 0} (b : Bool) (e : E) (x : Result E A) {a : A}
    → (if b then err e else x) ≡ ok a
    → (b ≡ false) × (x ≡ ok a)
unrefused true e x h = cc h
unrefused false e x h = (refl, h)

module _ (l : Platform) where
  open l use {W, E}

  -- What a file with a new recovery key was made of.
  pub record Worded (random_words random_nonce : Result E (List ℕ)) (st : FileState) (pt : List ℕ)
      (words : List String) (st' : FileState) : Type 0 where
    pub bytes : List ℕ
    pub drawn : random_words ≡ ok bytes
    pub spelled : words ≡ words_of bytes
    pub salt : List ℕ
    pub a : l.Aead
    pub nonce : List ℕ
    pub random : random_nonce ≡ ok nonce
    pub cipher : l.new_gcm (derive_key l (mnemonic (words_of bytes)) salt st.kdf) ≡ ok a
    pub result : st' ≡ with_recovery l st salt pt a nonce

  pub free_state-ok :
      (force : Bool) (w : W) {st : FileState}
      → free_state l force w ≡ ok st
      → read_state l w ≡ ok st
  unfolding free_state
  free_state-ok force w h =
      >>=-elim (read_state l w) _ h
        λ st0 r k. r ∙ (unrefused (is_set st0.sdek_rk && not force) recovery_key_set (ok st0) k).1

  pub recovery_state-Worded :
      {Q : Type 0} (random_words random_salt random_nonce : Result E (List ℕ)) (sdek : List ℕ)
      (force : Bool) (w : W) {words : List String} {st' : FileState}
      → recovery_state l random_words random_salt random_nonce sdek force w ≡ ok (words, st')
      → ((st : FileState)
          → read_state l w ≡ ok st
          → Worded random_words random_nonce st sdek words st'
          → Q)
      → Q
  unfolding recovery_state
  recovery_state-Worded random_words random_salt random_nonce sdek force w h q =
      >>=-elim (free_state l force w) _ h λ st h0 k0.
        >>=-elim (if nat_eq (length sdek) 0 then err unlock_required else ok tt) _ k0 λ _ h1 k1.
          >>=-elim (checked l random_words) _ k1 λ bytes h2 k2.
            >>=-elim (checked l random_salt) _ k2 λ salt h3 k3.
              >>=-elim
                (unchecked l (l.new_gcm (derive_key l (mnemonic (words_of bytes)) salt st.kdf))) _
                k3
                λ a h4 k4. >>=-elim (checked l random_nonce) _ k4 λ nonce h5 k5.
                  let same = ok_injective k5 in
                  q st (free_state-ok force w h0) (record {
                    bytes = bytes;
                    drawn = checked-ok l _ h2;
                    spelled = sym (ap (λ (p : List String × FileState). p.0) same);
                    salt = salt;
                    a = a;
                    nonce = nonce;
                    random = checked-ok l _ h5;
                    cipher = unchecked-ok l _ h4;
                    result = sym (ap (λ (p : List String × FileState). p.1) same);
                  })

  pub recovery_state_with_password-Worded :
      {Q : Type 0} (random_words : Result E (List ℕ)) (salt nonce : List ℕ) (password : String)
      (force : Bool) (w : W) {words : List String} {st' : FileState}
      → recovery_state_with_password l random_words salt nonce password force w ≡ ok (words, st')
      → ((st : FileState) (pt : List ℕ)
          → read_state l w ≡ ok st
          → password_key_unchecked l invalid_password password st ≡ ok pt
          → Worded random_words (ok nonce) st pt words st'
          → Q)
      → Q
  unfolding recovery_state_with_password
  recovery_state_with_password-Worded random_words salt nonce password force w h q =
      >>=-elim (free_state l force w) _ h λ st h0 k0.
        >>=-elim (password_key_unchecked l invalid_password password st) _ k0 λ pt h1 k1.
          >>=-elim (checked l random_words) _ k1 λ bytes h2 k2.
            >>=-elim
              (unchecked l (l.new_gcm (derive_key l (mnemonic (words_of bytes)) salt st.kdf))) _ k2
              λ a h4 k4.
                let same = ok_injective k4 in
                q st pt (free_state-ok force w h0) h1 (record {
                  bytes = bytes;
                  drawn = checked-ok l _ h2;
                  spelled = sym (ap (λ (p : List String × FileState). p.0) same);
                  salt = salt;
                  a = a;
                  nonce = nonce;
                  random = refl;
                  cipher = unchecked-ok l _ h4;
                  result = sym (ap (λ (p : List String × FileState). p.1) same);
                })

  pub recovered_lem :
      (words : List String) (st : FileState) (a : l.Aead)
      → is_set st.sdek_rk ≡ true
      → unchecked l (l.new_gcm (derive_key l (mnemonic words) (l.decode st.rk_salt).0 st.kdf))
        ≡ ok a
      → recovered l words st
        ≡ open_with l invalid_recovery_key a (l.decode st.rk_nonce).0 (l.decode st.sdek_rk).0
  unfolding recovered
  recovered_lem words st a s c = rw (s, c) refl

  pub worded-ok :
      (words0 : List String) (r : Option (CryptError E) × W) {words : List String} {w' : W}
      → worded l words0 r ≡ (ok words, w')
      → (words0 ≡ words) × (r ≡ (none, w'))
  unfolding worded
  worded-ok words0 (some e, w) h = cc (ap (λ (p : Result (CryptError E) (List String) × W). p.0) h)
  worded-ok words0 (none, w) h = (
    ok_injective (ap (λ (p : Result (CryptError E) (List String) × W). p.0) h),
    ap (λ (p : Result (CryptError E) (List String) × W). (none, p.1)) h,
  )

  pub recovery_saved-ok :
      (r : Result (CryptError E) (List String × FileState)) (w : W) {words : List String} {w' : W}
      → recovery_saved l r w ≡ (ok words, w')
      → (st : FileState) × (r ≡ ok (words, st)) × (saved l st w ≡ (none, w'))
  unfolding recovery_saved
  recovery_saved-ok (err e) w h = cc (ap (λ (p : Result (CryptError E) (List String) × W). p.0) h)
  recovery_saved-ok (ok (words0, st)) w h =
      let (p, q) = worded-ok words0 (saved l st w) h in (st, ap (λ x. ok (x, st)) p, q)

  -- A guard that did not refuse.
  pub passes :
      (b : Bool) (e : CryptError E) (w : W) (x : Result (CryptError E) (List String) × W)
      {words : List String} {w' : W}
      → (if b then (err e, w) else x) ≡ (ok words, w')
      → x ≡ (ok words, w')
  passes true e w x h = cc (ap (λ (p : Result (CryptError E) (List String) × W). p.0) h)
  passes false e w x h = h

  pub unlock_key-read :
      (pw : String) (w : W) {st : FileState}
      → read_state l w ≡ ok st
      → unlock_key l pw w ≡ (supported l st >>= password_key l pw)
  unfolding unlock_key read_supported
  unlock_key-read pw w r = ap (λ x. (x >>= supported l) >>= password_key l pw) r

  pub supported-same : (st : FileState) {st' : FileState} → supported l st ≡ ok st' → st' ≡ st
  unfolding supported
  supported-same st h = elim (Bool-cases (st.kdf.alg == "argon2id")) [
    | inl e ↦ ok_injective (sym h ∙ if_true _ (ok st) _ e)
    | inr e ↦ cc (sym (if_false _ (ok st) _ e) ∙ h)
  ]

  pub supported-with_recovery :
      (pw : String) (st : FileState) (salt pt : List ℕ) (a : l.Aead) (nonce : List ℕ)
      → (supported l (with_recovery l st salt pt a nonce) >>= password_key l pw)
        ≡ (supported l st >>= password_key l pw)
  unfolding supported password_key with_recovery
  supported-with_recovery pw st salt pt a nonce = elim (Bool-cases (st.kdf.alg == "argon2id")) [
    | inl e ↦ rw e refl
    | inr e ↦ rw e refl
  ]

  -- The key under the password is read from parts of the file that a recovery key leaves as they are.
  pub unlock_key-with_recovery :
      (pw : String) (w w' : W) (st : FileState) (salt pt : List ℕ) (a : l.Aead) (nonce : List ℕ)
      → read_state l w ≡ ok st
      → read_state l w' ≡ ok (with_recovery l st salt pt a nonce)
      → unlock_key l pw w' ≡ unlock_key l pw w
  unlock_key-with_recovery pw w w' st salt pt a nonce r r' =
      unlock_key-read pw w' r'
      ∙ supported-with_recovery pw st salt pt a nonce
      ∙ sym (unlock_key-read pw w r)
