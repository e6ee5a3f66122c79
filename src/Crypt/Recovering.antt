-- ===== src/Crypt/Recovering.antt =====
-- internal/crypt/manager.go: a recovery key opens the key that it was made for, and neither it nor a
-- change of the password disturbs the other.
use piccolod.Common.{
  ℕ, ok_injective, ◌≡◌, sym, ap, ◌∙◌, subst, String, Bool, true, false, not, Option, none, List,
  length, nat_eq, Result, ok, err, ◌>>=◌, >>=-elim, if◌then◌else◌, Eq-string, ◌==◌,
}
use piccolod.Crypt.Platform.{
  FileState, Platform, unchecked, derive_key, read_state, supported, open_with,
  password_key_unchecked, saved, password_required, not_initialized, invalid_password,
  unlock_required, invalid_recovery_key,
}
use piccolod.Crypt.Mnemonic.{mnemonic}
use piccolod.Crypt.Manager.{Manager, unlock_key}
use piccolod.Crypt.Recovery.{
  is_set, free_state, with_recovery, recovery_state, recovery_state_with_password,
  generate_recovery_key, generate_recovery_key_with_password, recovered, recovery_key,
  has_recovery_key, holds_recovery,
}
use piccolod.Crypt.Laws.{IsLawful, Fills}
use piccolod.Crypt.Sealing.{read_state-saved, open_with-seal}
use piccolod.Crypt.Made.{password_key-unchecked}
use piccolod.Crypt.Worded.{
  unrefused, Worded, recovery_state-Worded, recovery_state_with_password-Worded, recovered_lem,
  recovery_saved-ok, passes, unlock_key-read, supported-same, unlock_key-with_recovery,
}

module _ (l : Platform) (laws : IsLawful l) where
  open l use {W, E}

  recovered-with_recovery :
      (words : List String) (st : FileState) (salt pt : List ℕ) (a : l.Aead) (nonce : List ℕ)
      → l.new_gcm (derive_key l (mnemonic words) salt st.kdf) ≡ ok a
      → length nonce ≡ 12
      → recovered l words (with_recovery l st salt pt a nonce) ≡ ok pt
  unfolding with_recovery unchecked
  recovered-with_recovery words st salt pt a nonce c size =
      recovered_lem l words (with_recovery l st salt pt a nonce) a (laws.sealed a nonce pt) (
        ap (unchecked l) (
          ap (λ (d : List ℕ × Option E). l.new_gcm (derive_key l (mnemonic words) d.0 st.kdf))
            (laws.base64 salt)
          ∙ c))
      ∙ ap
          (λ (d : List ℕ × Option E).
            open_with l invalid_recovery_key a d.0 (l.decode (l.encode (l.seal a nonce pt))).0)
          (laws.base64 nonce)
      ∙ ap (λ (d : List ℕ × Option E). open_with l invalid_recovery_key a nonce d.0) (laws.base64 _)
      ∙ open_with-seal l laws invalid_recovery_key a nonce pt size

  -- What holds of a disk after a recovery key for `k` was made.
  abbrev pub Recovers : List ℕ → List String → W → W → Type 0
  Recovers k words w w' =
      (recovery_key l words w' ≡ ok k)
      × (has_recovery_key l w' ≡ true)
      × ((pw : String) → unlock_key l pw w' ≡ unlock_key l pw w)

  Worded-Recovers :
      (random_words random_nonce : Result E (List ℕ)) (w w' : W) (st st' : FileState) (pt : List ℕ)
      (words : List String)
      → Fills 12 random_nonce
      → read_state l w ≡ ok st
      → Worded l random_words random_nonce st pt words st'
      → saved l st' w ≡ (none, w')
      → Recovers pt words w w'
  unfolding recovery_key has_recovery_key is_set with_recovery
  Worded-Recovers random_words random_nonce w w' st st' pt words fills r m s =
      let size : length m.nonce ≡ 12 = subst (Fills 12) m.random fills in
      let r' : read_state l w' ≡ ok (with_recovery l st m.salt pt m.a m.nonce) =
        read_state-saved l laws st' w s ∙ ap ok m.result in
      (
        ap (λ x. x >>= recovered l words) r'
            ∙ recovered-with_recovery words st m.salt pt m.a m.nonce
                (ap (λ x. l.new_gcm (derive_key l (mnemonic x) m.salt st.kdf)) m.spelled ∙ m.cipher)
                size,
        ap (holds_recovery l) r' ∙ laws.sealed m.a m.nonce pt,
        λ pw. unlock_key-with_recovery l pw w w' st m.salt pt m.a m.nonce r r',
      )

  -- The words that are given open the key of the unlocked manager, and every password opens what it
  -- opened before, where the library calls obey their laws and the random bytes of the nonce fill its
  -- buffer.
  pub generate_recovery_key-Recovers :
      (random_words random_salt random_nonce : Result E (List ℕ)) (force : Bool) (m : Manager)
      (w w' : W) (words : List String)
      → Fills 12 random_nonce
      → generate_recovery_key l random_words random_salt random_nonce force m w ≡ (ok words, w')
      → Recovers m.sdek words w w'
  unfolding generate_recovery_key
  generate_recovery_key-Recovers random_words random_salt random_nonce force m w w' words fills h =
      let h1 = passes l (not m.inited) not_initialized w _ h in
      let (st', h2, s) =
        recovery_saved-ok l (recovery_state l random_words random_salt random_nonce m.sdek force w)
          w h1 in
      recovery_state-Worded l random_words random_salt random_nonce m.sdek force w h2 λ st r made.
        Worded-Recovers random_words random_nonce w w' st st' m.sdek words fills r made s

  same_key :
      (pw : String) (w : W) (st : FileState) (pt k : List ℕ)
      → unlock_key l pw w ≡ ok k
      → read_state l w ≡ ok st
      → password_key_unchecked l invalid_password pw st ≡ ok pt
      → pt ≡ k
  same_key pw w st pt k u r p =
      >>=-elim (supported l st) _ (sym (unlock_key-read l pw w r) ∙ u) λ st2 s u2. ok_injective (
        sym p
        ∙ subst (λ x. password_key_unchecked l invalid_password pw x ≡ ok k) (supported-same l st s)
            (password_key-unchecked l invalid_password pw st2 u2))

  -- So do the words that are given to who has the password that opens `k`.
  pub generate_recovery_key_with_password-Recovers :
      (random_words : Result E (List ℕ)) (salt nonce : List ℕ) (password : String) (force : Bool)
      (m : Manager) (w w' : W) (words : List String) (k : List ℕ)
      → length nonce ≡ 12
      → unlock_key l password w ≡ ok k
      → generate_recovery_key_with_password l random_words salt nonce password force m w
        ≡ (ok words, w')
      → Recovers k words w w'
  unfolding generate_recovery_key_with_password
  generate_recovery_key_with_password-Recovers random_words salt nonce password force m w w' words k
        size u h =
      let h1 = passes l (password == "") password_required w _ h in
      let h2 = passes l (not m.inited) not_initialized w _ h1 in
      let (st', h3, s) =
        recovery_saved-ok l
          (recovery_state_with_password l random_words salt nonce password force w) w h2 in
      recovery_state_with_password-Worded l random_words salt nonce password force w h3
        λ st pt r p made.
          subst (λ x. Recovers x words w w') (same_key password w st pt k u r p)
            (Worded-Recovers random_words (ok nonce) w w' st st' pt words size r made s)

  -- Without a key in memory there is no recovery key without the password.
  pub generate_recovery_key-key :
      (random_words random_salt random_nonce : Result E (List ℕ)) (force : Bool) (m : Manager)
      (w : W) {w' : W} {words : List String}
      → generate_recovery_key l random_words random_salt random_nonce force m w ≡ (ok words, w')
      → nat_eq (length m.sdek) 0 ≡ false
  unfolding generate_recovery_key recovery_state
  generate_recovery_key-key random_words random_salt random_nonce force m w h =
      let h1 = passes l (not m.inited) not_initialized w _ h in
      let (_, h2, _) =
        recovery_saved-ok l (recovery_state l random_words random_salt random_nonce m.sdek force w)
          w h1 in
      >>=-elim (free_state l force w) _ h2 λ st h3 k3.
        >>=-elim (if nat_eq (length m.sdek) 0 then err unlock_required else ok tt) _ k3
          λ _ h4 k4. (unrefused (nat_eq (length m.sdek) 0) unlock_required (ok tt) h4).0
