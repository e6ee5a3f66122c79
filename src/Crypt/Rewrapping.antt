-- ===== src/Crypt/Rewrapping.antt =====
-- internal/crypt/manager.go: Rewrap and RewrapUnlocked keep one key, and the recovery key.
use piccolod.Common.{
  ℕ, ok_injective, ◌≡◌, sym, ap, ◌∙◌, subst, String, false, none, List, length, nat_eq, Result, ok,
  ◌>>=◌, >>=-elim, Eq-string, ◌==◌, ◌||◌, not,
}
use piccolod.Crypt.Platform.{
  FileState, Platform, read_state, read_supported, password_key_unchecked, invalid_old_password,
  password_required, not_initialized, locked,
}
use piccolod.Crypt.Manager.{
  Manager, resealed, rewrapped, rewrapped_unlocked, unlock_key, rewrap, rewrap_unlocked,
}
use piccolod.Crypt.Laws.{IsLawful, Fills}
use piccolod.Crypt.Sealing.{saved_from-none, password_key-resealed}
use piccolod.Crypt.Recovery.{recovered, recovery_key}
use piccolod.Crypt.Made.{
  Made, passes, read_supported-ok, read_supported-true, password_key-unchecked, rewrapped-Made,
  rewrapped_unlocked-Made,
}

module _ (l : Platform) (laws : IsLawful l) where
  open l use {W, E}

  -- On the disk `w'` the password opens `k`, and every recovery key opens what it opened on `w`.
  abbrev pub Rewraps : List ℕ → String → W → W → Type 0
  Rewraps k new w w' =
      (unlock_key l new w' ≡ ok k)
      × ((words : List String) → recovery_key l words w' ≡ recovery_key l words w)

  recovery_key-resealed :
      (words : List String) (w w' : W) (st : FileState) (salt pt : List ℕ) (a : l.Aead)
      (nonce : List ℕ)
      → read_state l w ≡ ok st
      → read_state l w' ≡ ok (resealed l st salt pt a nonce)
      → recovery_key l words w' ≡ recovery_key l words w
  unfolding recovery_key recovered resealed
  recovery_key-resealed words w w' st salt pt a nonce r r' =
      ap (λ x. x >>= recovered l words) r' ∙ ap (λ x. x >>= recovered l words) (sym r)

  Made-opens :
      (random_nonce : Result E (List ℕ)) (new : String) (w w' : W) (st st' : FileState)
      (pt : List ℕ)
      → Fills 12 random_nonce
      → read_supported l w ≡ ok st
      → Made l random_nonce new st pt st'
      → read_state l w' ≡ ok st'
      → Rewraps pt new w w'
  unfolding unlock_key resealed
  Made-opens random_nonce new w w' st st' pt fills r m r' =
      let size : length m.nonce ≡ 12 = subst (Fills 12) m.random fills in
      let same : read_state l w' ≡ ok (resealed l st m.salt pt m.a m.nonce) = r' ∙ ap ok m.result in
      let (read, is_supported) = read_supported-ok l w r in
      (
        rw (read_supported-true l w' _ same is_supported)
            (password_key-resealed l laws new st m.salt pt m.a m.nonce m.cipher size),
        λ words. recovery_key-resealed words w w' st m.salt pt m.a m.nonce read same,
      )

  same_key :
      (old : String) (w : W) (st : FileState) (pt k : List ℕ)
      → unlock_key l old w ≡ ok k
      → read_supported l w ≡ ok st
      → password_key_unchecked l invalid_old_password old st ≡ ok pt
      → pt ≡ k
  unfolding unlock_key
  same_key old w st pt k u r p = >>=-elim (read_supported l w) _ u λ st2 r2 u2. ok_injective (
      sym p
      ∙ subst (λ x. password_key_unchecked l invalid_old_password old x ≡ ok k)
          (ok_injective (sym r2 ∙ r)) (password_key-unchecked l invalid_old_password old st2 u2))

  -- A changed password opens the key that the old one opened, and a recovery key stays as it was.
  pub rewrap-Rewraps :
      (random_salt random_nonce : Result E (List ℕ)) (old new : String) (m : Manager) (w w' : W)
      (k : List ℕ)
      → Fills 12 random_nonce
      → unlock_key l old w ≡ ok k
      → rewrap l random_salt random_nonce old new m w ≡ (none, w')
      → Rewraps k new w w'
  unfolding rewrap
  rewrap-Rewraps random_salt random_nonce old new m w w' k fills u h =
      let (_, h1) = passes (old == "" || new == "") password_required w _ h in
      let (_, h2) = passes (not m.inited) not_initialized w _ h1 in
      let (st', h3, r') =
        saved_from-none l laws (rewrapped l random_salt random_nonce old new w) w h2 in
      rewrapped-Made l random_salt random_nonce old new w h3 λ st pt r p made.
        subst (λ x. Rewraps x new w w') (same_key old w st pt k u r p)
          (Made-opens random_nonce new w w' st st' pt fills r made r')

  -- A password that is set without the old one opens the key of the unlocked manager, and a recovery
  -- key stays as it was.
  pub rewrap_unlocked-Rewraps :
      (random_salt random_nonce : Result E (List ℕ)) (new : String) (m : Manager) (w w' : W)
      → Fills 12 random_nonce
      → rewrap_unlocked l random_salt random_nonce new m w ≡ (none, w')
      → Rewraps m.sdek new w w'
  unfolding rewrap_unlocked
  rewrap_unlocked-Rewraps random_salt random_nonce new m w w' fills h =
      let (_, h1) = passes (new == "") password_required w _ h in
      let (_, h2) = passes (not m.inited) not_initialized w _ h1 in
      let (_, h3) = passes (nat_eq (length m.sdek) 0) locked w _ h2 in
      let (st', h4, r') =
        saved_from-none l laws (rewrapped_unlocked l random_salt random_nonce new m.sdek w) w h3 in
      rewrapped_unlocked-Made l random_salt random_nonce new m.sdek w h4
        λ st r made. Made-opens random_nonce new w w' st st' m.sdek fills r made r'

  -- Without a key in memory there is no change without the old password.
  pub rewrap_unlocked-key :
      (random_salt random_nonce : Result E (List ℕ)) (new : String) (m : Manager) (w : W) {w' : W}
      → rewrap_unlocked l random_salt random_nonce new m w ≡ (none, w')
      → nat_eq (length m.sdek) 0 ≡ false
  unfolding rewrap_unlocked
  rewrap_unlocked-key random_salt random_nonce new m w h =
      let (_, h1) = passes (new == "") password_required w _ h in
      let (_, h2) = passes (not m.inited) not_initialized w _ h1 in
      (passes (nat_eq (length m.sdek) 0) locked w _ h2).0
