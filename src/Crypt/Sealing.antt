-- ===== src/Crypt/Sealing.antt =====
-- internal/crypt/manager.go: what is sealed is opened again.
use piccolod.Common.{
  ℕ, ◌≡◌, refl, ap, ◌∙◌, String, Option, none, some, List, length, Result, ok, err, ◌>>=◌, arith,
}
use piccolod.Crypt.Platform.{
  FileState, Platform, CryptError, checked, unchecked, checked_bytes, derive_key, open_with,
  read_state, password_key, saved, write_error, invalid_password,
}
use piccolod.Crypt.Manager.{saved_from, resealed}
use piccolod.Crypt.Laws.{IsLawful}

module _ (l : Platform) where
  open l use {W, E}

  pub checked-ok : {A : Type 0} (r : Result E A) {a : A} → checked l r ≡ ok a → r ≡ ok a
  unfolding checked
  checked-ok (ok a) h = cc h
  checked-ok (err e) h = cc h

  pub unchecked-ok : (r : Result E l.Aead) {a : l.Aead} → unchecked l r ≡ ok a → r ≡ ok a
  unfolding unchecked
  unchecked-ok (ok a) h = cc h
  unchecked-ok (err e) h = cc h

module _ (l : Platform) (laws : IsLawful l) where
  open l use {W, E}

  pub open_with-seal :
      (failure : CryptError E) (a : l.Aead) (nonce pt : List ℕ)
      → length nonce ≡ 12
      → open_with l failure a nonce (l.seal a nonce pt) ≡ ok pt
  unfolding open_with
  open_with-seal failure a nonce pt size = ground (arith, laws.sizes a, laws.aead a nonce pt)

  written : (r : Option E × W) {w' : W} → write_error l r ≡ (none, w') → r ≡ (none, w')
  unfolding write_error
  written (none, w) {w'} h = ap (λ (p : Option (CryptError E) × W). (none, p.1)) h
  written (some e, w) h = cc (ap (λ (p : Option (CryptError E) × W). p.0) h)

  pub read_state-saved :
      (st : FileState) (w : W) {w' : W} → saved l st w ≡ (none, w') → read_state l w' ≡ ok st
  unfolding saved read_state checked
  read_state-saved st w {w'} h =
      rw (laws.file (l.marshal st) w w' (written _ h), ◌>>=◌, laws.json st) refl

  pub saved_from-none :
      (r : Result (CryptError E) FileState) (w : W) {w' : W}
      → saved_from l r w ≡ (none, w')
      → (st : FileState) × (r ≡ ok st) × (read_state l w' ≡ ok st)
  unfolding saved_from
  saved_from-none (err e) w h = cc (ap (λ (p : Option (CryptError E) × W). p.0) h)
  saved_from-none (ok st) w h = (st, refl, read_state-saved st w h)

  pub password_key_lem :
      (pw : String) (st : FileState) (salt nonce ct : List ℕ) (a : l.Aead)
      → checked_bytes l (l.decode st.salt) ≡ ok salt
      → checked l (l.new_gcm (derive_key l pw salt st.kdf)) ≡ ok a
      → checked_bytes l (l.decode st.nonce) ≡ ok nonce
      → checked_bytes l (l.decode st.sdek) ≡ ok ct
      → password_key l pw st ≡ open_with l invalid_password a nonce ct
  unfolding password_key
  password_key_lem pw st salt nonce ct a s c n d = rw (s, c, n, d) refl

  decoded : (b : List ℕ) → checked_bytes l (l.decode (l.encode b)) ≡ ok b
  unfolding checked_bytes
  decoded b = rw (laws.base64 b) refl

  pub password_key-resealed :
      (pw : String) (st : FileState) (salt sdek : List ℕ) (a : l.Aead) (nonce : List ℕ)
      → l.new_gcm (derive_key l pw salt st.kdf) ≡ ok a
      → length nonce ≡ 12
      → password_key l pw (resealed l st salt sdek a nonce) ≡ ok sdek
  unfolding resealed checked
  password_key-resealed pw st salt sdek a nonce c size =
      password_key_lem pw (resealed l st salt sdek a nonce) salt nonce (l.seal a nonce sdek) a
        (decoded salt) (ap (checked l) c) (decoded nonce) (decoded _)
      ∙ open_with-seal invalid_password a nonce sdek size
