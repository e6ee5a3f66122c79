-- ===== src/Crypt/Recovery.antt =====
-- internal/crypt/manager.go: the key under a recovery key of 24 words. Random bytes are arguments.
use piccolod.Common.{
  ℕ, String, Bool, true, false, not, ◌&&◌, Option, none, some, List, [], ◌∷◌, length, nat_eq,
  Result, ok, err, ◌>>=◌, ◌>>◌, Eq-string, ◌==◌, if◌then◌else◌,
}
use piccolod.Crypt.Platform.{
  FileState, Platform, CryptError, password_required, not_initialized, invalid_password,
  recovery_key_set, unlock_required, recovery_key_required, recovery_key_not_set,
  invalid_recovery_key, checked, unchecked, derive_key, read_state, password_key_unchecked,
  open_with, saved,
}
use piccolod.Crypt.Mnemonic.{words_of, mnemonic}
use piccolod.Crypt.Manager.{Manager, keep_key}

-- The text is not empty.
unfoldable pub is_set : List ℕ → Bool
is_set [] = false
is_set (c ∷ text) = true

module _ (l : Platform) where
  open l use {W, E}

  -- The file of a keyset in which a recovery key may be set.
  unfoldable pub free_state : Bool → W → Result (CryptError E) FileState
  free_state force w = do
    st ← read_state l w
    if is_set st.sdek_rk && not force then err recovery_key_set else ok st

  unfoldable pub with_recovery : FileState → List ℕ → List ℕ → l.Aead → List ℕ → FileState
  with_recovery st salt sdek a nonce = record st {
    rk_salt = l.encode salt;
    rk_nonce = l.encode nonce;
    sdek_rk = l.encode (l.seal a nonce sdek);
  }

  -- The words are given only if the file has been written.
  unfoldable pub worded :
      List String → Option (CryptError E) × W → Result (CryptError E) (List String) × W
  worded words (none, w) = (ok words, w)
  worded words (some e, w) = (err e, w)

  unfoldable pub recovery_saved :
      Result (CryptError E) (List String × FileState) → W → Result (CryptError E) (List String) × W
  unfolding worded
  recovery_saved (err e) w = (err e, w)
  recovery_saved (ok (words, st)) w = worded words (saved l st w)

  unfoldable pub recovery_state :
      Result E (List ℕ)
      → Result E (List ℕ)
      → Result E (List ℕ)
      → List ℕ
      → Bool
      → W
      → Result (CryptError E) (List String × FileState)
  unfolding with_recovery free_state
  recovery_state random_words random_salt random_nonce sdek force w = do
    st ← free_state force w
    if nat_eq (length sdek) 0 then err unlock_required else ok tt
    bytes ← checked l random_words
    salt ← checked l random_salt
    a ← unchecked l (l.new_gcm (derive_key l (mnemonic (words_of bytes)) salt st.kdf))
    nonce ← checked l random_nonce
    ok (words_of bytes, with_recovery st salt sdek a nonce)

  unfoldable pub generate_recovery_key :
      Result E (List ℕ)
      → Result E (List ℕ)
      → Result E (List ℕ)
      → Bool
      → Manager
      → W
      → Result (CryptError E) (List String) × W
  unfolding recovery_state recovery_saved
  generate_recovery_key random_words random_salt random_nonce force m w =
      if not m.inited
      then (err not_initialized, w)
      else recovery_saved (recovery_state random_words random_salt random_nonce m.sdek force w) w

  -- Here the outcome of reading the salt and the nonce is ignored: the bytes are what is in the buffer.
  unfoldable pub recovery_state_with_password :
      Result E (List ℕ)
      → List ℕ
      → List ℕ
      → String
      → Bool
      → W
      → Result (CryptError E) (List String × FileState)
  unfolding with_recovery free_state
  recovery_state_with_password random_words salt nonce password force w = do
    st ← free_state force w
    pt ← password_key_unchecked l invalid_password password st
    bytes ← checked l random_words
    a ← unchecked l (l.new_gcm (derive_key l (mnemonic (words_of bytes)) salt st.kdf))
    ok (words_of bytes, with_recovery st salt pt a nonce)

  unfoldable pub generate_recovery_key_with_password :
      Result E (List ℕ)
      → List ℕ
      → List ℕ
      → String
      → Bool
      → Manager
      → W
      → Result (CryptError E) (List String) × W
  unfolding recovery_state_with_password recovery_saved
  generate_recovery_key_with_password random_words salt nonce password force m w =
      if password == ""
      then (err password_required, w)
      else if not m.inited
      then (err not_initialized, w)
      else recovery_saved (recovery_state_with_password random_words salt nonce password force w) w

  pub holds_recovery : Result (CryptError E) FileState → Bool
  holds_recovery (err e) = false
  holds_recovery (ok st) = is_set st.sdek_rk

  unfoldable pub has_recovery_key : W → Bool
  unfolding holds_recovery
  has_recovery_key w = holds_recovery (read_state l w)

  unfoldable pub recovered : List String → FileState → Result (CryptError E) (List ℕ)
  recovered words st = do
    if not (is_set st.sdek_rk) then err recovery_key_not_set else ok tt
    a ← unchecked l (l.new_gcm (derive_key l (mnemonic words) (l.decode st.rk_salt).0 st.kdf))
    open_with l invalid_recovery_key a (l.decode st.rk_nonce).0 (l.decode st.sdek_rk).0

  unfoldable pub recovery_key : List String → W → Result (CryptError E) (List ℕ)
  recovery_key words w = do st ← read_state l w; recovered words st

  unfoldable pub unlock_with_recovery_key :
      List String → Manager → W → Option (CryptError E) × Manager
  unfolding recovery_key keep_key
  unlock_with_recovery_key words m w =
      if nat_eq (length words) 0
      then (some recovery_key_required, m)
      else if not m.inited
      then (some not_initialized, m)
      else keep_key l m (recovery_key words w)
