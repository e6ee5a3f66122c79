-- ===== src/Crypt/Platform.antt =====
-- internal/crypt/manager.go: the keyset file, the errors, and how a wrapped key is opened and sealed.
-- The record Platform stands for what the manager calls: the file and encoding/json, base64,
-- argon2.IDKey, and AES-GCM.
use piccolod.Common.{
  ℕ, ◌-◌, String, Option, none, some, List, length, nat_eq, leb, ltb, Result, ok, err, ◌>>=◌,
  Eq-string, ◌==◌, if◌then◌else◌,
}

pub record KdfParams : Type 0 where
  pub alg : String
  pub time : ℕ
  pub memory : ℕ
  pub threads : ℕ

-- The texts are base64; an empty text is a part that is not there.
pub record FileState : Type 0 where
  pub sdek : List ℕ
  pub salt : List ℕ
  pub nonce : List ℕ
  pub kdf : KdfParams
  pub rk_salt : List ℕ
  pub rk_nonce : List ℕ
  pub sdek_rk : List ℕ

-- `W` is the state of the disk, `File` the contents of a file, `E` the errors of the system. A
-- decoding gives what it could read, also with an error.
pub record Platform : Type 1 where
  pub W : Type 0
  pub File : Type 0
  pub Aead : Type 0
  pub E : Type 0
  pub stat : W → Option E
  pub read_file : W → Result E File
  pub write_file : File → W → Option E × W
  pub marshal : FileState → File
  pub unmarshal : File → Result E FileState
  pub encode : List ℕ → List ℕ
  pub decode : List ℕ → List ℕ × Option E
  pub id_key : String → List ℕ → ℕ → ℕ → ℕ → ℕ → List ℕ
  pub new_gcm : List ℕ → Result E Aead
  pub nonce_size : Aead → ℕ
  pub seal : Aead → List ℕ → List ℕ → List ℕ
  pub open_sealed : Aead → List ℕ → List ℕ → Option (List ℕ)
  pub num_cpu : ℕ

-- `not_set_up` is ErrNotInitialized and `locked` is ErrLocked; `panicked` is no error of Go but a
-- panic of the cipher.
pub data CryptError (E : Type 0) : Type 0 where
  system : E → CryptError E
  unsupported_kdf : String → CryptError E
  password_required already_initialized not_initialized not_set_up locked : CryptError E
  invalid_password invalid_old_password recovery_key_set unlock_required : CryptError E
  recovery_key_required recovery_key_not_set invalid_recovery_key : CryptError E
  callback_required panicked : CryptError E

unfoldable pub select_crypto_parallelism : ℕ → ℕ
select_crypto_parallelism cores =
    if leb cores 1
    then 1
    else if ltb (cores - 1) 1
    then 1
    else if ltb 8 (cores - 1)
    then 8
    else cores - 1

module _ (l : Platform) where
  open l use {W, File, Aead, E}

  -- if err != nil { return err }
  unfoldable pub checked : {A : Type 0} → Result E A → Result (CryptError E) A
  checked (ok a) = ok a
  checked (err e) = err (system e)

  unfoldable pub checked_bytes : List ℕ × Option E → Result (CryptError E) (List ℕ)
  checked_bytes (b, none) = ok b
  checked_bytes (b, some e) = err (system e)

  -- Where the error of the cipher is ignored, the next call is on nil.
  unfoldable pub unchecked : Result E Aead → Result (CryptError E) Aead
  unchecked (ok a) = ok a
  unchecked (err e) = err panicked

  unfoldable pub derive_key : String → List ℕ → KdfParams → List ℕ
  derive_key pw salt k = l.id_key pw salt k.time k.memory k.threads 32

  opened : CryptError E → Option (List ℕ) → Result (CryptError E) (List ℕ)
  opened failure none = err failure
  opened failure (some pt) = ok pt

  -- aead.Open panics at a nonce of another size.
  unfoldable pub open_with : CryptError E → Aead → List ℕ → List ℕ → Result (CryptError E) (List ℕ)
  unfolding opened
  open_with failure a nonce ct =
      if nat_eq (length nonce) (l.nonce_size a)
      then opened failure (l.open_sealed a nonce ct)
      else err panicked

  unfoldable pub read_state : W → Result (CryptError E) FileState
  read_state w = do b ← checked (l.read_file w); checked (l.unmarshal b)

  unfoldable pub supported : FileState → Result (CryptError E) FileState
  supported st = if st.kdf.alg == "argon2id" then ok st else err (unsupported_kdf st.kdf.alg)

  unfoldable pub read_supported : W → Result (CryptError E) FileState
  unfolding read_state supported
  read_supported w = do st ← read_state w; supported st

  -- The key under the password, with every error looked at.
  unfoldable pub password_key : String → FileState → Result (CryptError E) (List ℕ)
  unfolding derive_key open_with
  password_key pw st = do
    salt ← checked_bytes (l.decode st.salt)
    a ← checked (l.new_gcm (derive_key pw salt st.kdf))
    nonce ← checked_bytes (l.decode st.nonce)
    ct ← checked_bytes (l.decode st.sdek)
    open_with invalid_password a nonce ct

  -- The key under the password, with the errors of base64 and of the cipher ignored.
  unfoldable pub password_key_unchecked :
      CryptError E → String → FileState → Result (CryptError E) (List ℕ)
  unfolding derive_key open_with
  password_key_unchecked failure pw st = do
    a ← unchecked (l.new_gcm (derive_key pw (l.decode st.salt).0 st.kdf))
    open_with failure a (l.decode st.nonce).0 (l.decode st.sdek).0

  unfoldable pub write_error : Option E × W → Option (CryptError E) × W
  write_error (none, w) = (none, w)
  write_error (some e, w) = (some (system e), w)

  unfoldable pub saved : FileState → W → Option (CryptError E) × W
  unfolding write_error
  saved st w = write_error (l.write_file (l.marshal st) w)
