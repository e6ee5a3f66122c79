-- ===== src/Crypt/Manager.antt =====
-- internal/crypt/manager.go: Manager, the operations on the key under a password. Random bytes are
-- arguments; they are read in the order in which they stand.
use piccolod.Common.{
  ℕ, ◌*◌, ◌%◌, String, Bool, true, false, ◌||◌, not, Option, none, some, List, [], length, nat_eq,
  Result, ok, err, ◌>>=◌, Eq-string, ◌==◌, if◌then◌else◌,
}
use piccolod.Crypt.Platform.{
  KdfParams, FileState, Platform, CryptError, password_required, already_initialized,
  not_initialized, not_set_up, locked, invalid_old_password, select_crypto_parallelism, checked,
  unchecked, derive_key, read_supported, password_key, password_key_unchecked, saved,
}

-- No bytes in `sdek` is a locked manager.
pub record Manager : Type 0 where
  pub sdek : List ℕ
  pub inited : Bool

unfoldable pub is_initialized : Manager → Bool
is_initialized m = m.inited

pub no_key : Manager → Bool
no_key m = nat_eq (length m.sdek) 0

unfoldable pub is_locked : Manager → Bool
unfolding no_key
is_locked m = if not m.inited then false else no_key m

unfoldable pub lock : Manager → Manager
lock m = record m { sdek = [] }

module _ (l : Platform) where
  open l use {W, E}

  found : Option E → Bool
  found none = true
  found (some e) = false

  -- The first argument is the outcome of making the directory of the file.
  pub new_manager : Option E → W → Result E Manager
  unfolding found
  new_manager (some e) w = err e
  new_manager none w = ok (record { sdek = []; inited = found (l.stat w) })

  -- The callback gets the key; its error is handed on.
  unfoldable pub with_sdek : (List ℕ → Option (CryptError E)) → Manager → Option (CryptError E)
  unfolding no_key
  with_sdek fn m =
      if not m.inited then some not_set_up else if no_key m then some locked else fn m.sdek

  unfoldable pub fresh_params : KdfParams
  fresh_params = record {
    alg = "argon2id";
    time = 3;
    memory = 512 * 1024;
    threads = select_crypto_parallelism l.num_cpu % 256;
  }

  -- The key under a password in a file without a recovery key.
  unfoldable pub sealed_new : String → List ℕ → List ℕ → l.Aead → List ℕ → FileState
  sealed_new password salt sdek a nonce = record {
    sdek = l.encode (l.seal a nonce sdek);
    salt = l.encode salt;
    nonce = l.encode nonce;
    kdf = fresh_params;
    rk_salt = [];
    rk_nonce = [];
    sdek_rk = [];
  }

  -- The key under a new password; the rest of the file stays.
  unfoldable pub resealed : FileState → List ℕ → List ℕ → l.Aead → List ℕ → FileState
  resealed st salt sdek a nonce = record st {
    sdek = l.encode (l.seal a nonce sdek);
    salt = l.encode salt;
    nonce = l.encode nonce;
  }

  -- Nothing is written before all else has succeeded.
  unfoldable pub saved_from : Result (CryptError E) FileState → W → Option (CryptError E) × W
  saved_from (err e) w = (some e, w)
  saved_from (ok st) w = saved l st w

  unfoldable pub set_up_state :
      Result E (List ℕ)
      → Result E (List ℕ)
      → Result E (List ℕ)
      → String
      → Result (CryptError E) FileState
  unfolding fresh_params sealed_new
  set_up_state random_salt random_sdek random_nonce password = do
    salt ← checked l random_salt
    sdek ← checked l random_sdek
    a ← checked l (l.new_gcm (derive_key l password salt fresh_params))
    nonce ← checked l random_nonce
    ok (sealed_new password salt sdek a nonce)

  unfoldable pub set_up_result :
      Manager → Option (CryptError E) × W → Option (CryptError E) × Manager × W
  set_up_result m (some e, w) = (some e, m, w)
  set_up_result m (none, w) = (none, record m { inited = true; sdek = [] }, w)

  unfoldable pub setup :
      Result E (List ℕ)
      → Result E (List ℕ)
      → Result E (List ℕ)
      → String
      → Manager
      → W
      → Option (CryptError E) × Manager × W
  unfolding set_up_state set_up_result saved_from
  setup random_salt random_sdek random_nonce password m w =
      if password == ""
      then (some password_required, m, w)
      else if m.inited
      then (some already_initialized, m, w)
      else set_up_result m
          (saved_from (set_up_state random_salt random_sdek random_nonce password) w)

  unfoldable pub keep_key :
      Manager → Result (CryptError E) (List ℕ) → Option (CryptError E) × Manager
  keep_key m (err e) = (some e, m)
  keep_key m (ok pt) = (none, record m { sdek = pt })

  unfoldable pub unlock_key : String → W → Result (CryptError E) (List ℕ)
  unlock_key password w = do st ← read_supported l w; password_key l password st

  unfoldable pub unlock : String → Manager → W → Option (CryptError E) × Manager
  unfolding unlock_key keep_key
  unlock password m w =
      if password == ""
      then (some password_required, m)
      else if not m.inited
      then (some not_initialized, m)
      else keep_key m (unlock_key password w)

  unfoldable pub rewrapped :
      Result E (List ℕ) → Result E (List ℕ) → String → String → W → Result (CryptError E) FileState
  unfolding resealed
  rewrapped random_salt random_nonce old new w = do
    st ← read_supported l w
    pt ← password_key_unchecked l invalid_old_password old st
    salt ← checked l random_salt
    a ← unchecked l (l.new_gcm (derive_key l new salt st.kdf))
    nonce ← checked l random_nonce
    ok (resealed st salt pt a nonce)

  -- The manager itself does not change.
  unfoldable pub rewrap :
      Result E (List ℕ)
      → Result E (List ℕ)
      → String
      → String
      → Manager
      → W
      → Option (CryptError E) × W
  unfolding rewrapped saved_from
  rewrap random_salt random_nonce old new m w =
      if old == "" || new == ""
      then (some password_required, w)
      else if not m.inited
      then (some not_initialized, w)
      else saved_from (rewrapped random_salt random_nonce old new w) w

  unfoldable pub rewrapped_unlocked :
      Result E (List ℕ) → Result E (List ℕ) → String → List ℕ → W → Result (CryptError E) FileState
  unfolding resealed
  rewrapped_unlocked random_salt random_nonce new sdek w = do
    st ← read_supported l w
    salt ← checked l random_salt
    a ← checked l (l.new_gcm (derive_key l new salt st.kdf))
    nonce ← checked l random_nonce
    ok (resealed st salt sdek a nonce)

  unfoldable pub rewrap_unlocked :
      Result E (List ℕ) → Result E (List ℕ) → String → Manager → W → Option (CryptError E) × W
  unfolding rewrapped_unlocked saved_from no_key
  rewrap_unlocked random_salt random_nonce new m w =
      if new == ""
      then (some password_required, w)
      else if not m.inited
      then (some not_initialized, w)
      else if no_key m
      then (some locked, w)
      else saved_from (rewrapped_unlocked random_salt random_nonce new m.sdek w) w
