-- ===== src/Auth/Credentials.antt =====
-- internal/auth/manager.go: Manager, with the password of the admin. The storage behind it is the
-- argument `load` and `save` on a state `W` of the world; `E` are its errors. `id_key`, `encode` and
-- `decode` stand for the libraries that Password uses, and the random salts are arguments.
pub mod Once
pub mod Keeping
use piccolod.Common.{
  ℕ, String, Bool, true, false, ◌||◌, not, Option, none, some, List, [], ◌∷◌, Result, ok, err,
  Eq-string, ◌==◌, is_blank, if◌then◌else◌,
}
use piccolod.Auth.Password.{hash_argon2id, verify_argon2id}

pub record State : Type 0 where
  pub initialized : Bool
  pub password_hash : List ℕ

pub record Manager : Type 0 where
  pub state : State
  pub loaded : Bool

pub data AuthError (E : Type 0) : Type 0 where
  storage_error : E → AuthError E
  password_required already_set_up not_initialized invalid_credentials no_random : AuthError E

pub new_manager : Manager
new_manager = record { state = record { initialized = false; password_hash = [] }; loaded = false }

module _ (W E : Type 0) (load : W → Result E State) (save : State → W → Option E × W)
    (id_key : String → List ℕ → ℕ → ℕ → ℕ → ℕ → List ℕ) (encode : List ℕ → List ℕ)
    (decode : List ℕ → Option (List ℕ)) (cores : ℕ) where
  loaded_with : Manager → Result E State → Result E Manager
  loaded_with m (err e) = err e
  loaded_with m (ok state) = ok (record { state = state; loaded = true })

  ensure_loaded : Manager → W → Result E Manager
  unfolding loaded_with
  ensure_loaded m w = let read = loaded_with m (load w) in if m.loaded then ok m else read

  -- The manager is as before where nothing could be loaded.
  read_state : Manager → Result E Manager → Result E State × Manager
  read_state m (err e) = (err e, m)
  read_state m (ok m') = (ok m'.state, m')

  pub get_state : Manager → W → Result E State × Manager
  unfolding ensure_loaded read_state
  get_state m w = read_state m (ensure_loaded m w)

  initialized_in : Result E State × Manager → Result E Bool × Manager
  initialized_in (err e, m) = (err e, m)
  initialized_in (ok state, m) = (ok state.initialized, m)

  pub is_initialized : Manager → W → Result E Bool × Manager
  unfolding initialized_in
  is_initialized m w = initialized_in (get_state m w)

  -- The new state stays in the manager also if it cannot be saved.
  pub saved : Manager → Option E × W → Option (AuthError E) × Manager × W
  saved m (none, w) = (none, m, w)
  saved m (some e, w) = (some (storage_error e), m, w)

  pub changed : Manager → W → Result (AuthError E) State → Option (AuthError E) × Manager × W
  unfolding saved
  changed m w (err e) = (some e, m, w)
  changed m w (ok state) = saved (record m { state = state }) (save state w)

  update_from :
      (State → Result (AuthError E) State)
      → Manager
      → W
      → Result E Manager
      → Option (AuthError E) × Manager × W
  unfolding changed
  update_from f m w (err e) = (some (storage_error e), m, w)
  update_from f m w (ok m') = changed m' w (f m'.state)

  pub update_state :
      (State → Result (AuthError E) State) → Manager → W → Option (AuthError E) × Manager × W
  unfolding update_from ensure_loaded
  update_state f m w = update_from f m w (ensure_loaded m w)

  hashed : State → Option (List ℕ) → Result (AuthError E) State
  hashed state none = err no_random
  hashed state (some ref) = ok (record state { password_hash = ref })

  set_up : Option (List ℕ) → String → State → Result (AuthError E) State
  unfolding hashed
  set_up salt password state =
      if state.initialized
      then err already_set_up
      else hashed (record state { initialized = true })
          (hash_argon2id id_key encode decode cores salt password)

  pub setup : Option (List ℕ) → String → Manager → W → Option (AuthError E) × Manager × W
  unfolding set_up
  setup salt password m w =
      if is_blank password
      then (some password_required, m, w)
      else update_state (set_up salt password) m w

  change : Option (List ℕ) → String → String → State → Result (AuthError E) State
  unfolding hashed
  change salt old new state =
      if not state.initialized
      then err not_initialized
      else if not (verify_argon2id id_key encode decode state.password_hash old)
      then err invalid_credentials
      else hashed state (hash_argon2id id_key encode decode cores salt new)

  pub change_password :
      Option (List ℕ) → String → String → Manager → W → Option (AuthError E) × Manager × W
  unfolding change
  change_password salt old new m w =
      if is_blank old || is_blank new
      then (some password_required, m, w)
      else update_state (change salt old new) m w

  recover : Option (List ℕ) → String → State → Result (AuthError E) State
  unfolding hashed
  recover salt new state =
      if not state.initialized
      then err not_initialized
      else hashed state (hash_argon2id id_key encode decode cores salt new)

  pub change_password_with_recovery :
      Option (List ℕ) → String → Manager → W → Option (AuthError E) × Manager × W
  unfolding recover
  change_password_with_recovery salt new m w =
      if is_blank new then (some password_required, m, w) else update_state (recover salt new) m w

  verified : String → Result E State × Manager → Result E Bool × Manager
  verified password (err e, m) = (err e, m)
  verified password (ok state, m) = (
    ok (
        if state.initialized
        then verify_argon2id id_key encode decode state.password_hash password
        else false),
    m,
  )

  pub verify : String → String → Manager → W → Result E Bool × Manager
  unfolding verified
  verify username password m w =
      if not (username == "admin") then (ok false, m) else verified password (get_state m w)
