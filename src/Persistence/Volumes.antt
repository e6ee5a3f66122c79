-- ===== src/Persistence/Volumes.antt =====
-- internal/persistence/file_volume_manager.go: the data of the volume manager, what it calls, and the
-- order of its steps. `Host` stands for the file system, gocryptfs and fusermount, encoding/json and
-- base64; the keys are sealed by the ciphers of the crypt manager's Platform.
pub mod State
pub mod Keys
pub mod Manager
pub mod Reconcile
use piccolod.Common.{
  ℕ, append, String, Bool, true, false, Option, none, some, List, [], ◌∷◌, Result, ok, err,
  Eq-string, ◌==◌, if◌then◌else◌,
}
use piccolod.Common.Map.{Map, lookup, insert}
use piccolod.Crypt.Platform.{Platform, CryptError}
use piccolod.Crypt.Manager as Crypt
use piccolod.Persistence.Leadership.{Role, unknown, leader, follower}
use piccolod.Persistence.Service.{VolumeHandle}

-- The texts are base64; both are needed.
pub record VolumeMetadata : Type 0 where
  pub version : ℕ
  pub wrapped_key : List ℕ
  pub nonce : List ℕ

-- `last_error` is empty where there is none.
pub record VolumeState : Type 0 where
  pub desired : String
  pub observed : String
  pub role : String
  pub last_error : String
  pub updated_at : ℕ
  pub generation : ℕ
  pub needs_repair : Bool

pub record VolumeEvent : Type 0 where
  pub id : String
  pub state : VolumeState

pub data VolumeError (E : Type 0) : Type 0 where
  system mount_failed wait_failed detach_failed init_failed : E → VolumeError E
  crypt : CryptError E → VolumeError E
  corrupted role_lost : VolumeError E
  unknown_volume not_granted : String → VolumeError E

-- Each effect returns its error, if any, and the disk after it.
pub record Host (l : Platform) : Type 1 where
  pub W : Type 0
  pub File : Type 0
  pub Process : Type 0
  pub root : String
  pub bypass_mount : Bool
  pub role_checker : String → Role → Bool
  pub now : W → ℕ
  pub random : ℕ → W → Result l.E (List ℕ) × W
  pub mkdir_all : String → W → Option l.E × W
  pub read_file : String → W → Result l.E File
  pub write_file : String → File → W → Option l.E × W
  pub stat : String → W → Option l.E
  pub read_dir : String → W → Result l.E (List (String × Bool))
  pub create_temp : String → W → Result l.E String × W
  pub encode_to : String → VolumeState → W → Option l.E × W
  pub sync : String → W → Option l.E × W
  pub close : String → W → Option l.E × W
  pub rename : String → String → W → Option l.E × W
  pub remove : String → W → Option l.E × W
  pub sync_dir : String → W → Option l.E × W
  pub is_not_exist : l.E → Bool
  pub error_text : VolumeError l.E → String
  pub mountinfo : W → Result l.E (List ℕ)
  pub text_file : String → File
  pub marshal_metadata : VolumeMetadata → File
  pub unmarshal_metadata : File → Option VolumeMetadata
  pub unmarshal_state : File → Result l.E VolumeState
  pub encode : List ℕ → List ℕ
  pub decode : List ℕ → Option (List ℕ)
  pub init_gocryptfs : String → List ℕ → W → Option l.E × W
  pub launch : Bool → String → String → List ℕ → W → Result l.E Process × W
  pub wait_mount : String → W → Option l.E × W
  pub stop : Process → W → W
  pub await_exit : Process → W → W
  pub fusermount : String → W → Option l.E × W

module _ (l : Platform) (h : Host l) where
  pub record Entry : Type 0 where
    pub handle : VolumeHandle
    pub cipher_dir : String
    pub metadata : VolumeMetadata
    pub metadata_ready : Bool
    pub role : Role
    pub process : Option h.Process

  -- The volumes, the events that were published, the last one first, the crypt manager and the disk.
  pub record Store : Type 0 where
    pub volumes : Map String Entry
    pub published : List VolumeEvent
    pub crypto : Crypt.Manager
    pub disk : h.W

-- A step on the store, with a value or an error.
abbrev pub M : (l : Platform) → Host l → Type 0 → Type 0
M l h A = Store l h → Result (VolumeError l.E) A × Store l h

module _ {l : Platform} {h : Host l} where
  abbrev pub bind_from :
      {A B : Type 0}
      → Result (VolumeError l.E) A × Store l h
      → (A → M l h B)
      → Result (VolumeError l.E) B × Store l h
  bind_from (ok a, s) f = f a s
  bind_from (err e, s) f = (err e, s)

  infixl 5 ◌>>=◌ ◌>>◌
  abbrev pub ◌>>=◌ : {A B : Type 0} → M l h A → (A → M l h B) → M l h B
  ◌>>=◌ m f s = bind_from (m s) f

  abbrev pub ◌>>◌ : {B : Type 0} → M l h (Unit {0}) → M l h B → M l h B
  ◌>>◌ m k s = bind_from (m s) (λ _. k)

  abbrev pub pure : {A : Type 0} → A → M l h A
  pure a s = (ok a, s)

  abbrev pub fail : {A : Type 0} → VolumeError l.E → M l h A
  fail e s = (err e, s)

  abbrev pub of_result : {A : Type 0} → Result (VolumeError l.E) A → M l h A
  of_result r s = (r, s)

  -- The result of a step as a value.
  abbrev pub attempt : {A : Type 0} → M l h A → M l h (Result (VolumeError l.E) A)
  attempt m s = (ok (m s).0, (m s).1)

  abbrev pub get : M l h (Store l h)
  get s = (ok s, s)

  abbrev pub put_entry : String → Entry l h → M l h (Unit {0})
  put_entry id entry s = (ok tt, record s { volumes = insert id entry s.volumes })

  -- An effect without a value, its error wrapped by the first argument.
  abbrev pub effect_from :
      (l.E → VolumeError l.E)
      → Store l h
      → Option l.E × h.W
      → Result (VolumeError l.E) (Unit {0}) × Store l h
  effect_from wrap s (none, w) = (ok tt, record s { disk = w })
  effect_from wrap s (some e, w) = (err (wrap e), record s { disk = w })

  abbrev pub effect : (l.E → VolumeError l.E) → (h.W → Option l.E × h.W) → M l h (Unit {0})
  effect wrap f s = effect_from wrap s (f s.disk)

  abbrev pub read_from :
      {A : Type 0} → Store l h → Result l.E A × h.W → Result (VolumeError l.E) A × Store l h
  read_from s (ok a, w) = (ok a, record s { disk = w })
  read_from s (err e, w) = (err (system e), record s { disk = w })

  -- An effect with a value.
  abbrev pub reading : {A : Type 0} → (h.W → Result l.E A × h.W) → M l h A
  reading f s = read_from s (f s.disk)
