-- ===== src/Persistence/Volumes/Manager.antt =====
-- internal/persistence/file_volume_manager.go: fileVolumeManager, the operations on volumes.
pub mod Granting
use piccolod.Common.{
  ℕ, append, String, Bool, true, false, not, ◌&&◌, ◌||◌, Option, none, some, List, [], ◌∷◌, ◌++◌,
  codes, Result, ok, err, is_some, Eq-string, ◌==◌, if◌then◌else◌,
}
use piccolod.Common.Map.{Map, lookup, insert}
use piccolod.Crypt.Platform.{Platform, CryptError, locked, not_set_up}
use piccolod.Persistence.Leadership.{Role, unknown, leader, follower}
use piccolod.Persistence.Mounts.{is_mount_point}
use piccolod.Persistence.Service.{VolumeHandle}
use piccolod.Persistence.Volumes.{
  VolumeMetadata, VolumeState, VolumeError, system, mount_failed, wait_failed, detach_failed, crypt,
  role_lost, unknown_volume, not_granted, Host, Entry, Store, M, ◌>>=◌, ◌>>◌, pure, fail, of_result,
  attempt, get, put_entry, effect, reading,
}
use piccolod.Persistence.Volumes.State.{
  mounted, unmounted, pending, errored, parse_volume_role, record_volume_state, read_volume_state,
  state_root,
}
use piccolod.Persistence.Volumes.Keys.{Ensured, ensure_metadata, unwrap_volume_key}

pub is_leader : Role → Bool
is_leader leader = true
is_leader role = false

is_follower : Role → Bool
is_follower follower = true
is_follower role = false

unfoldable pub is_unknown : Role → Bool
is_unknown unknown = true
is_unknown role = false

-- ErrLocked or ErrNotInitialized.
unfoldable pub is_unavailable : {E : Type 0} → VolumeError E → Bool
is_unavailable (crypt locked) = true
is_unavailable (crypt not_set_up) = true
is_unavailable e = false

no_metadata : VolumeMetadata
no_metadata = record { version = 0; wrapped_key = []; nonce = [] }

module _ (l : Platform) (h : Host l) where
  unfoldable pub new_entry : String → Entry l h
  unfolding no_metadata
  new_entry id = record {
    handle = record { id = id; mount_dir = append (append h.root "/mounts/") id };
    cipher_dir = append (append h.root "/ciphertext/") id;
    metadata = no_metadata;
    metadata_ready = false;
    role = unknown;
    process = none;
  }

  entry_or_new : String → Option (Entry l h) → M l h (Entry l h)
  unfolding new_entry
  entry_or_new id (some entry) = pure entry
  entry_or_new id none = do put_entry id (new_entry id); pure (new_entry id)

  unfoldable pub get_or_create_entry : String → M l h (Entry l h)
  unfolding entry_or_new
  get_or_create_entry id = do s ← get; entry_or_new id (lookup id s.volumes)

  unfoldable pub known : String → Option (Entry l h) → M l h (Entry l h)
  known id none = fail (unknown_volume id)
  known id (some entry) = pure entry

  unfoldable pub granted : String → Role → M l h (Unit {0})
  unfolding is_leader
  granted id role =
      if is_leader role && not (h.role_checker id role) then fail (not_granted id) else pure tt

  mode_text : Role → String
  mode_text follower = "ro"
  mode_text role = "rw"

  write_markers : Entry l h → Role → M l h (Unit {0})
  unfolding mode_text
  write_markers entry role = do
    effect system
        (h.write_file (append entry.handle.mount_dir "/.mode") (h.text_file (mode_text role)))
    effect system
        (h.write_file (append entry.handle.mount_dir "/.cipher") (h.text_file entry.cipher_dir))

  -- The entry is left in the map as ensureMetadata leaves it, also after an error.
  unfoldable pub ensured : String → Entry l h → M l h (Entry l h)
  ensured id entry = do r ← ensure_metadata l h entry; put_entry id r.1; of_result r.0; pure r.1

  -- The state is recorded as an error, the outcome of that ignored, and the wrapped error is returned.
  failed_as : {A : Type 0} → String → String → Role → l.E → VolumeError l.E → M l h A
  failed_as id desired role e wrapped = do
    _ ← attempt (record_volume_state l h id desired errored role (some (h.error_text (system e))))
    fail wrapped

  pub attach_bypass : VolumeHandle → Entry l h → Role → M l h (Unit {0})
  unfolding ensured write_markers
  attach_bypass handle entry0 role = do
    entry ← ensured handle.id entry0
    write_markers entry role
    put_entry handle.id (record entry { role = role; metadata_ready = true })
    record_volume_state l h handle.id mounted mounted role none

  launched : VolumeHandle → Role → Result (VolumeError l.E) h.Process → M l h h.Process
  unfolding failed_as
  launched handle role (ok proc) = pure proc
  launched handle role (err (system e)) = failed_as handle.id mounted role e (mount_failed e)
  launched handle role (err e) = fail e

  -- A process whose mount does not come up is stopped.
  waited : VolumeHandle → Role → h.Process → Result (VolumeError l.E) (Unit {0}) → M l h (Unit {0})
  unfolding failed_as
  waited handle role proc (ok u) = pure tt
  waited handle role proc (err (system e)) = do
    effect system (λ w. (none, h.stop proc w))
    failed_as handle.id mounted role e (wait_failed e)
  waited handle role proc (err e) = fail e

  unfoldable pub attach_mount : VolumeHandle → Entry l h → Role → M l h (Unit {0})
  unfolding ensured launched waited write_markers is_follower
  attach_mount handle entry0 role = do
    entry ← ensured handle.id entry0
    passphrase ← unwrap_volume_key l h entry.metadata
    record_volume_state l h handle.id mounted pending role none
    r ← attempt (
        reading (
          h.launch (is_follower role) entry.cipher_dir entry.handle.mount_dir
            (passphrase ++ 10 ∷ [])))
    proc ← launched handle role r
    u ← attempt (effect system (h.wait_mount entry.handle.mount_dir))
    waited handle role proc u
    write_markers entry role
    put_entry handle.id (record entry { role = role; metadata_ready = true; process = some proc })
    record_volume_state l h handle.id mounted mounted role none

  unfoldable pub attach : VolumeHandle → Role → M l h (Unit {0})
  unfolding known granted attach_bypass attach_mount
  attach handle role = do
    s ← get
    entry ← known handle.id (lookup handle.id s.volumes)
    granted handle.id role
    if h.bypass_mount then attach_bypass handle entry role else attach_mount handle entry role

  -- The role of a volume that may not be known.
  role_of : Option (Entry l h) → Role
  role_of none = unknown
  role_of (some entry) = entry.role

  forget_role : String → Option (Entry l h) → M l h (Unit {0})
  forget_role id none = pure tt
  forget_role id (some entry) = put_entry id (record entry { role = unknown })

  await_process : Entry l h → M l h (Unit {0})
  await_process entry = effect system (λ w. (none, awaited entry.process w))
    where
      awaited : Option h.Process → h.W → h.W
      awaited none w = w
      awaited (some proc) w = h.await_exit proc w

  await_entry : String → Option (Entry l h) → M l h (Unit {0})
  unfolding await_process
  await_entry id none = pure tt
  await_entry id (some entry) = do
    put_entry id (record entry { process = none })
    await_process entry

  await_process_exit : String → M l h (Unit {0})
  unfolding await_entry
  await_process_exit id = do s ← get; await_entry id (lookup id s.volumes)

  unmounted_by : VolumeHandle → Role → Result (VolumeError l.E) (Unit {0}) → M l h (Unit {0})
  unfolding failed_as
  unmounted_by handle role (ok u) = pure tt
  unmounted_by handle role (err (system e)) = failed_as handle.id unmounted role e (detach_failed e)
  unmounted_by handle role (err e) = fail e

  detach_bypass : VolumeHandle → M l h (Unit {0})
  unfolding role_of forget_role
  detach_bypass handle = do
    s ← get
    forget_role handle.id (lookup handle.id s.volumes)
    record_volume_state l h handle.id unmounted unmounted (role_of (lookup handle.id s.volumes))
        none

  detach_mount : VolumeHandle → M l h (Unit {0})
  unfolding role_of unmounted_by await_process_exit
  detach_mount handle = do
    s ← get
    let role = role_of (lookup handle.id s.volumes)
    record_volume_state l h handle.id unmounted pending role none
    r ← attempt (effect system (h.fusermount handle.mount_dir))
    unmounted_by handle role r
    await_process_exit handle.id
    record_volume_state l h handle.id unmounted unmounted role none

  pub detach : VolumeHandle → M l h (Unit {0})
  unfolding detach_bypass detach_mount
  detach handle = if h.bypass_mount then detach_bypass handle else detach_mount handle
