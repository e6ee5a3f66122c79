-- ===== src/Persistence/Volumes/Reconcile.antt =====
-- internal/persistence/file_volume_manager.go: bringing a volume to its recorded state, and
-- EnsureVolume, which does so for a volume that is known.
use piccolod.Common.{
  String, Bool, true, false, not, ◌&&◌, Option, none, some, List, [], ◌∷◌, codes, Result, ok, err,
  Eq-string, ◌==◌, if◌then◌else◌,
}
use piccolod.Common.Map.{lookup}
use piccolod.Crypt.Platform.{Platform}
use piccolod.Persistence.Leadership.{Role, leader}
use piccolod.Persistence.Mounts.{is_mount_point}
use piccolod.Persistence.Service.{VolumeHandle}
use piccolod.Persistence.Volumes.{
  VolumeState, VolumeError, system, role_lost, Host, Entry, M, ◌>>=◌, ◌>>◌, pure, fail, of_result,
  attempt, get, put_entry, effect,
}
use piccolod.Persistence.Volumes.State.{
  mounted, unmounted, pending, errored, parse_volume_role, record_volume_state, read_volume_state,
  state_root,
}
use piccolod.Persistence.Volumes.Keys.{ensure_metadata}
use piccolod.Persistence.Volumes.Manager.{
  is_unknown, is_unavailable, new_entry, get_or_create_entry, attach, detach,
}

module _ (l : Platform) (h : Host l) where
  mounted_now : VolumeHandle → M l h Bool
  mounted_now handle = do
    s ← get
    of_result (lifted (is_mount_point (h.mountinfo s.disk) (codes handle.mount_dir)))
    where
      lifted : Result l.E Bool → Result (VolumeError l.E) Bool
      lifted (ok b) = ok b
      lifted (err e) = err (system e)

  -- A key that is not available yet leaves the volume pending.
  attached_or_pending :
      VolumeHandle → VolumeState → Role → Result (VolumeError l.E) (Unit {0}) → M l h (Unit {0})
  unfolding is_unavailable
  attached_or_pending handle state role (ok u) = pure tt
  attached_or_pending handle state role (err e) =
      if is_unavailable e
      then record_volume_state l h handle.id state.desired pending role (some (h.error_text e))
      else fail e

  attach_again : VolumeHandle → VolumeState → Role → M l h (Unit {0})
  unfolding attached_or_pending
  attach_again handle state role = do
    r ← attempt (attach l h handle role)
    attached_or_pending handle state role r

  remount : VolumeHandle → VolumeState → Role → M l h (Unit {0})
  unfolding attach_again is_unknown
  remount handle state role =
      if state.role == "leader" && not (h.role_checker handle.id leader)
      then pure tt
      else if is_unknown role
      then record_volume_state l h handle.id state.desired errored role
          (some (h.error_text role_lost))
      else attach_again handle state role

  -- What is done for a recorded state, by whether the volume is mounted.
  settle : VolumeHandle → VolumeState → Bool → M l h (Unit {0})
  unfolding remount parse_volume_role
  settle handle state is_mounted =
      if state.desired == mounted && not is_mounted
      then remount handle state (parse_volume_role state.role)
      else if state.desired == unmounted && is_mounted
      then detach l h handle
      else if state.needs_repair && state.desired == mounted && is_mounted
      then record_volume_state l h handle.id state.desired mounted (parse_volume_role state.role)
          none
      else if state.needs_repair && state.desired == unmounted && not is_mounted
      then record_volume_state l h handle.id state.desired unmounted (parse_volume_role state.role)
          none
      else pure tt

  settle_from : VolumeHandle → Result (VolumeError l.E) VolumeState → M l h (Unit {0})
  unfolding settle mounted_now
  settle_from handle (ok state) = do b ← mounted_now handle; settle handle state b
  settle_from handle (err (system e)) = if h.is_not_exist e then pure tt else fail (system e)
  settle_from handle (err e) = fail e

  reconcile_real : Entry l h → M l h (Unit {0})
  unfolding settle_from
  reconcile_real entry = do
    s ← get
    settle_from entry.handle (read_volume_state l h entry.handle.id s.disk)

  reconcile_volume_state : Entry l h → M l h (Unit {0})
  unfolding reconcile_real
  reconcile_volume_state entry = if h.bypass_mount then pure tt else reconcile_real entry

  -- A key that is not available yet is no error of a new volume.
  available : Result (VolumeError l.E) (Unit {0}) → M l h (Unit {0})
  unfolding is_unavailable
  available (ok u) = pure tt
  available (err e) = if is_unavailable e then pure tt else fail e

  new_volume : String → M l h VolumeHandle
  unfolding new_entry available
  new_volume id = do
    effect system (h.mkdir_all (new_entry l h id).cipher_dir)
    effect system (h.mkdir_all (new_entry l h id).handle.mount_dir)
    r ← ensure_metadata l h (new_entry l h id)
    available r.0
    put_entry id r.1
    reconcile_volume_state r.1
    pure r.1.handle

  volume_or_new : String → Option (Entry l h) → M l h VolumeHandle
  unfolding new_volume
  volume_or_new id none = new_volume id
  volume_or_new id (some entry) = do reconcile_volume_state entry; pure entry.handle

  pub ensure_volume : String → M l h VolumeHandle
  unfolding volume_or_new
  ensure_volume id = do s ← get; volume_or_new id (lookup id s.volumes)

  -- Only directories are volumes.
  reconcile_each : List (String × Bool) → M l h (Unit {0})
  unfolding get_or_create_entry
  reconcile_each [] = pure tt
  reconcile_each ((name, false) ∷ rest) = reconcile_each rest
  reconcile_each ((name, true) ∷ rest) = do
    entry ← get_or_create_entry l h name
    reconcile_volume_state entry
    reconcile_each rest

  reconcile_listed : Result l.E (List (String × Bool)) → M l h (Unit {0})
  unfolding reconcile_each
  reconcile_listed (ok entries) = reconcile_each entries
  reconcile_listed (err e) = if h.is_not_exist e then pure tt else fail (system e)

  pub reconcile_all_volume_states : M l h (Unit {0})
  unfolding reconcile_listed
  reconcile_all_volume_states = do s ← get; reconcile_listed (h.read_dir (state_root l h) s.disk)
