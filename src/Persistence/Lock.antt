-- ===== src/Persistence/Lock.antt =====
-- internal/persistence/service.go and commands.go: the lock state, and exports while it is locked.
pub mod Exporting
use piccolod.Common.{
  ℕ, String, Bool, true, false, ◌&&◌, not, Option, none, some, List, [], ◌∷◌, codes, Result, ok,
  err, Eq-string, ◌==◌, if◌then◌else◌,
}
use piccolod.Persistence.Mounts.{is_mount_point}
use piccolod.Persistence.Service.{
  VolumeHandle, Deps, Module, ServiceError, system, bootstrap_failed, not_implemented, no_callback,
  invalid_command, missing_path, publish_lock_state, has_mount, detach_volume_if_mounted,
  attach_control_volume, attach_bootstrap_volume,
}

pub record Artifact : Type 0 where
  pub path : String
  pub kind : String

-- What is done under lockStateMu.
abbrev pub with_lock_state : Bool → Module → Module
with_lock_state locked m = record m { lock_state = locked }

module _ (d : Deps) where
  open d use {W, E}

  -- The new state is recorded only if all has succeeded.
  unfoldable pub recorded :
      Bool → Module → Option (ServiceError E) × W → Option (ServiceError E) × Module × W
  recorded locked m (some e, w) = (some e, m, w)
  recorded locked m (none, w) = (none, with_lock_state locked m, w)

  unfoldable pub wrapped : Option (ServiceError E) → Option (ServiceError E)
  wrapped (some (system e)) = some (bootstrap_failed e)
  wrapped o = o

  -- What was done before is undone, the errors of that ignored.
  unlock_store : Module → Option E × W → Option (ServiceError E) × W
  unlock_store m (none, w) = (none, w)
  unlock_store m (some e, w) =
      let (_, w1) = detach_volume_if_mounted d m.control_handle (d.store_lock w) in
      let (_, w2) = detach_volume_if_mounted d m.bootstrap_handle w1 in (some (system e), w2)

  with_bootstrap : Module → Option (ServiceError E) × W → Option (ServiceError E) × W
  unfolding wrapped unlock_store
  with_bootstrap m (none, w) = unlock_store m (d.store_unlock w)
  with_bootstrap m (some e, w) =
      let (_, w1) = detach_volume_if_mounted d m.control_handle w in (wrapped (some e), w1)

  unfoldable pub with_control : Module → Option (ServiceError E) × W → Option (ServiceError E) × W
  unfolding with_bootstrap
  with_control m (some e, w) = (some e, w)
  with_control m (none, w) = with_bootstrap m (attach_bootstrap_volume d false m w)

  unfoldable pub unlocks : Module → W → Option (ServiceError E) × W
  unfolding with_control
  unlocks m w = with_control m (attach_control_volume d m w)

  locks : Module → W → Option (ServiceError E) × W
  locks m w = detach_volume_if_mounted d m.control_handle (d.store_lock w)

  -- A store that cannot be locked can only be recorded as locked.
  unfoldable pub changes : Bool → Module → W → Option (ServiceError E) × W
  unfolding locks unlocks
  changes true m w = if d.lockable then locks m w else (none, w)
  changes false m w = if d.lockable then unlocks m w else (some not_implemented, w)

  unfoldable pub set_lock_state : Bool → Module → W → Option (ServiceError E) × Module × W
  unfolding recorded changes
  set_lock_state locked m w = recorded locked m (changes locked m w)

  unfoldable pub announced :
      Bool → Option (ServiceError E) × Module × W → Option (ServiceError E) × Module × W
  announced locked (some e, m, w) = (some e, m, w)
  announced locked (none, m, w) = (none, publish_lock_state locked m, w)

  -- The state is set and then announced, under no common mutex. This is the call alone: what other
  -- goroutines do in between is a step of Interleaving.
  unfoldable pub change_lock_state : Bool → Module → W → Option (ServiceError E) × Module × W
  unfolding set_lock_state announced
  change_lock_state locked m w = announced locked (set_lock_state locked m w)

  unfoldable pub handle_record_lock_state :
      Option Bool → Module → W → Option (ServiceError E) × Module × W
  unfolding change_lock_state
  handle_record_lock_state none m w = (some invalid_command, m, w)
  handle_record_lock_state (some locked) m w = change_lock_state locked m w

  -- Whether the bootstrap volume was detached. Detaching that is not implemented counts as done.
  detached : Option E × W → Result (ServiceError E) Bool × W
  detached (none, w) = (ok true, w)
  detached (some e, w) = if d.is_not_implemented e then (ok true, w) else (err (system e), w)

  detach_by_mount : Module → W → Result E Bool → Result (ServiceError E) Bool × W
  unfolding detached
  detach_by_mount m w (err e) = (err (system e), w)
  detach_by_mount m w (ok false) = (ok false, w)
  detach_by_mount m w (ok true) = detached (d.detach m.bootstrap_handle w)

  pub detach_bootstrap : Bool → Module → W → Result (ServiceError E) Bool × W
  unfolding detach_by_mount
  detach_bootstrap include m w =
      if include && has_mount m.bootstrap_handle
      then detach_by_mount m w (is_mount_point (d.mountinfo w) (codes m.bootstrap_handle.mount_dir))
      else (ok false, w)

  -- After an error of the export itself, the errors that follow are only logged.
  unfoldable pub first_error :
      Result (ServiceError E) Artifact → Option (ServiceError E) → Result (ServiceError E) Artifact
  first_error r none = r
  first_error (ok a) (some e) = err e
  first_error (err e) (some f) = err e

  pub restored :
      Bool
      → Bool
      → Result (ServiceError E) Artifact
      → Module
      → W
      → Result (ServiceError E) Artifact × Module × W
  unfolding change_lock_state first_error
  restored true was_detached r m w =
      let (o, m', w') = change_lock_state false m w in (first_error r o, m', w')
  restored false true r m w =
      let (o, w') = attach_bootstrap_volume d false m w in (first_error r o, m, w')
  restored false false r m w = (r, m, w)

  pub exported : Result E Artifact → Result (ServiceError E) Artifact
  exported (ok a) = ok a
  exported (err e) = err (system e)

  -- An export that is given up before it runs is only unlocked again.
  pub run_from :
      Bool
      → (W → Result E Artifact × W)
      → Module
      → Result (ServiceError E) Bool × W
      → Result (ServiceError E) Artifact × Module × W
  unfolding restored exported
  run_from locked_by_export fn m (ok was_detached, w) =
      let (r, w') = fn w in restored locked_by_export was_detached (exported r) m w'
  run_from locked_by_export fn m (err e, w) = restored locked_by_export false (err e) m w

  pub run_locked :
      Bool
      → Bool
      → (W → Result E Artifact × W)
      → Option (ServiceError E) × Module × W
      → Result (ServiceError E) Artifact × Module × W
  unfolding run_from detach_bootstrap
  run_locked locked_by_export include fn (some e, m, w) = (err e, m, w)
  run_locked locked_by_export include fn (none, m, w) =
      run_from locked_by_export fn m (detach_bootstrap include m w)

  unfoldable pub run_export_with_lock :
      Bool
      → Option (W → Result E Artifact × W)
      → Module
      → W
      → Result (ServiceError E) Artifact × Module × W
  unfolding run_locked change_lock_state
  run_export_with_lock include none m w = (err no_callback, m, w)
  run_export_with_lock include (some fn) m w =
      if m.lock_state
      then run_locked false include fn (none, m, w)
      else run_locked true include fn (change_lock_state true m w)

  with_kind : String → Artifact → Artifact
  with_kind kind a = if a.kind == "" then record a { kind = kind } else a

  with_path :
      String
      → Result (ServiceError E) Artifact × Module × W
      → Result (ServiceError E) Artifact × Module × W
  unfolding with_kind
  with_path kind (err e, m, w) = (err e, m, w)
  with_path kind (ok a, m, w) =
      if a.path == "" then (err missing_path, m, w) else (ok (with_kind kind a), m, w)

  handle_run_control_export :
      Bool
      → (W → Result E Artifact × W)
      → Module
      → W
      → Result (ServiceError E) Artifact × Module × W
  unfolding run_export_with_lock with_path
  handle_run_control_export false run m w = (err invalid_command, m, w)
  handle_run_control_export true run m w =
      with_path "control_only" (run_export_with_lock false (some run) m w)

  handle_run_full_export :
      Bool
      → (W → Result E Artifact × W)
      → Module
      → W
      → Result (ServiceError E) Artifact × Module × W
  unfolding run_export_with_lock with_path
  handle_run_full_export false run m w = (err invalid_command, m, w)
  handle_run_full_export true run m w =
      with_path "full_data" (run_export_with_lock true (some run) m w)
