-- ===== src/Persistence/Startup.antt =====
-- internal/persistence/service.go and commands.go: how the module starts, what it does with volumes on
-- command, and how it ends.
use piccolod.Common.{
  ℕ, String, true, Option, none, some, [], Result, ok, err, Eq-string, ◌==◌, if◌then◌else◌, nat_eq,
}
use piccolod.Persistence.Leadership.{Role, Registry}
use piccolod.Persistence.Service.{
  VolumeHandle, Deps, Module, ServiceError, system, invalid_command, lifted,
  detach_volume_if_mounted, attach_bootstrap_volume,
}
use piccolod.Persistence.Lock.{change_lock_state, wrapped}

abbrev pub no_handle : VolumeHandle
no_handle = record { id = ""; mount_dir = "" }

-- The control store is locked until it is unlocked.
unfoldable pub new_module : Registry → Module
new_module roles = record {
  control_handle = no_handle;
  bootstrap_handle = no_handle;
  lock_state = true;
  roles = roles;
  published = [];
  last_commit_revision = 0;
}

module _ (d : Deps) where
  open d use {W, E}

  control_ensured : Module → Result E VolumeHandle × W → Option (ServiceError E) × Module × W
  control_ensured m (ok handle, w) = (none, record m { control_handle = handle }, w)
  control_ensured m (err e, w) = (some (system e), m, w)

  bootstrap_attached : Module → Option (ServiceError E) × W → Option (ServiceError E) × Module × W
  unfolding control_ensured wrapped
  bootstrap_attached m (some e, w) = (wrapped d (some e), m, w)
  bootstrap_attached m (none, w) = control_ensured m (d.ensure_volume "control" w)

  bootstrap_ensured : Module → Result E VolumeHandle × W → Option (ServiceError E) × Module × W
  unfolding bootstrap_attached
  bootstrap_ensured m (err e, w) = (some (system e), m, w)
  bootstrap_ensured m (ok handle, w) =
      let m' : Module = record m { bootstrap_handle = handle } in
      bootstrap_attached m' (attach_bootstrap_volume d true m' w)

  core_from : Module → Option E × W → Option (ServiceError E) × Module × W
  unfolding bootstrap_ensured
  core_from m (some e, w) = (some (system e), m, w)
  core_from m (none, w) = bootstrap_ensured m (d.ensure_volume "bootstrap" w)

  ensure_core_volumes : Module → W → Option (ServiceError E) × Module × W
  unfolding core_from
  ensure_core_volumes m w = core_from m (d.reconcile_all w)

  pub started : Option (ServiceError E) × Module × W → Option (ServiceError E) × Module × W
  unfolding ensure_core_volumes
  started (some e, m, w) = (some e, m, w)
  started (none, m, w) = ensure_core_volumes m w

  -- The lock is set and announced before the volumes are there.
  new_service : Registry → W → Option (ServiceError E) × Module × W
  unfolding started new_module change_lock_state
  new_service roles w = started (change_lock_state d true (new_module roles) w)

  -- Errors are logged.
  shutdown : Module → W → W
  shutdown m w =
      let (_, w1) = d.store_close w in
      let (_, w2) = detach_volume_if_mounted d m.control_handle w1 in
      let (_, w3) = detach_volume_if_mounted d m.bootstrap_handle w2 in w3

  handle_from : Result E VolumeHandle × W → Result (ServiceError E) VolumeHandle × W
  handle_from (ok handle, w) = (ok handle, w)
  handle_from (err e, w) = (err (system e), w)

  -- A command of another type is none.
  handle_ensure_volume : Option String → W → Result (ServiceError E) VolumeHandle × W
  unfolding handle_from
  handle_ensure_volume none w = (err invalid_command, w)
  handle_ensure_volume (some id) w = handle_from (d.ensure_volume id w)

  handle_attach_volume : Option (VolumeHandle × Role) → W → Option (ServiceError E) × W
  unfolding lifted
  handle_attach_volume none w = (some invalid_command, w)
  handle_attach_volume (some (handle, role)) w = lifted d (d.attach handle role w)

-- The state of the control store, as QuickCheck reports it.
pub data HealthStatus : Type 0 where
  healthy degraded failing unclear : HealthStatus

-- A time of zero is none.
pub record ControlHealthReport : Type 0 where
  pub status : HealthStatus
  pub message : String
  pub checked_at : ℕ

with_error : Option String → ControlHealthReport → ControlHealthReport
with_error none r = r
with_error (some text) r = record r {
  status = failing;
  message = if r.message == "" then text else r.message;
}

with_time : ℕ → ControlHealthReport → ControlHealthReport
with_time now r = record r { checked_at = if nat_eq r.checked_at 0 then now else r.checked_at }

-- The report that is published, from the one of the check, its error and the time.
control_health : ControlHealthReport → Option String → ℕ → ControlHealthReport
unfolding with_error with_time
control_health r e now = with_time now (with_error e r)
