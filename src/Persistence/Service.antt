-- ===== src/Persistence/Service.antt =====
-- internal/persistence/service.go: Module, with its lock state, what it announces and what it commits.
-- The record Deps stands for what the module calls: the control store, the volume manager, the file
-- system and the table of mounts. After NewService none of them is nil. The roles are a field of the
-- module; `published` are the events, the last one first.
use piccolod.Common.{
  ℕ, append, String, Bool, true, false, ◌||◌, not, Option, none, some, List, ◌∷◌, codes, Result, ok,
  err, Eq-string, ◌==◌, if◌then◌else◌,
}
use piccolod.Persistence.Leadership.{Role, leader, follower, Registry, kernel, current}
use piccolod.Persistence.Mounts.{is_mount_point}

pub record VolumeHandle : Type 0 where
  pub id : String
  pub mount_dir : String

pub data Event : Type 0 where
  lock_state_changed : Bool → Event
  control_store_commit : ℕ → String → Role → Event

pub record Deps : Type 1 where
  pub W : Type 0
  pub E : Type 0
  -- The control store may offer Lock and Unlock, and Revision.
  pub lockable : Bool
  pub store_lock : W → W
  pub store_unlock : W → Option E × W
  pub revision : Option (W → Result E (ℕ × String))
  pub store_close : W → Option E × W
  -- Only the manager of encrypted volumes has states to reconcile.
  pub reconcile_all : W → Option E × W
  pub ensure_volume : String → W → Result E VolumeHandle × W
  pub attach : VolumeHandle → Role → W → Option E × W
  pub detach : VolumeHandle → W → Option E × W
  pub mountinfo : W → Result E (List ℕ)
  pub stat : String → W → Option E
  pub remove : String → W → Option E × W
  pub is_not_implemented : E → Bool
  pub is_not_exist : E → Bool
  -- ErrLocked or ErrNotInitialized of the crypt manager.
  pub is_unavailable : E → Bool

-- `bootstrap_failed` wraps the error of attaching the bootstrap volume.
pub data ServiceError (E : Type 0) : Type 0 where
  system bootstrap_failed : E → ServiceError E
  not_implemented no_control_handle no_callback invalid_command missing_path : ServiceError E

pub record Module : Type 0 where
  pub control_handle : VolumeHandle
  pub bootstrap_handle : VolumeHandle
  pub lock_state : Bool
  pub roles : Registry
  pub published : List Event
  pub last_commit_revision : ℕ

unfoldable pub publish : Event → Module → Module
publish event m = record m { published = event ∷ m.published }

unfoldable pub publish_lock_state : Bool → Module → Module
unfolding publish
publish_lock_state locked m = publish (lock_state_changed locked) m

unfoldable pub has_mount : VolumeHandle → Bool
has_mount h = not (h.id == "" || h.mount_dir == "")

module _ (d : Deps) where
  open d use {W, E}

  pub and_then :
      Option (ServiceError E) × W → (W → Option (ServiceError E) × W) → Option (ServiceError E) × W
  and_then (some e, w) k = (some e, w)
  and_then (none, w) k = k w

  unfoldable pub lifted : Option E × W → Option (ServiceError E) × W
  lifted (none, w) = (none, w)
  lifted (some e, w) = (some (system e), w)

  -- A file that is not there is no error.
  unfoldable pub tolerated : (E → Bool) → Option E × W → Option (ServiceError E) × W
  tolerated p (none, w) = (none, w)
  tolerated p (some e, w) = if p e then (none, w) else (some (system e), w)

  remove_marker : String → W → Option (ServiceError E) × W
  unfolding tolerated
  remove_marker path w = tolerated d.is_not_exist (d.remove path w)

  detach_marked : VolumeHandle → W → Option E → Option (ServiceError E) × W
  unfolding lifted
  detach_marked h w none = lifted (d.detach h w)
  detach_marked h w (some e) = if d.is_not_exist e then (none, w) else (some (system e), w)

  detach_by : VolumeHandle → W → Result E Bool → Option (ServiceError E) × W
  unfolding detach_marked remove_marker and_then
  detach_by h w (err e) = (some (system e), w)
  detach_by h w (ok false) =
      and_then (remove_marker (append h.mount_dir "/.cipher") w)
        (remove_marker (append h.mount_dir "/.mode"))
  detach_by h w (ok true) = detach_marked h w (d.stat (append h.mount_dir "/.cipher") w)

  unfoldable pub detach_volume_if_mounted : VolumeHandle → W → Option (ServiceError E) × W
  unfolding detach_by
  detach_volume_if_mounted h w =
      if has_mount h
      then detach_by h w (is_mount_point (d.mountinfo w) (codes h.mount_dir))
      else (none, w)

  -- The role that is asked for, by the role of the node.
  pub volume_role : Role → Role
  volume_role follower = follower
  volume_role role = leader

  unfoldable pub attach_control_volume : Module → W → Option (ServiceError E) × W
  unfolding volume_role tolerated
  attach_control_volume m w =
      if m.control_handle.id == ""
      then (some no_control_handle, w)
      else tolerated d.is_not_implemented
          (d.attach m.control_handle (volume_role (current kernel m.roles)) w)

  bootstrap_outcome : Bool → Option E × W → Option (ServiceError E) × W
  bootstrap_outcome allow_pending (none, w) = (none, w)
  bootstrap_outcome allow_pending (some e, w) =
      if d.is_not_implemented e
      then (none, w)
      else if allow_pending
      then (if d.is_unavailable e then (none, w) else (some (system e), w))
      else (some (system e), w)

  unfoldable pub attach_bootstrap_volume : Bool → Module → W → Option (ServiceError E) × W
  unfolding bootstrap_outcome
  attach_bootstrap_volume allow_pending m w =
      if m.bootstrap_handle.id == ""
      then (none, w)
      else bootstrap_outcome allow_pending (d.attach m.bootstrap_handle leader w)
