-- ===== src/Persistence/Guarded.antt =====
-- internal/persistence/guarded_control.go: guardedControlStore, through which only a leader writes, and
-- whose successful writes are announced. `Repos` stands for the store inside; the module is the one whose
-- roles and commits the store is given.
pub mod Writing
use piccolod.Common.{ℕ, String, Bool, true, false, Option, none, some, List, Result, ok, err}
use piccolod.Persistence.Leadership.{Role, unknown, leader, follower, kernel, current}
use piccolod.Persistence.Service.{Deps, Module}
use piccolod.Persistence.Commit.{on_control_commit}

-- Lock, Unlock, Revision and QuickCheck are only there if the store inside has them.
pub record Repos (d : Deps) : Type 1 where
  pub Staleness : Type 0
  pub StalenessUpdate : Type 0
  pub RemoteConfig : Type 0
  pub AppRecord : Type 0
  pub Report : Type 0
  pub is_initialized : d.W → Result d.E Bool
  pub password_hash : d.W → Result d.E String
  pub staleness : d.W → Result d.E Staleness
  pub current_config : d.W → Result d.E RemoteConfig
  pub list_apps : d.W → Result d.E (List AppRecord)
  pub set_initialized : d.W → Option d.E × d.W
  pub save_password_hash : String → d.W → Option d.E × d.W
  pub update_staleness : StalenessUpdate → d.W → Option d.E × d.W
  pub save_config : RemoteConfig → d.W → Option d.E × d.W
  pub upsert_app : AppRecord → d.W → Option d.E × d.W
  pub lock : Option (d.W → d.W)
  pub unlock : Option (d.W → Option d.E × d.W)
  pub quick_check : Option (d.W → Result d.E Report)
  pub unknown_report : Report

pub data GuardError (E : Type 0) : Type 0 where
  inner : E → GuardError E
  not_leader not_implemented : GuardError E

-- Who is not told to follow leads.
pub leads : Role → Bool
leads follower = false
leads role = true

module _ (d : Deps) (r : Repos d) where
  open d use {W, E}

  -- The commit is announced after a write that succeeded.
  notify_commit : Module → Option E × W → Option (GuardError E) × Module × W
  notify_commit m (none, w) = (none, on_control_commit d w m, w)
  notify_commit m (some e, w) = (some (inner e), m, w)

  -- What the five writes share.
  guarded : Bool → (W → Option E × W) → Module → W → Option (GuardError E) × Module × W
  unfolding notify_commit
  guarded false op m w = (some not_leader, m, w)
  guarded true op m w = notify_commit m (op w)

  pub write : (W → Option E × W) → Module → W → Option (GuardError E) × Module × W
  unfolding guarded leads
  write op m w = guarded (leads (current kernel m.roles)) op m w

  pub set_initialized : Module → W → Option (GuardError E) × Module × W
  unfolding write
  set_initialized m w = write r.set_initialized m w

  pub save_password_hash : String → Module → W → Option (GuardError E) × Module × W
  unfolding write
  save_password_hash hash m w = write (r.save_password_hash hash) m w

  pub update_staleness : r.StalenessUpdate → Module → W → Option (GuardError E) × Module × W
  unfolding write
  update_staleness update m w = write (r.update_staleness update) m w

  pub save_config : r.RemoteConfig → Module → W → Option (GuardError E) × Module × W
  unfolding write
  save_config config m w = write (r.save_config config) m w

  pub upsert_app : r.AppRecord → Module → W → Option (GuardError E) × Module × W
  unfolding write
  upsert_app app m w = write (r.upsert_app app) m w

  lock_from : Option (W → W) → W → W
  lock_from none w = w
  lock_from (some f) w = f w

  unfoldable pub lock : W → W
  unfolding lock_from
  lock w = lock_from r.lock w

  inner_error : Option E × W → Option (GuardError E) × W
  inner_error (none, w) = (none, w)
  inner_error (some e, w) = (some (inner e), w)

  unlock_from : Option (W → Option E × W) → W → Option (GuardError E) × W
  unfolding inner_error
  unlock_from none w = (some not_implemented, w)
  unlock_from (some f) w = inner_error (f w)

  unfoldable pub unlock : W → Option (GuardError E) × W
  unfolding unlock_from
  unlock w = unlock_from r.unlock w

  read_from : {A : Type 0} → Result E A → Result (GuardError E) A
  read_from (ok a) = ok a
  read_from (err e) = err (inner e)

  revision_from : Option (W → Result E (ℕ × String)) → W → Result (GuardError E) (ℕ × String)
  unfolding read_from
  revision_from none w = err not_implemented
  revision_from (some f) w = read_from (f w)

  pub revision : W → Result (GuardError E) (ℕ × String)
  unfolding revision_from
  revision w = revision_from d.revision w

  quick_check_from : Option (W → Result E r.Report) → W → Result (GuardError E) r.Report
  unfolding read_from
  quick_check_from none w = ok r.unknown_report
  quick_check_from (some f) w = read_from (f w)

  pub quick_check : W → Result (GuardError E) r.Report
  unfolding quick_check_from
  quick_check w = quick_check_from r.quick_check w
