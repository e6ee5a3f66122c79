-- ===== src/Tests/Stores.antt =====
-- internal/persistence with a store that always obeys, and a disk that is a function from names to files.
use piccolod.Common.{
  ℕ, ◌+◌, ◌*◌, ◌≡◌, refl, String, Bool, true, false, none, some, List, [], ◌∷◌, Result, ok, arith,
  Eq-string, codes, nat_eq, ltb,
}
use piccolod.Persistence.Leadership.{leader, follower, kernel, set}
use piccolod.Persistence.Mounts.{is_mount_point}
use piccolod.Persistence.Mounts.Escapes.{Mount, mounted_at, table_of, is_mount_point-table_of}
use piccolod.Persistence.Mounts.Waiting.{
  Reason, WaitError, wait_for_mount_ready, wait_for_mount_ready-ends,
}
use piccolod.Persistence.Service.{
  Deps, Module, lock_state_changed, control_store_commit, publish, detach_volume_if_mounted,
  has_mount, attach_control_volume, attach_bootstrap_volume,
}
use piccolod.Persistence.Startup.{new_module}
use piccolod.Persistence.Lock.{Artifact, run_export_with_lock}
use piccolod.Persistence.Lock.Exporting.{Exported, run_export_with_lock-Exported}
use piccolod.Persistence.Guarded.{Repos}
use piccolod.Persistence.Interleaving.{
  Move, committing, setting, publishing, leading, run, move, started, waiting, pick, behind,
  publish_picked,
}
use piccolod.Persistence.Commit.{record_commit}

-- A store with one number that each write raises; it is also the revision.
abbrev deps : Deps
deps = record {
  W = ℕ;
  E = ℕ;
  lockable = true;
  store_lock = λ w. w;
  store_unlock = λ w. (none, w);
  revision = some (λ w. ok (w, "sum"));
  store_close = λ w. (none, w);
  reconcile_all = λ w. (none, w);
  ensure_volume = λ id w. (ok (record { id = id; mount_dir = "" }), w);
  attach = λ h role w. (none, w);
  detach = λ h w. (none, w);
  mountinfo = λ w. ok [];
  stat = λ path w. none;
  remove = λ path w. (none, w);
  is_not_implemented = λ e. nat_eq e 1;
  is_not_exist = λ e. nat_eq e 2;
  is_unavailable = λ e. nat_eq e 3;
}

abbrev repos : Repos deps
repos = record {
  Staleness = Bool;
  StalenessUpdate = Bool;
  RemoteConfig = String;
  AppRecord = String;
  Report = Bool;
  is_initialized = λ w. ok true;
  password_hash = λ w. ok "";
  staleness = λ w. ok false;
  current_config = λ w. ok "";
  list_apps = λ w. ok [];
  set_initialized = λ w. (none, w + 1);
  save_password_hash = λ hash w. (none, w + 1);
  update_staleness = λ update w. (none, w + 1);
  save_config = λ config w. (none, w + 1);
  upsert_app = λ app w. (none, w + 1);
  lock = none;
  unlock = none;
  quick_check = none;
  unknown_report = false;
}

abbrev fresh : Module
fresh = record {
  control_handle = record { id = "control"; mount_dir = "/mounts/control" };
  bootstrap_handle = record { id = "bootstrap"; mount_dir = "/mounts/bootstrap" };
  lock_state = true;
  roles = [];
  published = lock_state_changed true ∷ [];
  last_commit_revision = 0;
}

abbrev give : ℕ → Result ℕ Artifact × ℕ
give w = (ok (record { path = "/exports/a"; kind = "" }), w)

-- A revision read late is published before an earlier one, and a lock state before the one set last.
abbrev moves : List Move
moves =
    committing leader 5 "a"
    ∷ committing leader 7 "b"
    ∷ committing follower 6 "c"
    ∷ setting true
    ∷ setting false
    ∷ publishing 0
    ∷ publishing 0
    ∷ leading follower
    ∷ publishing 0
    ∷ publishing 0
    ∷ []

-- Nothing waits, the module is unlocked, and yet the last announcement is that it is locked; revision 7 was
-- announced before 5.
moved : run moves (started []) ≡ record {
  core = record (new_module (set kernel follower [])) {
    lock_state = false;
    last_commit_revision = 7;
    published =
        control_store_commit 5 "a" leader
        ∷ control_store_commit 7 "b" leader
        ∷ lock_state_changed true
        ∷ lock_state_changed false
        ∷ [];
  };
  pending = [];
}
unfolding run move waiting pick behind publish_picked record_commit publish new_module
moved = refl

abbrev mounts : List Mount
mounts =
    record {
      id = codes "22";
      parent = codes "1";
      device = codes "0:21";
      root = codes "/";
      path = codes "/mnt/my disk";
      rest = codes "rw shared:7 - fuse gocryptfs rw";
    }
    ∷ []

is_mount_point-table_of_example :
    is_mount_point {E = ℕ} (ok (table_of mounts)) (codes "/mnt/my disk")
    ≡ ok (mounted_at (codes "/mnt/my disk") mounts)
is_mount_point-table_of_example = is_mount_point-table_of (codes "/mnt/my disk") mounts (
  record {
    id = (refl, refl);
    parent = (refl, refl);
    device = (refl, refl);
    root = (refl, refl);
    rest = refl;
  },
  tt,
)

-- The mount comes up before the fourth poll.
abbrev poll : ℕ → Result ℕ Bool
poll i = ok (ltb 2 i)

abbrev clock : ℕ → ℕ
clock i = 1000 + 60 * i

wait_for_mount_ready-ends_example :
    (r : Result (WaitError ℕ) (Unit {0})) × (wait_for_mount_ready poll clock 1000 5000 102 ≡ some r)
    × Reason poll clock 6000 r
wait_for_mount_ready-ends_example =
    wait_for_mount_ready-ends poll clock 1000 5000 (λ i. omega arith)

-- The bootstrap volume is mounted, and an export of everything detaches it.
abbrev mounted_deps : Deps
mounted_deps = record deps {
  mountinfo = λ w. ok (codes "7 1 0:5 / /mounts/bootstrap rw - fuse a rw");
}

abbrev open_module : Module
open_module = record fresh {
  control_handle = record { id = "control"; mount_dir = "" };
  lock_state = false;
}

exported_unlocked : run_export_with_lock mounted_deps true (some give) open_module 4 ≡ (
  ok (record { path = "/exports/a"; kind = "" }),
  record open_module {
    published = lock_state_changed false ∷ lock_state_changed true ∷ open_module.published;
  },
  4,
)
unfolding run_export_with_lock detach_volume_if_mounted has_mount attach_control_volume
    attach_bootstrap_volume is_mount_point piccolod.Persistence.Service.publish_lock_state
    piccolod.Auth.Password.split piccolod.Common.text_eq
exported_unlocked = refl

run_export_with_lock-Exported_example :
    Exported mounted_deps true give open_module 4
      (run_export_with_lock mounted_deps true (some give) open_module 4)
run_export_with_lock-Exported_example =
    run_export_with_lock-Exported mounted_deps true give open_module 4
