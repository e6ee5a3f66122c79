-- ===== src/Persistence/Composed.antt =====
-- internal/persistence: the module of service.go over the volume manager of file_volume_manager.go.
-- ControlStore stands for the control store; the world of both is the store of the volumes, with the
-- crypt manager in it. No volume operation returns ErrNotImplemented.
pub mod Crypto
pub mod Unlocking
use piccolod.Common.{ℕ, String, Bool, true, false, Option, none, some, List, Result, ok, err}
use piccolod.Crypt.Platform.{Platform}
use piccolod.Persistence.Service.{Deps}
use piccolod.Persistence.Volumes.{VolumeError, system, Host, Store}
use piccolod.Persistence.Volumes.Manager.{is_unavailable, attach, detach}
use piccolod.Persistence.Volumes.Reconcile.{ensure_volume, reconcile_all_volume_states}

pub record ControlStore (l : Platform) (h : Host l) : Type 0 where
  pub lockable : Bool
  pub lock : Store l h → Store l h
  pub unlock : Store l h → Option (VolumeError l.E) × Store l h
  pub revision : Option (Store l h → Result (VolumeError l.E) (ℕ × String))
  pub close : Store l h → Option (VolumeError l.E) × Store l h

module _ (l : Platform) (h : Host l) (c : ControlStore l h) where
  abbrev pub error_of :
      {A : Type 0} → Result (VolumeError l.E) A × Store l h → Option (VolumeError l.E) × Store l h
  error_of (ok a, s) = (none, s)
  error_of (err e, s) = (some e, s)

  abbrev pub lifted : Option l.E → Option (VolumeError l.E)
  lifted none = none
  lifted (some e) = some (system e)

  abbrev pub on_disk : Store l h → Option l.E × h.W → Option (VolumeError l.E) × Store l h
  on_disk s (o, w) = (lifted o, record s { disk = w })

  abbrev pub table : Result l.E (List ℕ) → Result (VolumeError l.E) (List ℕ)
  table (ok t) = ok t
  table (err e) = err (system e)

  abbrev pub missing : VolumeError l.E → Bool
  missing (system e) = h.is_not_exist e
  missing e = false

  abbrev pub volume_deps : Deps
  volume_deps = record {
    W = Store l h;
    E = VolumeError l.E;
    lockable = c.lockable;
    store_lock = c.lock;
    store_unlock = c.unlock;
    revision = c.revision;
    store_close = c.close;
    reconcile_all = λ s. error_of (reconcile_all_volume_states l h s);
    ensure_volume = λ id s. ensure_volume l h id s;
    attach = λ handle role s. error_of (attach l h handle role s);
    detach = λ handle s. error_of (detach l h handle s);
    mountinfo = λ s. table (h.mountinfo s.disk);
    stat = λ path s. lifted (h.stat path s.disk);
    remove = λ path s. on_disk s (h.remove path s.disk);
    is_not_implemented = λ e. false;
    is_not_exist = missing;
    is_unavailable = is_unavailable;
  }
