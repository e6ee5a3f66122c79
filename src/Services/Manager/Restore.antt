-- ===== src/Services/Manager/Restore.antt =====
-- manager.go, RestoreFromPodman: the proxies of an app whose container already has host ports.
pub mod Keeping
use piccolod.Common.{
  ℕ, String, Bool, true, false, Option, none, some, List, [], ◌∷◌, ◌++◌, Result, ok, err, Eq-string,
  if◌then◌else◌,
}
use piccolod.Common.Int.{ℤ, Eq-int}
use piccolod.Common.Map.{Map, lookup, insert}
use piccolod.Api.{AppListener}
use piccolod.Services.Allocator.{PortAllocator, PortError, reserve_host, allocate_public, free_host}
use piccolod.Services.Types.{ServiceEndpoint, new_endpoint}
use piccolod.Services.Manager.{ServiceManager, Registry, remove_app, start_proxy, notify_publish}

-- What the loop has built: the endpoints so far, and the map that is to be registered.
pub record Restored : Type 0 where
  pub manager : ServiceManager
  pub endpoints : List ServiceEndpoint
  pub eps : Map String ServiceEndpoint

-- The publisher is told twice, as in the code.
add_restored : (ℕ → Bool) → Restored → ServiceEndpoint → Restored
add_restored binds d ep = record {
  manager = notify_publish (start_proxy binds d.manager ep) ep.public_port;
  endpoints = d.endpoints ++ ep ∷ [];
  eps = insert ep.name ep d.eps;
}

with_allocator : Restored → PortAllocator → Restored
with_allocator d a = record d { manager = record d.manager { allocator = a } }

restore_public :
    (ℕ → Bool)
    → Restored
    → String
    → AppListener
    → ℕ
    → Result PortError ℕ × PortAllocator
    → Result PortError (Unit {0}) × Restored
unfolding with_allocator add_restored
restore_public binds d app l host (err e, a) = (err e, with_allocator d (free_host a host))
restore_public binds d app l host (ok pp, a) =
    (ok tt, add_restored binds (with_allocator d a) (new_endpoint app l host pp))

restore_reserved :
    (ℕ → Bool)
    → Restored
    → String
    → AppListener
    → ℕ
    → Result PortError PortAllocator
    → Result PortError (Unit {0}) × Restored
unfolding restore_public
restore_reserved binds d app l host (err e) = (ok tt, d)
restore_reserved binds d app l host (ok a) = restore_public binds d app l host (allocate_public a)

-- One listener: it is passed over if its guest port is not published, or the host port is taken.
pub restore_one :
    (ℕ → Bool) → Map ℤ ℕ → Restored → String → AppListener → Result PortError (Unit {0}) × Restored
unfolding restore_reserved
restore_one binds host_by_guest d app l = elim (lookup l.guest_port host_by_guest) [
  | none ↦ (ok tt, d)
  | some host ↦ restore_reserved binds d app l host (reserve_host d.manager.allocator host)
]

-- Goes on after a listener unless it failed.
restore_rest :
    (Restored → Result PortError (Unit {0}) × Restored)
    → Result PortError (Unit {0}) × Restored
    → Result PortError (Unit {0}) × Restored
restore_rest rest (ok _, d) = rest d
restore_rest rest (err e, d) = (err e, d)

pub restore_all :
    (ℕ → Bool)
    → Map ℤ ℕ
    → Restored
    → String
    → List AppListener
    → Result PortError (Unit {0}) × Restored
unfolding restore_rest
restore_all binds host_by_guest d app [] = (ok tt, d)
restore_all binds host_by_guest d app (l ∷ ls) =
    restore_rest (λ d'. restore_all binds host_by_guest d' app ls)
      (restore_one binds host_by_guest d app l)

register_restored : String → Map String ServiceEndpoint → ServiceManager → ServiceManager
register_restored app [] m = m
register_restored app eps m = record m { registry = insert app eps m.registry }

-- Nothing is registered if a listener failed, and the endpoints so far are returned all the same.
close_restore :
    String
    → Result PortError (Unit {0}) × Restored
    → Option PortError × List ServiceEndpoint × ServiceManager
unfolding register_restored
close_restore app (ok _, d) = (none, d.endpoints, register_restored app d.eps d.manager)
close_restore app (err e, d) = (some e, d.endpoints, d.manager)

-- RemoveApp has returned, and given up its mutex, before the rest is done under the mutex again. Here both
-- are one step, with nothing else in between.
pub restore_from_podman :
    (ℕ → Bool)
    → ServiceManager
    → String
    → List AppListener
    → Map ℤ ℕ
    → Option PortError × List ServiceEndpoint × ServiceManager
unfolding close_restore
restore_from_podman binds m app ls host_by_guest =
    let start : Restored = record { manager = remove_app m app; endpoints = []; eps = [] } in
    close_restore app (restore_all binds host_by_guest start app ls)
