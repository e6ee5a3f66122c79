-- ===== src/Services/Manager/Consistency/Histories.antt =====
-- Any history of the operations of the service manager that change it, each of them one step.
use piccolod.Common.{
  ℕ, String, ◌≡◌, ◌⊎◌, refl, Bool, List, [], ◌∷◌, Result, ok, err, some, inl, inr, arith,
}
use piccolod.Common.Int.{ℤ}
use piccolod.Common.Map.{Map}
use piccolod.Api.{AppListener}
use piccolod.Services.Allocator.{PortAllocator, PortError, reserve_host}
use piccolod.Services.Allocator.Pairs.{
  ReservesHost, reserve_host-ReservesHost, new_port_allocator-IsSound,
}
use piccolod.Services.Types.{ServiceEndpoint}
use piccolod.Services.Manager.{
  ServiceManager, new_service_manager, host_bind_range, public_range, allocate_for_app, remove_app,
  reserve_host_port, set_app_container_id,
}
use piccolod.Services.Manager.Restore.{restore_from_podman}
use piccolod.Services.Manager.Restore.Keeping.{restore_from_podman-IsConsistent}
use piccolod.Services.Manager.Reconcile.{reconcile}
use piccolod.Services.Manager.Reconcile.Keeping.{reconcile-IsConsistent}
use piccolod.Services.Manager.Lookup.{get_app_listener, get_app_listener-Registered}
use piccolod.Services.Manager.Ledger.{Ledger-reserve, Ledger-same}
use piccolod.Services.Manager.Consistency.{IsConsistent}
use piccolod.Services.Manager.Consistency.Allocation.{allocate_for_app-IsConsistent}
use piccolod.Services.Manager.Consistency.Removal.{remove_app-IsConsistent}

-- A call, with the ports that net.Listen can bind during it.
pub data Call : Type 0 where
  allocates restarts : (ℕ → Bool) → String → List AppListener → Call
  restores : (ℕ → Bool) → String → List AppListener → Map ℤ ℕ → Call
  removes : String → Call
  reserves : ℕ → Call
  names_container : String → String → Call

pub kept : ServiceManager → Result PortError ServiceManager → ServiceManager
kept m (ok m') = m'
kept m (err e) = m

unfoldable pub step : ServiceManager → Call → ServiceManager
unfolding kept
step m (allocates binds app ls) = (allocate_for_app binds m app ls).1
step m (restarts binds app ls) = (reconcile binds m app ls).1
step m (restores binds app ls host_by_guest) = (restore_from_podman binds m app ls host_by_guest).2
step m (removes app) = remove_app m app
step m (reserves port) = kept m (reserve_host_port m port)
step m (names_container app id) = set_app_container_id m app id

unfoldable pub run : ServiceManager → List Call → ServiceManager
run m [] = m
run m (c ∷ cs) = run (step m c) cs

reserved-IsConsistent :
    (m : ServiceManager) (port : ℕ) (r : Result PortError PortAllocator)
    → reserve_host m.allocator port ≡ r
    → ReservesHost m.allocator port r
    → IsConsistent m
    → IsConsistent (kept m (reserve_host_port m port))
unfolding kept reserve_host_port
reserved-IsConsistent m port (err e) q g k = rw (q, kept) k
reserved-IsConsistent m port (ok a) q g k =
    rw (q, kept)
      (record { host = Ledger-reserve port g.0 k.host; public = Ledger-same g.1 k.public })

step-IsConsistent : (m : ServiceManager) (c : Call) → IsConsistent m → IsConsistent (step m c)
unfolding step set_app_container_id
step-IsConsistent m (allocates binds app ls) k = allocate_for_app-IsConsistent binds m app ls k
step-IsConsistent m (restarts binds app ls) k = reconcile-IsConsistent binds m app ls k
step-IsConsistent m (restores binds app ls host_by_guest) k =
    restore_from_podman-IsConsistent binds m app ls host_by_guest k
step-IsConsistent m (removes app) k = remove_app-IsConsistent m app k
step-IsConsistent m (reserves port) k =
    reserved-IsConsistent m port (reserve_host m.allocator port) refl
      (reserve_host-ReservesHost m.allocator port) k
step-IsConsistent m (names_container app id) k = k

-- Every call, failing or not, keeps the ports of the registered listeners used in the allocator and
-- inside its ranges, and keeps any two registered listeners on different host ports and on
-- different public ports.
pub run-IsConsistent :
    (m : ServiceManager) (cs : List Call) → IsConsistent m → IsConsistent (run m cs)
unfolding run
run-IsConsistent m [] k = k
run-IsConsistent m (c ∷ cs) k = run-IsConsistent (step m c) cs (step-IsConsistent m c k)

pub new_service_manager-IsConsistent : IsConsistent new_service_manager
unfolding new_service_manager
new_service_manager-IsConsistent =
    let s = new_port_allocator-IsSound host_bind_range public_range (omega arith) (omega arith) in
    record {
      host = record {
        well = s.host;
        used = λ a n p (e, (eps, h, i), q). absurd h;
        unique = λ a n b k p (e, (eps, h, i), q) g. absurd h;
      };
      public = record {
        well = s.public;
        used = λ a n p (e, (eps, h, i), q). absurd h;
        unique = λ a n b k p (e, (eps, h, i), q) g. absurd h;
      };
    }

-- After any history of calls on a new manager, two listeners that are found under their app and name
-- and have the same host port, or the same public port, are one and the same listener.
pub run-no_shared_ports :
    (cs : List Call) (a n b k : String) (e f : ServiceEndpoint)
    → get_app_listener (run new_service_manager cs) a n ≡ some e
    → get_app_listener (run new_service_manager cs) b k ≡ some f
    → (e.host_bind ≡ f.host_bind) ⊎ (e.public_port ≡ f.public_port)
    → (a ≡ b) × (n ≡ k)
run-no_shared_ports cs a n b k e f h g shared =
    let m = run new_service_manager cs in
    let good = run-IsConsistent new_service_manager cs new_service_manager-IsConsistent in
    let he = get_app_listener-Registered m a n e h in
    let hf = get_app_listener-Registered m b k f g in
    elim shared [
      | inl q ↦ good.host.unique a n b k f.host_bind (e, he, q) (f, hf, refl)
      | inr q ↦ good.public.unique a n b k f.public_port (e, he, q) (f, hf, refl)
    ]
