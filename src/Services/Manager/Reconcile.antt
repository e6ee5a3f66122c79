-- ===== src/Services/Manager/Reconcile.antt =====
-- manager.go, Reconcile: the listeners of an app are changed in place.
pub mod Keeping
pub mod Names
pub mod Leak
use piccolod.Common.{
  ℕ, String, Bool, true, false, not, ◌&&◌, ◌||◌, Option, none, some, List, [], ◌∷◌, ◌++◌, Result,
  ok, err, map, Eq-string, ◌==◌, if◌then◌else◌,
}
use piccolod.Common.Int.{Eq-int}
use piccolod.Common.Map.{Map, lookup, insert, contains}
use piccolod.Api.{AppListener, AppProtocolMiddleware, flow_eq, protocol_eq}
use piccolod.Services.Allocator.{PortAllocator, PortError, allocate_pair}
use piccolod.Services.Types.{ServiceEndpoint, new_endpoint, default_remote_ports}
use piccolod.Services.Manager.{
  ServiceManager, Registry, listeners_of, start_proxy, stop_proxy, notify_publish,
}
use piccolod.Services.Proxy.{stop_port}

pub record ReconcileResult : Type 0 where
  pub endpoints : List ServiceEndpoint
  pub added : List ServiceEndpoint
  pub removed : List ServiceEndpoint
  pub guest_port_changed : List (ServiceEndpoint × ServiceEndpoint)
  pub proxy_only_changed : List ServiceEndpoint

-- What the loop has built so far. `new_map` is registered at the end of the call.
pub record Draft : Type 0 where
  pub manager : ServiceManager
  pub new_map : Map String ServiceEndpoint
  pub container_change : Bool
  pub result : ReconcileResult

-- The names are compared, not the parameters.
unfoldable pub middleware_equal : List AppProtocolMiddleware → List AppProtocolMiddleware → Bool
middleware_equal [] [] = true
middleware_equal (x ∷ xs) (y ∷ ys) = x.name == y.name && middleware_equal xs ys
middleware_equal _ _ = false

unfoldable pub proxy_changed : ServiceEndpoint → AppListener → Bool
unfolding middleware_equal
proxy_changed ep l =
    not (flow_eq ep.flow l.flow)
    || not (protocol_eq ep.protocol l.protocol)
    || not (middleware_equal ep.middleware l.middleware)

unfoldable pub reconfigure : ServiceEndpoint → AppListener → ServiceEndpoint
reconfigure ep l = record ep {
  guest_port = l.guest_port;
  flow = l.flow;
  protocol = l.protocol;
  middleware = l.middleware;
  remote_ports = default_remote_ports l;
}

unfoldable pub note_guest_port : String → ServiceEndpoint → AppListener → Draft → Draft
note_guest_port app old l d = if old.guest_port == l.guest_port then d else record d {
  container_change = true;
  result = record d.result {
    guest_port_changed =
        d.result.guest_port_changed ++ (old, new_endpoint app l old.host_bind old.public_port) ∷ [];
  };
}

unfoldable pub restart_proxy : (ℕ → Bool) → Bool → ServiceEndpoint → Draft → Draft
restart_proxy binds false ep d = d
restart_proxy binds true ep d = record d {
  manager =
      start_proxy binds (record d.manager { proxies = stop_port d.manager.proxies ep.public_port })
        ep;
  result = record d.result { proxy_only_changed = d.result.proxy_only_changed ++ ep ∷ [] };
}

-- A listener that is there keeps its ports.
unfoldable pub reuse_ports : (ℕ → Bool) → String → Draft → AppListener → ServiceEndpoint → Draft
unfolding note_guest_port restart_proxy proxy_changed reconfigure
reuse_ports binds app d l old =
    let ep = reconfigure old l in
    let d' = note_guest_port app old l d in
    restart_proxy binds (proxy_changed old l) ep
      (record d' { new_map = insert l.name ep d'.new_map })

-- A new listener gets ports; the publisher is told twice, as in the code.
unfoldable pub new_ports :
    (ℕ → Bool)
    → String
    → Draft
    → AppListener
    → Result PortError (ℕ × ℕ) × PortAllocator
    → Result PortError (Unit {0}) × Draft
new_ports binds app d l (err e, a) =
    (err e, record d { manager = record d.manager { allocator = a } })
new_ports binds app d l (ok (hb, pp), a) =
    let ep = new_endpoint app l hb pp in
    (
      ok tt,
      record d {
        manager =
            notify_publish (start_proxy binds (record d.manager { allocator = a }) ep)
              ep.public_port;
        new_map = insert l.name ep d.new_map;
        container_change = true;
        result = record d.result { added = d.result.added ++ ep ∷ [] };
      },
    )

unfoldable pub reconcile_one :
    (ℕ → Bool)
    → String
    → Map String ServiceEndpoint
    → Draft
    → AppListener
    → Result PortError (Unit {0}) × Draft
unfolding reuse_ports new_ports
reconcile_one binds app existing d l = elim (lookup l.name existing) [
  | some old ↦ (ok tt, reuse_ports binds app d l old)
  | none ↦ new_ports binds app d l (allocate_pair d.manager.allocator)
]

unfoldable pub reconcile_rest :
    (Draft → Result PortError (Unit {0}) × Draft)
    → Result PortError (Unit {0}) × Draft
    → Result PortError (Unit {0}) × Draft
reconcile_rest rest (ok _, d) = rest d
reconcile_rest rest (err e, d) = (err e, d)

unfoldable pub reconcile_all :
    (ℕ → Bool)
    → String
    → Map String ServiceEndpoint
    → Draft
    → List AppListener
    → Result PortError (Unit {0}) × Draft
unfolding reconcile_rest
reconcile_all binds app existing d [] = (ok tt, d)
reconcile_all binds app existing d (l ∷ ls) =
    reconcile_rest (λ d'. reconcile_all binds app existing d' ls)
      (reconcile_one binds app existing d l)

-- The listeners that are gone: their proxies stop. Their ports are not given back.
unfoldable pub drop_removed : Map String ServiceEndpoint → Draft → Draft
drop_removed [] d = d
drop_removed ((name, ep) ∷ eps) d = drop_removed eps (
    if contains name d.new_map then d else record d {
      manager = stop_proxy d.manager ep;
      container_change = true;
      result = record d.result { removed = d.result.removed ++ ep ∷ [] };
    })

unfoldable pub values : Map String ServiceEndpoint → List ServiceEndpoint
values = map (λ entry. entry.1)

-- A failed listener ends the call before anything is registered.
unfoldable pub close_reconcile :
    String
    → Map String ServiceEndpoint
    → Result PortError (Unit {0}) × Draft
    → Result PortError (ReconcileResult × Bool) × ServiceManager
unfolding values
close_reconcile app existing (err e, d) = (err e, d.manager)
close_reconcile app existing (ok _, d) =
    let d' = drop_removed existing d in
    (
      ok (record d'.result { endpoints = values d'.new_map }, d'.container_change),
      record d'.manager { registry = insert app d'.new_map d'.manager.registry },
    )

unfoldable pub start_draft : ServiceManager → Draft
start_draft m = record {
  manager = m;
  new_map = [];
  container_change = false;
  result = record {
    endpoints = [];
    added = [];
    removed = [];
    guest_port_changed = [];
    proxy_only_changed = [];
  };
}

unfoldable pub reconcile :
    (ℕ → Bool)
    → ServiceManager
    → String
    → List AppListener
    → Result PortError (ReconcileResult × Bool) × ServiceManager
unfolding close_reconcile start_draft
reconcile binds m app ls =
    let existing = listeners_of m.registry app in
    close_reconcile app existing (reconcile_all binds app existing (start_draft m) ls)
