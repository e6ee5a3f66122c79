-- ===== src/Services/Manager.antt =====
-- internal/services/manager.go: the registry of listeners, which the allocator, the proxies and the
-- remote publisher are kept in step with. The locks, goroutines and logs are not modelled: each
-- method runs under the mutex, and is one step. `binds` tells which ports net.Listen can bind.
pub mod Restore
pub mod Reconcile
pub mod Lookup
pub mod Ledger
pub mod Entries
pub mod Asked
pub mod Consistency
use piccolod.Common.{
  ℕ, String, Bool, true, false, Option, none, some, List, [], ◌∷◌, ◌++◌, Result, ok, err, ltb, ◌&&◌,
  Eq-string, Eq-nat, if◌then◌else◌,
}
use piccolod.Common.Int.{Eq-int}
use piccolod.Common.Map.{Map, lookup, insert, delete}
use piccolod.Api.{AppListener}
use piccolod.Services.Allocator.{
  PortRange, PortAllocator, PortError, new_port_allocator, allocate_pair, allocate_public,
  reserve_host, free_host, release,
}
use piccolod.Services.Types.{ServiceEndpoint, new_endpoint}
use piccolod.Services.Proxy.{ProxyManager, new_proxy_manager, start_listener, stop_port}

-- What the remote publisher and unpublisher were told.
pub data Notice : Type 0 where
  publish unpublish : ℕ → Notice

abbrev pub Registry : Type 0
Registry = Map String (Map String ServiceEndpoint)

-- `publishes` and `unpublishes` tell whether a publisher and an unpublisher are set; `notices` are
-- the calls of them, the newest first.
pub record ServiceManager : Type 0 where
  pub allocator : PortAllocator
  pub registry : Registry
  pub proxies : ProxyManager
  pub container_ids : Map String String
  pub publishes : Bool
  pub unpublishes : Bool
  pub notices : List Notice

abbrev pub host_bind_range : PortRange
host_bind_range = record { start = 15000; stop = 25000 }

abbrev pub public_range : PortRange
public_range = record { start = 35000; stop = 45000 }

unfoldable pub new_service_manager : ServiceManager
unfolding new_proxy_manager
new_service_manager = record {
  allocator = new_port_allocator host_bind_range public_range;
  registry = [];
  proxies = new_proxy_manager;
  container_ids = [];
  publishes = false;
  unpublishes = false;
  notices = [];
}

unfoldable pub notify_publish : ServiceManager → ℕ → ServiceManager
notify_publish m port =
    if m.publishes && ltb 0 port then record m { notices = publish port ∷ m.notices } else m

unfoldable pub notify_unpublish : ServiceManager → ℕ → ServiceManager
notify_unpublish m port =
    if m.unpublishes && ltb 0 port then record m { notices = unpublish port ∷ m.notices } else m

-- The proxy of an endpoint is started, or stopped, and its port made known.
unfoldable pub start_proxy : (ℕ → Bool) → ServiceManager → ServiceEndpoint → ServiceManager
unfolding notify_publish
start_proxy binds m ep =
    notify_publish (record m { proxies = start_listener binds m.proxies ep }) ep.public_port

unfoldable pub stop_proxy : ServiceManager → ServiceEndpoint → ServiceManager
unfolding notify_unpublish
stop_proxy m ep =
    notify_unpublish (record m { proxies = stop_port m.proxies ep.public_port }) ep.public_port

-- The endpoints of an app; none if it has no entry, as a read of a nil map.
unfoldable pub listeners_of : Registry → String → Map String ServiceEndpoint
listeners_of r app = elim (lookup app r) [ none ↦ [] | some eps ↦ eps ]

unfoldable pub put_endpoint : Registry → String → ServiceEndpoint → Registry
unfolding listeners_of
put_endpoint r app ep = insert app (insert ep.name ep (listeners_of r app)) r

unfoldable pub add_endpoint :
    ServiceEndpoint
    → Result PortError (List ServiceEndpoint) × ServiceManager
    → Result PortError (List ServiceEndpoint) × ServiceManager
add_endpoint ep (ok eps, m) = (ok (ep ∷ eps), m)
add_endpoint ep (err e, m) = (err e, m)

-- One listener of AllocateForApp, and then the rest of them. A listener that gets no ports ends the
-- call, and what was registered before it stays.
unfoldable pub register_next :
    (ServiceManager → Result PortError (List ServiceEndpoint) × ServiceManager)
    → ServiceManager
    → String
    → AppListener
    → Result PortError (ℕ × ℕ) × PortAllocator
    → Result PortError (List ServiceEndpoint) × ServiceManager
unfolding add_endpoint
register_next rest m app l (err e, a) = (err e, record m { allocator = a })
register_next rest m app l (ok (hb, pp), a) =
    let ep = new_endpoint app l hb pp in
    add_endpoint ep (rest (record m { allocator = a; registry = put_endpoint m.registry app ep }))

unfoldable pub register_all :
    ServiceManager
    → String
    → List AppListener
    → Result PortError (List ServiceEndpoint) × ServiceManager
unfolding register_next
register_all m app [] = (ok [], m)
register_all m app (l ∷ ls) =
    register_next (λ m'. register_all m' app ls) m app l (allocate_pair m.allocator)

unfoldable pub start_proxies : (ℕ → Bool) → ServiceManager → List ServiceEndpoint → ServiceManager
start_proxies binds m [] = m
start_proxies binds m (ep ∷ eps) = start_proxies binds (start_proxy binds m ep) eps

unfoldable pub start_if_ok :
    (ℕ → Bool)
    → Result PortError (List ServiceEndpoint) × ServiceManager
    → Result PortError (List ServiceEndpoint) × ServiceManager
start_if_ok binds (ok eps, m) = (ok eps, start_proxies binds m eps)
start_if_ok binds (err e, m) = (err e, m)

-- Proxies are started once all listeners are registered.
unfoldable pub allocate_for_app :
    (ℕ → Bool)
    → ServiceManager
    → String
    → List AppListener
    → Result PortError (List ServiceEndpoint) × ServiceManager
unfolding start_if_ok
allocate_for_app binds m app ls = start_if_ok binds (register_all m app ls)

pub release_endpoint : ServiceManager → ServiceEndpoint → ServiceManager
release_endpoint m ep =
    stop_proxy (record m { allocator = release m.allocator ep.host_bind ep.public_port }) ep

pub release_endpoints : ServiceManager → Map String ServiceEndpoint → ServiceManager
unfolding release_endpoint
release_endpoints m [] = m
release_endpoints m ((name, ep) ∷ eps) = release_endpoints (release_endpoint m ep) eps

pub remove_app : ServiceManager → String → ServiceManager
unfolding release_endpoints
remove_app m app = elim (lookup app m.registry) [
  | none ↦ record m { container_ids = delete app m.container_ids }
  | some eps ↦
      let m' = release_endpoints m eps in
      record m' { registry = delete app m'.registry; container_ids = delete app m'.container_ids }
]

pub reserve_host_port : ServiceManager → ℕ → Result PortError ServiceManager
reserve_host_port m port = elim (reserve_host m.allocator port) [
  | err e ↦ err e
  | ok a ↦ ok (record m { allocator = a })
]

pub set_app_container_id : ServiceManager → String → String → ServiceManager
set_app_container_id m app id = record m { container_ids = insert app id m.container_ids }
