-- ===== src/Services/Manager/Lookup.antt =====
-- manager.go: the reads of the registry. The order in which Go visits a map is left open in the
-- program; here it is that of the entries.
pub mod Resolution
pub mod Registration
use piccolod.Common.{
  String, ◌≡◌, inl, inr, Bool, true, false, ◌||◌, Option, none, some, List, [], ◌∷◌, map, Eq-string,
  ◌==◌, if◌then◌else◌, arith, Option-cases,
}
use piccolod.Common.Int.{ℤ, pos, Eq-int, int_leb}
use piccolod.Common.Map.{Map, lookup, lookup-Holds}
use piccolod.Services.Types.{ServiceEndpoint}
use piccolod.Services.Manager.{ServiceManager, Registry, listeners_of}
use piccolod.Services.Manager.Entries.{Registered}

endpoints_in : Map String ServiceEndpoint → List ServiceEndpoint
endpoints_in eps = map (λ entry. entry.1) eps

pub get_by_app : ServiceManager → String → Option (List ServiceEndpoint)
unfolding endpoints_in
get_by_app m app = elim (lookup app m.registry) [ none ↦ none | some eps ↦ some (endpoints_in eps) ]

unfoldable pub get_app_listener : ServiceManager → String → String → Option ServiceEndpoint
get_app_listener m app name = elim (lookup app m.registry) [
  | none ↦ none
  | some eps ↦ lookup name eps
]

-- ACMEHTTPFallbackPort stands for port 80.
pub normalize_remote_port : ℤ → ℤ
normalize_remote_port port = if port == pos 5002 then pos 80 else port

matches_web : ℤ → Bool
matches_web port = port == pos 80 || port == pos 443

matches_any : ℤ → ℤ → List ℤ → Bool
matches_any normal original [] = false
matches_any normal original (p ∷ ps) =
    p == normal || p == original || matches_any normal original ps

matches_ports : ℤ → ℤ → List ℤ → Bool
unfolding matches_web matches_any
matches_ports normal original [] = matches_web normal
matches_ports normal original (p ∷ ps) = matches_any normal original (p ∷ ps)

pub matches_remote_port : ServiceEndpoint → ℤ → Bool
unfolding normalize_remote_port matches_ports
matches_remote_port ep port =
    if int_leb (normalize_remote_port port) 0
    then true
    else matches_ports (normalize_remote_port port) port ep.remote_ports

find_endpoint : ℤ → Map String ServiceEndpoint → Option ServiceEndpoint
find_endpoint port [] = none
find_endpoint port ((name, ep) ∷ eps) =
    if matches_remote_port ep port then some ep else find_endpoint port eps

or_else : Option ServiceEndpoint → Option ServiceEndpoint → Option ServiceEndpoint
or_else (some ep) o = some ep
or_else none o = o

find_in_apps : ℤ → Registry → Option ServiceEndpoint
unfolding find_endpoint or_else
find_in_apps port [] = none
find_in_apps port ((app, eps) ∷ r) = or_else (find_endpoint port eps) (find_in_apps port r)

pub resolve_by_remote_port : ServiceManager → ℤ → Option ServiceEndpoint
unfolding find_in_apps
resolve_by_remote_port m port = find_in_apps port m.registry

accept_listener : ℤ → Option ServiceEndpoint → Option ServiceEndpoint
accept_listener port none = none
accept_listener port (some ep) = if matches_remote_port ep port then some ep else none

find_listener : String → ℤ → Registry → Option ServiceEndpoint
unfolding accept_listener or_else
find_listener name port [] = none
find_listener name port ((app, eps) ∷ r) =
    or_else (accept_listener port (lookup name eps)) (find_listener name port r)

pub resolve_listener : ServiceManager → String → ℤ → Option ServiceEndpoint
unfolding find_listener
resolve_listener m name port = find_listener name port m.registry

pub get_app_listener-Registered :
    (m : ServiceManager) (app name : String) (ep : ServiceEndpoint)
    → get_app_listener m app name ≡ some ep
    → Registered m.registry app name ep
unfolding get_app_listener
get_app_listener-Registered m app name ep h = elim (Option-cases (lookup app m.registry)) [
  | inl e ↦ absurd (ground (arith, e))
  | inr (eps, e) ↦
      (eps, lookup-Holds app eps m.registry e, lookup-Holds name ep eps (ground (arith, e)))
]

-- A named listener is found in the map of its app.
pub get_app_listener-listeners_of :
    (m : ServiceManager) (app name : String)
    → get_app_listener m app name ≡ lookup name (listeners_of m.registry app)
unfolding get_app_listener listeners_of lookup
get_app_listener-listeners_of m app name = ground arith
