-- ===== src/Services/Proxy.antt =====
-- internal/services/proxy.go: which public ports are served, for which endpoint, and the one-time
-- hints on connections. Copying the traffic is not modelled. Whether net.Listen binds a port is the
-- argument `binds`.
pub mod Hints
use piccolod.Common.{ℕ, Bool, true, Option, none, some, [], Eq-nat, ltb, if◌then◌else◌}
use piccolod.Common.Map.{Map, lookup, contains, insert, delete}
use piccolod.Services.Types.{ServiceEndpoint}

pub record ConnectionHint : Type 0 where
  pub is_tls : Bool
  pub remote_port : ℕ

pub record ProxyManager : Type 0 where
  pub listeners : Map ℕ ServiceEndpoint
  pub hints : Map ℕ (Map ℕ ConnectionHint)

unfoldable pub new_proxy_manager : ProxyManager
new_proxy_manager = record { listeners = []; hints = [] }

pub hints_of : ProxyManager → ℕ → Map ℕ ConnectionHint
hints_of p port = elim (lookup port p.hints) [ none ↦ [] | some m ↦ m ]

pub register_hint : ProxyManager → ℕ → ℕ → ConnectionHint → ProxyManager
unfolding hints_of
register_hint p port source hint =
    if ltb 0 source
    then record p { hints = insert port (insert source hint (hints_of p port)) p.hints }
    else p

-- An inner map that becomes empty is dropped.
pub put_or_drop :
    ℕ → Map ℕ ConnectionHint → Map ℕ (Map ℕ ConnectionHint) → Map ℕ (Map ℕ ConnectionHint)
put_or_drop port [] hints = delete port hints
put_or_drop port m hints = insert port m hints

pub take_hint :
    ProxyManager → ℕ → ℕ → Option (Map ℕ ConnectionHint) → Option ConnectionHint × ProxyManager
unfolding put_or_drop
take_hint p port source none = (none, p)
take_hint p port source (some m) = elim (lookup source m) [
  | none ↦ (none, p)
  | some hint ↦ (some hint, record p { hints = put_or_drop port (delete source m) p.hints })
]

pub consume_hint : ProxyManager → ℕ → ℕ → Option ConnectionHint × ProxyManager
unfolding take_hint
consume_hint p port source = take_hint p port source (lookup port p.hints)

-- A port that is served already keeps its listener; one that cannot be bound is logged only.
unfoldable pub start_listener : (ℕ → Bool) → ProxyManager → ServiceEndpoint → ProxyManager
start_listener binds p ep =
    if contains ep.public_port p.listeners
    then p
    else if binds ep.public_port
    then record p { listeners = insert ep.public_port ep p.listeners }
    else p

unfoldable pub stop_port : ProxyManager → ℕ → ProxyManager
stop_port p port = record p { listeners = delete port p.listeners; hints = delete port p.hints }
