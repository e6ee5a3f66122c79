-- ===== src/Api.antt =====
-- internal/api/types.go: what an app.yaml says of an app, as far as the modelled parts read it.
pub mod App
use piccolod.Common.{ℕ, String, ◌≡◌, Bool, true, false, Option, List, ◌↔◌, Eq, arith}
use piccolod.Common.Int.{ℤ}
use piccolod.Common.Map.{Map}

pub data ListenerFlow : Type 0 where
  flow_unknown flow_tcp flow_tls : ListenerFlow

pub data ListenerProtocol : Type 0 where
  protocol_unknown protocol_raw protocol_http protocol_websocket : ListenerProtocol

-- The parameters of a middleware are read by nothing that is modelled.
pub record AppProtocolMiddleware : Type 0 where
  pub name : String

pub record AppListener : Type 0 where
  pub name : String
  pub guest_port : ℤ
  pub flow : ListenerFlow
  pub protocol : ListenerProtocol
  pub middleware : List AppProtocolMiddleware
  pub remote_ports : List ℤ

abbrev pub flow_eq : ListenerFlow → ListenerFlow → Bool
flow_eq flow_unknown flow_unknown = true
flow_eq flow_tcp flow_tcp = true
flow_eq flow_tls flow_tls = true
flow_eq _ _ = false

abbrev pub protocol_eq : ListenerProtocol → ListenerProtocol → Bool
protocol_eq protocol_unknown protocol_unknown = true
protocol_eq protocol_raw protocol_raw = true
protocol_eq protocol_http protocol_http = true
protocol_eq protocol_websocket protocol_websocket = true
protocol_eq _ _ = false

pub flow_eq_iff : (a b : ListenerFlow) → (flow_eq a b ≡ true) ↔ (a ≡ b)
flow_eq_iff a b = ground arith

pub protocol_eq_iff : (a b : ListenerProtocol) → (protocol_eq a b ≡ true) ↔ (a ≡ b)
protocol_eq_iff a b = ground arith
