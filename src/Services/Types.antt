-- ===== src/Services/Types.antt =====
-- internal/services/types.go: an allocated listener, and how manager.go builds one.
use piccolod.Common.{ℕ, String, List, [], ◌∷◌}
use piccolod.Common.Int.{ℤ, pos}
use piccolod.Api.{ListenerFlow, ListenerProtocol, AppProtocolMiddleware, AppListener}

pub record ServiceEndpoint : Type 0 where
  pub app : String
  pub name : String
  pub guest_port : ℤ
  pub host_bind : ℕ
  pub public_port : ℕ
  pub flow : ListenerFlow
  pub protocol : ListenerProtocol
  pub middleware : List AppProtocolMiddleware
  pub remote_ports : List ℤ

unfoldable pub or_web_ports : List ℤ → List ℤ
or_web_ports [] = pos 80 ∷ pos 443 ∷ []
or_web_ports (p ∷ ps) = p ∷ ps

unfoldable pub default_remote_ports : AppListener → List ℤ
unfolding or_web_ports
default_remote_ports l = or_web_ports l.remote_ports

unfoldable pub new_endpoint : String → AppListener → ℕ → ℕ → ServiceEndpoint
new_endpoint app l hb pp = record {
  app = app;
  name = l.name;
  guest_port = l.guest_port;
  host_bind = hb;
  public_port = pp;
  flow = l.flow;
  protocol = l.protocol;
  middleware = l.middleware;
  remote_ports = default_remote_ports l;
}
