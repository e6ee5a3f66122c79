-- ===== src/App/Parser/Listeners.antt =====
-- parser.go, validateListeners, against a description of the lists of listeners.
use piccolod.Common.{
  ℕ, ◌+◌, ◌≡◌, ◌≢◌, ◌↔◌, inl, inr, refl, sym, String, true, false, not, ◌&&◌, Option, none, some,
  List, [], ◌∷◌, map, All, Occurs, Distinct, ok, err, ◌>>◌, is_blank, Eq-string, arith, Eq-cases,
  eq_iff,
}
use piccolod.Common.Int.{ℤ, Eq-int, int_leb, int_gtb, int_eq_iff}
use piccolod.Common.Map.{Map, contains, lookup, insert, contains-insert, lookup-insert}
use piccolod.Api.{
  AppListener, AppProtocolMiddleware, ListenerFlow, ListenerProtocol, flow_unknown,
  protocol_unknown,
}
use piccolod.App.Parser.{
  validate_listeners, validate_listeners_from, validate_middleware, port_unused, is_known_flow,
  is_known_protocol, guard-then, then_guard, listener_name_required, duplicate_listener,
  bad_guest_port, bad_flow, bad_protocol, middleware_name_required, Check,
}

abbrev pub IsNamed : AppProtocolMiddleware → Type 0
IsNamed m = is_blank m.name ≡ false

-- What is asked of one listener by itself.
pub record IsListener (l : AppListener) : Type 0 where
  pub named : is_blank l.name ≡ false
  pub port_range : (int_gtb l.guest_port 0 && int_leb l.guest_port 65535) ≡ true
  pub flow : l.flow ≢ flow_unknown
  pub protocol : l.protocol ≢ protocol_unknown
  pub middleware : All IsNamed l.middleware

abbrev pub listener_names : List AppListener → List String
listener_names = map (λ l. l.name)

abbrev pub guest_ports : List AppListener → List ℤ
guest_ports = map (λ l. l.guest_port)

-- What is asked of a list of listeners.
pub record AreListeners (ls : List AppListener) : Type 0 where
  pub each : All IsListener ls
  pub names : Distinct (listener_names ls)
  pub ports : Distinct (guest_ports ls)

-- Names and guest ports that were not met before.
abbrev Fresh : Map String (Unit {0}) → Map ℤ String → List AppListener → Type 0
Fresh names ports = All λ l. (contains l.name names ≡ false) × (lookup l.guest_port ports ≡ none)

middleware-IsNamed :
    (name : String) (j : ℕ) (ms : List AppProtocolMiddleware)
    → (validate_middleware name j ms ≡ ok tt) ↔ All IsNamed ms
unfolding validate_middleware
middleware-IsNamed name j [] = ((λ _. tt), λ _. refl)
middleware-IsNamed name j (m ∷ ms) =
    let iff = middleware-IsNamed name (j + 1) ms in
    (
      (λ h.
          let (a, b) = guard-then (not (is_blank m.name)) (middleware_name_required name j) _ h in
          (ground (arith, a), iff.0 b)),
      λ h. then_guard _ _ _ (rw h.0) (iff.1 h.1),
    )

known_flow : (f : ListenerFlow) → (is_known_flow f ≡ true) ↔ (f ≢ flow_unknown)
unfolding is_known_flow
known_flow f = ((λ h e. ground arith), λ h. ground arith)

known_protocol : (p : ListenerProtocol) → (is_known_protocol p ≡ true) ↔ (p ≢ protocol_unknown)
unfolding is_known_protocol
known_protocol p = ((λ h e. ground arith), λ h. ground arith)

pub then->> : (c k : Check) → (c >> k) ≡ ok tt → (c ≡ ok tt) × (k ≡ ok tt)
then->> (ok _) k h = (refl, h)
then->> (err e) k h = cc

port_unused→none :
    (o : Option String) (port : ℤ) (name : String) → port_unused o port name ≡ ok tt → o ≡ none
unfolding port_unused
port_unused→none none port name h = refl
port_unused→none (some x) port name h = cc

module _ (names : Map String (Unit {0})) (ports : Map ℤ String) (name : String) (port : ℤ) where
  abbrev names' : Map String (Unit {0})
  names' = insert name tt names

  abbrev ports' : Map ℤ String
  ports' = insert port name ports

  Fresh-before : (ls : List AppListener) → Fresh names' ports' ls → Fresh names ports ls
  Fresh-before [] f = tt
  Fresh-before (l ∷ ls) (f, g) = (
    (
      ground (arith, f.0, contains-insert name l.name tt names),
      ground (arith, f.1, lookup-insert port l.guest_port name ports),
    ),
    Fresh-before ls g,
  )

  Fresh-name : (ls : List AppListener) → Fresh names' ports' ls → ¬ Occurs name (listener_names ls)
  Fresh-name [] f o = o
  Fresh-name (l ∷ ls) (f, g) (inl e) =
      ground (arith, f.0, contains-insert name l.name tt names, (eq_iff l.name name).1 (sym e))
  Fresh-name (l ∷ ls) (f, g) (inr o) = Fresh-name ls g o

  Fresh-port : (ls : List AppListener) → Fresh names' ports' ls → ¬ Occurs port (guest_ports ls)
  Fresh-port [] f o = o
  Fresh-port (l ∷ ls) (f, g) (inl e) = ground (
    arith,
    f.1,
    lookup-insert port l.guest_port name ports,
    (int_eq_iff l.guest_port port).1 (sym e),
  )
  Fresh-port (l ∷ ls) (f, g) (inr o) = Fresh-port ls g o

  Fresh-after :
      (ls : List AppListener)
      → Fresh names ports ls
      → ¬ Occurs name (listener_names ls)
      → ¬ Occurs port (guest_ports ls)
      → Fresh names' ports' ls
  Fresh-after [] f n p = tt
  Fresh-after (l ∷ ls) (f, g) n p =
      ((new_name, new_port), Fresh-after ls g (λ o. n (inr o)) (λ o. p (inr o)))
    where
      new_name : contains l.name names' ≡ false
      new_name = elim (Eq-cases l.name name) [
        | inl (e, q) ↦ absurd (n (inl (sym e)))
        | inr (e, q) ↦ ground (arith, f.0, contains-insert name l.name tt names, q)
      ]

      new_port : lookup l.guest_port ports' ≡ none
      new_port = elim (Eq-cases l.guest_port port) [
        | inl (e, q) ↦ absurd (p (inl (sym e)))
        | inr (e, q) ↦ ground (arith, f.1, lookup-insert port l.guest_port name ports, q)
      ]

accepted :
    (i : ℕ) (names : Map String (Unit {0})) (ports : Map ℤ String) (ls : List AppListener)
    → validate_listeners_from i names ports ls ≡ ok tt
    → AreListeners ls × Fresh names ports ls
unfolding validate_listeners_from
accepted i names ports [] h = (record { each = tt; names = tt; ports = tt }, tt)
accepted i names ports (l ∷ ls) h =
    let (a, h1) = guard-then (not (is_blank l.name)) (listener_name_required i) _ h in
    let (b, h2) = guard-then (not (contains l.name names)) (duplicate_listener l.name) _ h1 in
    let (c, h3) =
      guard-then (int_gtb l.guest_port 0 && int_leb l.guest_port 65535) (bad_guest_port l.name) _
        h2 in
    let (d, h4) = then->> (port_unused (lookup l.guest_port ports) l.guest_port l.name) _ h3 in
    let (e, h5) = guard-then (is_known_flow l.flow) (bad_flow l.name) _ h4 in
    let (f, h6) = guard-then (is_known_protocol l.protocol) (bad_protocol l.name) _ h5 in
    let (g, h7) = then->> (validate_middleware l.name 0 l.middleware) _ h6 in
    let (rest, fresh) =
      accepted (i + 1) (insert l.name tt names) (insert l.guest_port l.name ports) ls h7 in
    (
      record {
        each = (
          record {
            named = ground (arith, a);
            port_range = c;
            flow = (known_flow l.flow).0 e;
            protocol = (known_protocol l.protocol).0 f;
            middleware = (middleware-IsNamed l.name 0 l.middleware).0 g;
          },
          rest.each,
        );
        names = (Fresh-name names ports l.name l.guest_port ls fresh, rest.names);
        ports = (Fresh-port names ports l.name l.guest_port ls fresh, rest.ports);
      },
      (
        (ground (arith, b), port_unused→none _ l.guest_port l.name d),
        Fresh-before names ports l.name l.guest_port ls fresh,
      ),
    )

then_then : (c k : Check) → c ≡ ok tt → k ≡ ok tt → (c >> k) ≡ ok tt
then_then c k p q = rw (p, q)

passes :
    (i : ℕ) (names : Map String (Unit {0})) (ports : Map ℤ String) (ls : List AppListener)
    → AreListeners ls
    → Fresh names ports ls
    → validate_listeners_from i names ports ls ≡ ok tt
unfolding validate_listeners_from port_unused
passes i names ports [] a f = refl
passes i names ports (l ∷ ls) a f =
    let one = a.each.0 in
    then_guard (not (is_blank l.name)) (listener_name_required i) _ (rw one.named) (
      then_guard (not (contains l.name names)) (duplicate_listener l.name) _ (rw f.0.0) (
        then_guard (int_gtb l.guest_port 0 && int_leb l.guest_port 65535) (bad_guest_port l.name) _
          one.port_range
          (then_then (port_unused (lookup l.guest_port ports) l.guest_port l.name) _ (rw f.0.1) (
            then_guard (is_known_flow l.flow) (bad_flow l.name) _ ((known_flow l.flow).1 one.flow) (
              then_guard (is_known_protocol l.protocol) (bad_protocol l.name) _
                ((known_protocol l.protocol).1 one.protocol)
                (then_then (validate_middleware l.name 0 l.middleware) _
                  ((middleware-IsNamed l.name 0 l.middleware).1 one.middleware)
                  (passes (i + 1) (insert l.name tt names) (insert l.guest_port l.name ports) ls
                    (record { each = a.each.1; names = a.names.1; ports = a.ports.1 })
                    (Fresh-after names ports l.name l.guest_port ls f.1 a.names.0 a.ports.0))))))))

Fresh-nothing : (ls : List AppListener) → Fresh [] [] ls
unfolding contains lookup
Fresh-nothing [] = tt
Fresh-nothing (l ∷ ls) = ((refl, refl), Fresh-nothing ls)

-- validateListeners accepts exactly the lists that are not empty, in which each listener has a name,
-- a guest port from 1 to 65535, a known flow and protocol and only named middleware, and in which no
-- name and no guest port occurs twice.
pub validate_listeners_iff :
    (ls : List AppListener) → (validate_listeners ls ≡ ok tt) ↔ ((ls ≢ []) × AreListeners ls)
unfolding validate_listeners
validate_listeners_iff [] = ((λ h. absurd (ground (arith, h))), λ h. absurd (h.0 refl))
validate_listeners_iff (l ∷ ls) = (
  (λ h. ((λ e. cc), (accepted 0 [] [] (l ∷ ls) h).0)),
  λ h. passes 0 [] [] (l ∷ ls) h.1 (Fresh-nothing (l ∷ ls)),
)
