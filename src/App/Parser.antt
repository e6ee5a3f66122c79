-- ===== src/App/Parser.antt =====
-- internal/app/parser.go: defaults and validation of an app definition. Each check returns the first
-- error that the code would return. What yaml.Unmarshal makes of a file is an argument.
pub mod Sizes
pub mod Names
pub mod Listeners
pub mod Sections
pub mod Sources
pub mod Definitions
use piccolod.Common.{
  ℕ, ◌+◌, ◌≡◌, refl, String, Bool, true, false, not, ◌&&◌, ◌||◌, Option, none, some, List, [], ◌∷◌,
  ◌++◌, map, Result, ok, err, ◌>>=◌, ◌>>◌, elem, any, reverse, ltb, leb, nat_eq, ◌-◌, codes,
  byte_len, is_blank, Eq-string, ◌==◌, if◌then◌else◌,
}
use piccolod.Common.Int.{ℤ, Eq-int, int_leb, int_gtb}
use piccolod.Common.Map.{Map, lookup, contains, insert}
use piccolod.Api.{
  ListenerFlow, flow_unknown, flow_tcp, flow_tls, ListenerProtocol, protocol_unknown, protocol_raw,
  protocol_http, protocol_websocket, AppProtocolMiddleware, AppListener,
}
use piccolod.Api.App.{
  AppBuild, AppVolume, AppStorage, AppNetworkPermissions, AppResourcePermissions, AppPermissions,
  AppResourceLimits, AppResources, AppDefinition,
}
use piccolod.App.Regex.{Regex, one, many, seq, alt, full_match}

pub data SizeError : Type 0 where
  no_number negative_size no_unit : SizeError

pub data AppError : Type 0 where
  not_yaml : AppError
  name_required name_too_long name_pattern name_reserved : AppError
  no_image_or_build image_and_build containerfile_and_git no_build_source : AppError
  bad_type : String → AppError
  listeners_required : AppError
  listener_name_required : ℕ → AppError
  duplicate_listener bad_guest_port bad_flow bad_protocol : String → AppError
  guest_port_used : ℤ → String → String → AppError
  middleware_name_required : String → ℕ → AppError
  volume_unnamed : AppError
  no_container_path relative_container_path : String → AppError
  volume_size : String → SizeError → AppError
  memory_size storage_size : SizeError → AppError
  cpu_negative cpu_too_large : AppError
  bad_network_value : String → String → AppError
  negative_processes negative_open_files : AppError

abbrev pub Check : Type 0
Check = Result AppError (Unit {0})

abbrev pub guard : Bool → AppError → Check
guard true e = ok tt
guard false e = err e

pub guard-then :
    (b : Bool) (e : AppError) (k : Check) → (guard b e >> k) ≡ ok tt → (b ≡ true) × (k ≡ ok tt)
guard-then true e k h = (refl, h)
guard-then false e k h = cc

pub then_guard :
    (b : Bool) (e : AppError) (k : Check) → b ≡ true → k ≡ ok tt → (guard b e >> k) ≡ ok tt
then_guard b e k p q = rw (p, q)

abbrev pub is_lower : ℕ → Bool
is_lower c = leb b'a' c && leb c b'z'

abbrev pub is_digit : ℕ → Bool
is_digit c = leb b'0' c && leb c b'9'

abbrev pub is_alnum : ℕ → Bool
is_alnum c = is_lower c || is_digit c

abbrev pub is_name_char : ℕ → Bool
is_name_char c = is_alnum c || nat_eq c b'-'

-- ^[a-z][a-z0-9-]*[a-z0-9]$|^[a-z]$
unfoldable pub app_name_regex : Regex
app_name_regex = alt (seq (one is_lower) (seq (many is_name_char) (one is_alnum))) (one is_lower)

abbrev pub reserved_names : List String
reserved_names = "api" ∷ "www" ∷ "admin" ∷ "root" ∷ "system" ∷ "piccolo" ∷ []

unfoldable pub validate_name : String → Check
validate_name name = do
  guard (not (name == "")) name_required
  guard (leb (byte_len (codes name)) 50) name_too_long
  guard (full_match app_name_regex (codes name)) name_pattern
  guard (not (elem name reserved_names)) name_reserved

pub has_build : AppBuild → Bool
has_build b = not (b.containerfile == "") || not (b.git == "")

pub validate_build : AppBuild → Check
validate_build b = do
  guard (has_build b) no_build_source
  guard (not (not (b.containerfile == "") && not (b.git == ""))) containerfile_and_git

pub build_of : Option AppBuild → Check
unfolding validate_build
build_of none = ok tt
build_of (some b) = validate_build b

pub names_build : Option AppBuild → Bool
unfolding has_build
names_build none = false
names_build (some b) = has_build b

unfoldable pub validate_image_or_build : {F : Type 0} → AppDefinition F → Check
unfolding build_of names_build
validate_image_or_build app = do
  guard (not (app.image == "") || names_build app.build) no_image_or_build
  guard (not (not (app.image == "") && names_build app.build)) image_and_build
  if names_build app.build then build_of app.build else ok tt

unfoldable pub validate_type : String → Check
validate_type app_type = guard (elem app_type ("user" ∷ "system" ∷ [])) (bad_type app_type)

pub is_known_flow : ListenerFlow → Bool
is_known_flow flow_unknown = false
is_known_flow _ = true

pub is_known_protocol : ListenerProtocol → Bool
is_known_protocol protocol_unknown = false
is_known_protocol _ = true

-- The middleware from the j-th on.
pub validate_middleware : String → ℕ → List AppProtocolMiddleware → Check
validate_middleware name j [] = ok tt
validate_middleware name j (m ∷ ms) =
    guard (not (is_blank m.name)) (middleware_name_required name j)
    >> validate_middleware name (j + 1) ms

pub port_unused : Option String → ℤ → String → Check
port_unused none port name = ok tt
port_unused (some existing) port name = err (guest_port_used port existing name)

-- The listeners from the i-th on, given the names and guest ports of those before.
pub validate_listeners_from : ℕ → Map String (Unit {0}) → Map ℤ String → List AppListener → Check
unfolding validate_middleware port_unused is_known_flow is_known_protocol
validate_listeners_from i names ports [] = ok tt
validate_listeners_from i names ports (l ∷ ls) = do
  guard (not (is_blank l.name)) (listener_name_required i)
  guard (not (contains l.name names)) (duplicate_listener l.name)
  guard (int_gtb l.guest_port 0 && int_leb l.guest_port 65535) (bad_guest_port l.name)
  port_unused (lookup l.guest_port ports) l.guest_port l.name
  guard (is_known_flow l.flow) (bad_flow l.name)
  guard (is_known_protocol l.protocol) (bad_protocol l.name)
  validate_middleware l.name 0 l.middleware
  validate_listeners_from (i + 1) (insert l.name tt names) (insert l.guest_port l.name ports) ls

unfoldable pub validate_listeners : List AppListener → Check
unfolding validate_listeners_from
validate_listeners [] = err listeners_required
validate_listeners (l ∷ ls) = validate_listeners_from 0 [] [] (l ∷ ls)
