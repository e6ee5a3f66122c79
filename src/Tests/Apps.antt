-- ===== src/Tests/Apps.antt =====
-- internal/app/parser.go on a small app.
use piccolod.Common
use piccolod.Common.{
  ℕ, String, ◌≡◌, ◌≢◌, ◌↔◌, refl, Option, none, some, List, [], ◌∷◌, Bool, true, false, ok, ltb,
}
use piccolod.Common.Int.{pos}
use piccolod.Api.{AppListener, flow_unknown, protocol_unknown}
use piccolod.Api.App.{AppDefinition}
use piccolod.App.Regex
use piccolod.App.Parser.{validate_name, validate_listeners}
use piccolod.App.Parser
use piccolod.App.Parser.Sizes.{validate_size_limit, IsSize, validate_size_limit_iff}
use piccolod.App.Parser.Names.{IsAppName, validate_name_iff}
use piccolod.App.Parser.Listeners.{AreListeners, validate_listeners_iff}
use piccolod.App.Parser.Sections
use piccolod.App.Parser.Definitions
use piccolod.App.Parser.Definitions.{
  set_defaults, IsValid, parse_app_definition, parse_app_definition-IsValid,
}

validate_name_iff_example : (validate_name "web-1" ≡ ok tt) ↔ IsAppName "web-1"
validate_name_iff_example = validate_name_iff "web-1"

abbrev same_upper : ℕ → ℕ
same_upper c = c

validate_size_limit_iff_example :
    (validate_size_limit same_upper "512mb" ≡ ok tt) ↔ IsSize same_upper "512mb"
validate_size_limit_iff_example = validate_size_limit_iff same_upper "512mb"

abbrev http : AppListener
http = record {
  name = "http";
  guest_port = pos 80;
  flow = flow_unknown;
  protocol = protocol_unknown;
  middleware = [];
  remote_ports = [];
}

validate_listeners_iff_example :
    (validate_listeners (http ∷ []) ≡ ok tt) ↔ ((http ∷ [] ≢ []) × AreListeners (http ∷ []))
validate_listeners_iff_example = validate_listeners_iff (http ∷ [])

abbrev web : AppDefinition ℕ
web = record {
  name = "web";
  image = "nginx";
  build = none;
  app_type = "";
  listeners = http ∷ [];
  storage = none;
  permissions = none;
  resources = none;
}

abbrev read_yaml : String → Option (AppDefinition ℕ)
read_yaml content = some web

abbrev below_zero : ℕ → Bool
below_zero cpu = false

abbrev above_64 : ℕ → Bool
above_64 cpu = ltb 64 cpu

parsed :
    (app : AppDefinition ℕ) × (parse_app_definition same_upper below_zero above_64 read_yaml
        "name: web"
      ≡ ok app)
unfolding parse_app_definition Definitions.validate_app_definition validate_name set_defaults
    Regex.full_match Parser.app_name_regex Parser.validate_image_or_build Parser.validate_type
    validate_listeners piccolod.Common.Map.contains piccolod.Common.Map.lookup
    Sections.validate_storage Sections.validate_resources Sections.validate_permissions
parsed = (_, refl)

parse_app_definition-IsValid_example : IsValid parsed.0
parse_app_definition-IsValid_example =
    parse_app_definition-IsValid same_upper below_zero above_64 read_yaml "name: web" parsed.0
      parsed.1
