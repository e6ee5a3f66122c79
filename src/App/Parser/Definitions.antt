-- ===== src/App/Parser/Definitions.antt =====
-- parser.go: SetDefaults, ValidateAppDefinition and ParseAppDefinition.
use piccolod.Common.{
  ℕ, ◌≡◌, ◌≢◌, refl, inl, inr, String, Bool, Option, none, some, [], ◌∷◌, map, Occurs, elem→Occurs,
  Option-cases, subst, Result, ok, err, ◌>>◌, Eq-string, ◌==◌, if◌then◌else◌, arith,
}
use piccolod.Api.{
  ListenerFlow, flow_unknown, flow_tcp, ListenerProtocol, protocol_unknown, protocol_raw,
  AppListener,
}
use piccolod.Api.App.{AppDefinition}
use piccolod.App.Parser.{
  AppError, Check, not_yaml, validate_name, validate_image_or_build, validate_type,
  validate_listeners,
}
use piccolod.App.Parser.Names.{IsAppName, validate_name_iff}
use piccolod.App.Parser.Listeners.{AreListeners, validate_listeners_iff, then->>}
use piccolod.App.Parser.Sources.{HasOneSource, accepted_source}
use piccolod.App.Parser.Sections.{validate_storage, validate_resources, validate_permissions}

default_flow : ListenerFlow → ListenerFlow
default_flow flow_unknown = flow_tcp
default_flow f = f

default_protocol : ListenerProtocol → ListenerProtocol
default_protocol protocol_unknown = protocol_raw
default_protocol p = p

default_listener : AppListener → AppListener
unfolding default_flow default_protocol
default_listener l = record l { flow = default_flow l.flow; protocol = default_protocol l.protocol }

unfoldable pub set_defaults : {F : Type 0} → AppDefinition F → AppDefinition F
unfolding default_listener
set_defaults app = record app {
  app_type = if app.app_type == "" then "user" else app.app_type;
  listeners = map default_listener app.listeners;
}

module _ (upper : ℕ → ℕ) {F : Type 0} (below_zero above_64 : F → Bool) where
  unfoldable pub validate_app_definition : AppDefinition F → Check
  validate_app_definition app = do
    validate_name app.name
    validate_image_or_build app
    validate_type app.app_type
    validate_listeners app.listeners
    validate_storage upper app.storage
    validate_resources upper below_zero above_64 app.resources
    validate_permissions app.permissions

  checked : AppDefinition F → Check → Result AppError (AppDefinition F)
  checked app (ok _) = ok app
  checked app (err e) = err e

  -- `unmarshal` is yaml.Unmarshal, with nothing for a file that it refuses.
  unfoldable pub parse_app_definition :
      (String → Option (AppDefinition F)) → String → Result AppError (AppDefinition F)
  unfolding checked
  parse_app_definition unmarshal content = elim (unmarshal content) [
    | none ↦ err not_yaml
    | some app ↦ checked (set_defaults app) (validate_app_definition (set_defaults app))
  ]

-- What holds of a definition that was accepted, whatever the file said.
pub record IsValid {F : Type 0} (app : AppDefinition F) : Type 0 where
  pub name : IsAppName app.name
  pub listeners : (app.listeners ≢ []) × AreListeners app.listeners
  pub app_type : Occurs app.app_type ("user" ∷ "system" ∷ [])
  pub source : HasOneSource app

accepted_type : (t : String) → validate_type t ≡ ok tt → Occurs t ("user" ∷ "system" ∷ [])
unfolding validate_type
accepted_type t h = elem→Occurs t ("user" ∷ "system" ∷ []) (ground (arith, h))

accepted_definition :
    (upper : ℕ → ℕ) {F : Type 0} (below_zero above_64 : F → Bool) (app : AppDefinition F)
    → validate_app_definition upper below_zero above_64 app ≡ ok tt
    → IsValid app
unfolding validate_app_definition
accepted_definition upper below_zero above_64 app h =
    let (a, h1) = then->> (validate_name app.name) _ h in
    let (b, h2) = then->> (validate_image_or_build app) _ h1 in
    let (c, h3) = then->> (validate_type app.app_type) _ h2 in
    let (d, h4) = then->> (validate_listeners app.listeners) _ h3 in
    record {
      name = (validate_name_iff app.name).0 a;
      listeners = (validate_listeners_iff app.listeners).0 d;
      app_type = accepted_type app.app_type c;
      source = accepted_source app b;
    }

-- A file that ParseAppDefinition accepts gives a definition whose name is a name of an app, whose
-- type is user or system, whose listeners are valid and not none, and which has exactly one source:
-- an image, a containerfile or a git address. This holds for every reading of YAML.
pub parse_app_definition-IsValid :
    (upper : ℕ → ℕ) {F : Type 0} (below_zero above_64 : F → Bool)
    (unmarshal : String → Option (AppDefinition F)) (content : String) (app : AppDefinition F)
    → parse_app_definition upper below_zero above_64 unmarshal content ≡ ok app
    → IsValid app
unfolding parse_app_definition
parse_app_definition-IsValid upper {F} below_zero above_64 unmarshal content app h =
    elim (Option-cases (unmarshal content)) [
      | inl e ↦ absurd (ground (arith, h, e))
      | inr (raw, e) ↦
          parsed (set_defaults raw)
            (validate_app_definition upper below_zero above_64 (set_defaults raw)) refl
            (ground (arith, h, e))
    ]
  where
    parsed :
        (d : AppDefinition F) (c : Check)
        → validate_app_definition upper below_zero above_64 d ≡ c
        → checked upper below_zero above_64 d c ≡ ok app
        → IsValid app
    parsed d (ok _) e q = accepted_definition upper below_zero above_64 app (
        subst (λ x. validate_app_definition upper below_zero above_64 x ≡ ok tt) (ground (arith, q))
          e)
    parsed d (err x) e q = absurd (ground (arith, q))
