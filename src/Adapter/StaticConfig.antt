-- ===== src/Adapter/StaticConfig.antt =====
-- internal/controller/guard_static_config.go. `yaml.Marshal` and the hexadecimal SHA-256 are
-- parameters, and so is the quotation of `%q`.
use tool_gateway_agentgatewa.Prelude.{
  String, Bool, not, ◌||◌, List, [], ◌∷◌, Option, none, some, str_eq, if◌then◌else◌,
}
use tool_gateway_agentgatewa.Prelude.Text.{concat}
use tool_gateway_agentgatewa.Kube.Errors.{
  sentinel, unsupported_provider, invalid_config, wrapped, Result, ok, err, ◌>>=◌, wrap_error,
}
use tool_gateway_agentgatewa.Kube.Types.{Guard, GuardPresidio, GuardrailProvider}

abbrev pub provider_type_presidio : String
provider_type_presidio = "presidio-api"

abbrev pub static_config_key : String
static_config_key = "config.yaml"

pub record StaticPresidio : Type 0 where
  pub endpoint : String
  pub language : String
  pub score_thresholds : List (String × String)
  pub entity_actions : List (String × String)

pub record StaticConfig : Type 0 where
  pub provider : String
  pub modes : List String
  pub presidio : Option StaticPresidio

-- What the code takes from other packages.
pub record Rendering : Type 0 where
  pub marshal : StaticConfig → Result String
  pub hash : String → String
  pub quoted : String → String

abbrev pub is_supported_mode : String → Bool
is_supported_mode m = str_eq m "pre_call" || str_eq m "post_call"

abbrev pub invalid {ℓ} : {A : Type ℓ} → String → Result A
invalid text = err (wrapped "" (sentinel invalid_config) text)

-- The first loop over the modes: the first that is not supported ends it.
unfoldable pub check_modes : Rendering → List String → Result (Unit {0})
check_modes r [] = ok tt
check_modes r (m ∷ ms) =
    if is_supported_mode m
    then check_modes r ms
    else invalid (
        concat (
          ": mode " ∷ r.quoted m ∷ " not supported by adapter (allowed: pre_call, post_call)" ∷ []))

-- `len(guard.Spec.Mode) == 0`
unfoldable pub require_modes : List String → Result (Unit {0})
require_modes [] = invalid ": modes is required"
require_modes (m ∷ ms) = ok tt

unfoldable pub require_base_url : Option String → Result String
require_base_url none = invalid ": presidio.baseUrl is required"
require_base_url (some url) =
    if str_eq url "" then invalid ": presidio.baseUrl is required" else ok url

unfoldable pub static_presidio : String → Option GuardPresidio → StaticPresidio
static_presidio url none = record {
  endpoint = url;
  language = "";
  score_thresholds = [];
  entity_actions = [];
}
static_presidio url (some p) = record {
  endpoint = url;
  language = p.language;
  score_thresholds = p.score_thresholds;
  entity_actions = p.entity_actions;
}

-- The test of the provider's type.
unfoldable pub check_provider : Rendering → GuardrailProvider → Result (Unit {0})
check_provider r provider =
    if not (str_eq provider.kind provider_type_presidio)
    then err
        (wrapped "" (sentinel unsupported_provider) (concat (": " ∷ r.quoted provider.kind ∷ [])))
    else ok tt

-- The configuration, before it is marshalled.
unfoldable pub build_static_config : Rendering → Guard → GuardrailProvider → Result StaticConfig
build_static_config r guard provider = do
  _ ← check_provider r provider
  _ ← require_modes guard.mode
  _ ← check_modes r guard.mode
  url ← require_base_url provider.presidio
  ok (record {
    provider = provider_type_presidio;
    modes = guard.mode;
    presidio = some (static_presidio url guard.presidio);
  })

-- The YAML text and its hash.
unfoldable pub render_static_config :
    Rendering → Guard → GuardrailProvider → Result (String × String)
render_static_config r guard provider = do
  cfg ← build_static_config r guard provider
  body ← wrap_error "marshal static config: " (r.marshal cfg)
  ok (body, r.hash body)
