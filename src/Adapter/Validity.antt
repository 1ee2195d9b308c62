-- ===== src/Adapter/Validity.antt =====
-- Which Guards and GuardrailProviders the adapter can run.
use mathlib.Core.Path.{subst}
use tool_gateway_agentgatewa.Prelude.{
  String, ◌≡◌, ◌≢◌, ◌↔◌, refl, ◌∙◌, ap, true, not, List, [], ◌∷◌, Option, none, some, All, str_eq,
  eq_iff, if-true, inl, inr,
}
use tool_gateway_agentgatewa.Kube.Errors.{ok}
use tool_gateway_agentgatewa.Kube.Results.{
  bind-ok, guard-ok, ok-injective, str_eq-false, differs-str_eq, not-false,
}
use tool_gateway_agentgatewa.Kube.Types.{Guard, GuardrailProvider}
use tool_gateway_agentgatewa.Adapter.StaticConfig.{
  provider_type_presidio, StaticConfig, Rendering, is_supported_mode, check_modes, require_modes,
  require_base_url, static_presidio, check_provider, build_static_config,
}

-- What the configuration of an adapter needs: a Presidio provider with a base URL, and at least one
-- mode, all of them supported.
pub record IsRunnable (guard : Guard) (provider : GuardrailProvider) (url : String) : Type 0 where
  pub is_presidio : provider.kind ≡ provider_type_presidio
  pub has_mode : guard.mode ≢ []
  pub supported : All (λ m. is_supported_mode m ≡ true) guard.mode
  pub has_url : provider.presidio ≡ some url
  pub url_filled : url ≢ ""

check_modes-All :
    (r : Rendering) (ms : List String)
    → check_modes r ms ≡ ok tt
    → All (λ m. is_supported_mode m ≡ true) ms
unfolding check_modes
check_modes-All r [] h = tt
check_modes-All r (m ∷ ms) h = elim (if-true (is_supported_mode m) h) [
  | inl (fits, e) ↦ (fits, check_modes-All r ms e)
  | inr (_, e) ↦ cc
]

All-check_modes :
    (r : Rendering) (ms : List String)
    → All (λ m. is_supported_mode m ≡ true) ms
    → check_modes r ms ≡ ok tt
unfolding check_modes
All-check_modes r [] h = refl
All-check_modes r (m ∷ ms) h = rw (h.0, All-check_modes r ms h.1)

require_modes-nonempty : (ms : List String) → require_modes ms ≡ ok tt → ms ≢ []
unfolding require_modes
require_modes-nonempty [] h e = cc
require_modes-nonempty (m ∷ ms) h e = cc

nonempty-require_modes : (ms : List String) → ms ≢ [] → require_modes ms ≡ ok tt
unfolding require_modes
nonempty-require_modes [] h = elim (h refl) [ ]
nonempty-require_modes (m ∷ ms) h = refl

require_base_url-some :
    (o : Option String) (url : String) → require_base_url o ≡ ok url → (o ≡ some url) × (url ≢ "")
unfolding require_base_url
require_base_url-some none url h = cc
require_base_url-some (some u) url h =
    let (filled, e) = guard-ok (str_eq u "") _ h in
    (ap some (ok-injective e), subst (λ v. v ≢ "") (ok-injective e) (str_eq-false u "" filled))

some-require_base_url : (url : String) → url ≢ "" → require_base_url (some url) ≡ ok url
unfolding require_base_url
some-require_base_url url h = rw (differs-str_eq url "" h)

check_provider-kind :
    (r : Rendering) (p : GuardrailProvider)
    → check_provider r p ≡ ok tt
    → p.kind ≡ provider_type_presidio
unfolding check_provider
check_provider-kind r p h = (eq_iff p.kind provider_type_presidio).0 (
    not-false (str_eq p.kind provider_type_presidio)
      (guard-ok (not (str_eq p.kind provider_type_presidio)) _ h).0)

kind-check_provider :
    (r : Rendering) (p : GuardrailProvider)
    → p.kind ≡ provider_type_presidio
    → check_provider r p ≡ ok tt
unfolding check_provider
kind-check_provider r p h = rw ((eq_iff p.kind provider_type_presidio).1 h)

-- The configuration of a guard that can run.
abbrev pub runnable_config : Guard → String → StaticConfig
runnable_config guard url = record {
  provider = provider_type_presidio;
  modes = guard.mode;
  presidio = some (static_presidio url guard.presidio);
}

build_static_config-IsRunnable :
    (r : Rendering) (guard : Guard) (p : GuardrailProvider) (c : StaticConfig)
    → build_static_config r guard p ≡ ok c
    → (url : String) × IsRunnable guard p url × (runnable_config guard url ≡ c)
unfolding build_static_config
build_static_config-IsRunnable r guard p c h =
    let (_, kind, h1) = bind-ok (check_provider r p) h in
    let (_, modes, h2) = bind-ok (require_modes guard.mode) h1 in
    let (_, checked, h3) = bind-ok (check_modes r guard.mode) h2 in
    let (url, found, h4) = bind-ok (require_base_url p.presidio) h3 in
    (
      url,
      record {
        is_presidio = check_provider-kind r p kind;
        has_mode = require_modes-nonempty guard.mode modes;
        supported = check_modes-All r guard.mode checked;
        has_url = (require_base_url-some p.presidio url found).0;
        url_filled = (require_base_url-some p.presidio url found).1;
      },
      ok-injective h4,
    )

IsRunnable-build_static_config :
    (r : Rendering) (guard : Guard) (p : GuardrailProvider) (url : String)
    → IsRunnable guard p url
    → build_static_config r guard p ≡ ok (runnable_config guard url)
unfolding build_static_config
IsRunnable-build_static_config r guard p url h = rw (
  kind-check_provider r p h.is_presidio,
  nonempty-require_modes guard.mode h.has_mode,
  All-check_modes r guard.mode h.supported,
  h.has_url,
  some-require_base_url url h.url_filled,
)

-- A configuration is built exactly for the guards and providers that `IsRunnable` describes, and it
-- holds the provider's type, the modes, the base URL, and the settings of the guard.
pub build_static_config_iff :
    (r : Rendering) (guard : Guard) (p : GuardrailProvider) (c : StaticConfig)
    → (build_static_config r guard p ≡ ok c)
      ↔ ((url : String) × IsRunnable guard p url × (runnable_config guard url ≡ c))
build_static_config_iff r guard p c = (
  build_static_config-IsRunnable r guard p c,
  λ (url, fits, same). IsRunnable-build_static_config r guard p url fits ∙ ap ok same,
)
