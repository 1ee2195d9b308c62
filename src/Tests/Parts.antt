-- ===== src/Tests/Parts.antt =====
-- The parts of the reconcilers at concrete inputs.
use mathlib.Core.Path.{subst}
use tool_gateway_agentgatewa.Prelude.{
  String, ◌≡◌, ◌↔◌, refl, true, [], ◌∷◌, Option, none, some, any, Member, here,
}
use tool_gateway_agentgatewa.Kube.Errors.{ok}
use tool_gateway_agentgatewa.Kube.Results.{ok-injective}
use tool_gateway_agentgatewa.Kube.Types.{same_key, resolve_ref}
use tool_gateway_agentgatewa.Kube.Json.{object, end, string, slice, map_of}
use tool_gateway_agentgatewa.Kube.Objects.{Kind, Object, Owner, OwnerKind}
use tool_gateway_agentgatewa.Otel.Env.{Scope, Setting, otel_name, extract_otel_env_vars}
use tool_gateway_agentgatewa.Otel.Extracted.{
  plain_vars, setting, last_value, extract_otel_env_vars_lem,
}
use tool_gateway_agentgatewa.Ownership.{claims, first_tool_gateway}
use tool_gateway_agentgatewa.Ownership.Answers.{IsResolution, by_default}
use tool_gateway_agentgatewa.Ownership.Claims.{gives, claims-gives}
use tool_gateway_agentgatewa.Resources.{build_mcp_target, build_http_route_spec, set_mcp_targets}
use tool_gateway_agentgatewa.Route.Numbers.{atoi, atoi_text, digits_value, unsigned_value}
use tool_gateway_agentgatewa.Route.Upstream.{check_port, url_port, url_target, external_target}
use tool_gateway_agentgatewa.Route.Bounds.{IsDialable, external_target-IsDialable}
use tool_gateway_agentgatewa.Route.Ensure.{child_key, mutate_backend, mutate_http_route}
use tool_gateway_agentgatewa.Route.Watches
use tool_gateway_agentgatewa.Route.Covered.{IsListing, targets_gateway-covers}
use tool_gateway_agentgatewa.Gateway.Watches as gateway
use tool_gateway_agentgatewa.Gateway.Covered.{references_affected-covers}
use tool_gateway_agentgatewa.Adapter.StaticConfig.{StaticConfig, build_static_config}
use tool_gateway_agentgatewa.Adapter.Validity.{IsRunnable, runnable_config, build_static_config_iff}
use tool_gateway_agentgatewa.Adapter.Ensure.{
  blank_deployment, mutate_config_map, mutate_deployment, mutate_service, set_entry,
  deployment_spec, service_spec,
}
use tool_gateway_agentgatewa.Tests.Cluster.{
  gateway_key, provider_key, guard_key, route_key, main_gateway, our_class, search_route, pii_guard,
  presidio, cluster, parse_url, search_target, rendering,
}

external_search : external_target parse_url "https://mcp.example:8443/mcp" ≡ ok search_target
unfolding external_target url_target url_port check_port atoi atoi_text unsigned_value digits_value
external_search = refl

external_target-IsDialable_example : IsDialable search_target
external_target-IsDialable_example =
    external_target-IsDialable parse_url "https://mcp.example:8443/mcp" search_target
      external_search

claims-gives_example :
    claims (our_class ∷ []) main_gateway ≡ any (gives main_gateway) (our_class ∷ [])
claims-gives_example = claims-gives (our_class ∷ []) main_gateway

abbrev pii_config : StaticConfig
pii_config = runnable_config pii_guard "http://presidio"

build_static_config_iff_example :
    (build_static_config rendering pii_guard presidio ≡ ok pii_config) ↔ (
      (url : String) × IsRunnable pii_guard presidio url
      × (runnable_config pii_guard url ≡ pii_config))
build_static_config_iff_example = build_static_config_iff rendering pii_guard presidio pii_config

extract_otel_env_vars_lem_example :
    ((extract_otel_env_vars main_gateway.env).1 ≡ plain_vars main_gateway.env)
    × ((s : Scope) (t : Setting)
        → setting s t (extract_otel_env_vars main_gateway.env).0
          ≡ last_value (otel_name s t) main_gateway.env "")
extract_otel_env_vars_lem_example = extract_otel_env_vars_lem main_gateway.env

default-IsResolution : IsResolution cluster search_route (ok gateway_key)
default-IsResolution = unfold first_tool_gateway in by_default tt (main_gateway ∷ []) refl refl

targets_gateway-covers_example :
    Member search_route.key
      (Watches.requests_where (Watches.targets_gateway gateway_key) (search_route ∷ []))
targets_gateway-covers_example =
    targets_gateway-covers cluster search_route (search_route ∷ []) gateway_key
      (λ w tgs h. subst IsListing (ok-injective h) (refl, tt)) default-IsResolution here

pii_of_presidio :
    same_key (resolve_ref pii_guard.provider_ref pii_guard.key.namespace) provider_key ≡ true
unfolding resolve_ref
pii_of_presidio = refl

main_references_pii : gateway.references_guard guard_key main_gateway ≡ true
unfolding gateway.references_guard resolve_ref
main_references_pii = refl

references_affected-covers_example : Member main_gateway.key (
    gateway.requests_where
      (gateway.references_affected (gateway.affected_guards provider_key (pii_guard ∷ [])))
      (main_gateway ∷ []))
references_affected-covers_example =
    references_affected-covers provider_key pii_guard (pii_guard ∷ []) main_gateway
      (main_gateway ∷ []) here pii_of_presidio here main_references_pii

abbrev guard_owner : Option Owner
guard_owner = some (OwnerKind.guard, guard_key)

abbrev route_owner : Option Owner
route_owner = some (OwnerKind.tool_route, route_key)

abbrev config_before : Object Kind.config_map
config_before = record { owner = none; content = [] }

abbrev config_after : Object Kind.config_map
config_after = record {
  owner = guard_owner;
  content = ("config.yaml", "provider: presidio-api") ∷ [];
}

abbrev deployment_before : Object Kind.deployment
deployment_before = record { owner = none; content = blank_deployment }

abbrev deployment_after : Object Kind.deployment
deployment_after = record {
  owner = guard_owner;
  content = deployment_spec "adapter:1" pii_guard "abc" blank_deployment;
}

abbrev service_before : Object Kind.service
service_before = record { owner = none; content = record { selector = []; ports = [] } }

abbrev service_after : Object Kind.service
service_after = record { owner = guard_owner; content = service_spec pii_guard }

config_made :
    mutate_config_map cluster pii_guard "provider: presidio-api" config_before ≡ ok config_after
unfolding mutate_config_map set_entry
config_made = refl

deployment_made :
    mutate_deployment cluster "adapter:1" pii_guard "abc" deployment_before ≡ ok deployment_after
unfolding mutate_deployment
deployment_made = refl

service_made : mutate_service cluster pii_guard service_before ≡ ok service_after
unfolding mutate_service
service_made = refl

abbrev backend_before : Object Kind.backend
backend_before = record { owner = none; content = object end }

abbrev backend_after : Object Kind.backend
backend_after = record {
  owner = route_owner;
  content = map_of (
      ("targets", slice (build_mcp_target "mcp-target" "mcp.example" 8443 "/mcp" ∷ []))
      ∷ ("failureMode", string "FailOpen")
      ∷ []);
}

abbrev http_route_before : Object Kind.http_route
http_route_before = record { owner = none; content = none }

abbrev http_route_after : Object Kind.http_route
http_route_after = record {
  owner = route_owner;
  content =
      some (
        build_http_route_spec gateway_key (child_key main_gateway search_route) "/team/search/mcp");
}

backend_made : mutate_backend cluster search_route search_target backend_before ≡ ok backend_after
unfolding mutate_backend set_mcp_targets
backend_made = refl

http_route_made :
    mutate_http_route cluster search_route main_gateway "/team/search/mcp" http_route_before
    ≡ ok http_route_after
unfolding mutate_http_route
http_route_made = refl
