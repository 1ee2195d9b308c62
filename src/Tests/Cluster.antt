-- ===== src/Tests/Cluster.antt =====
-- A small cluster: one gateway with one guard, one route to an external server, and a client that
-- accepts every call.
use tool_gateway_agentgatewa.Prelude.{String, true, List, [], ◌∷◌, Option, none, some}
use tool_gateway_agentgatewa.Prelude.Text.{codes}
use tool_gateway_agentgatewa.Kube.Errors.{Result, ok, err, not_found}
use tool_gateway_agentgatewa.Kube.Types.{
  Key, condition_true, Condition, ToolGateway, ToolGatewayClass, ToolRoute, Guard,
  GuardrailProvider,
}
use tool_gateway_agentgatewa.Kube.Json.{string}
use tool_gateway_agentgatewa.Kube.Objects.{created}
use tool_gateway_agentgatewa.Kube.Client.{Env}
use tool_gateway_agentgatewa.Otel.Headers.{HeaderMap}
use tool_gateway_agentgatewa.Adapter.StaticConfig.{Rendering}
use tool_gateway_agentgatewa.Ownership.{controller_name, default_annotation}
use tool_gateway_agentgatewa.Route.Upstream.{Url, Target}

abbrev pub gateway_key : Key
gateway_key = record { namespace = "tool-gateway"; name = "main" }

abbrev pub guard_key : Key
guard_key = record { namespace = "tool-gateway"; name = "pii" }

abbrev pub provider_key : Key
provider_key = record { namespace = "tool-gateway"; name = "presidio" }

abbrev pub route_key : Key
route_key = record { namespace = "team"; name = "search" }

abbrev pub main_gateway : ToolGateway
main_gateway = record {
  key = gateway_key;
  generation = 1;
  tool_gateway_class_name = "";
  guardrails = record { namespace = ""; name = "pii" } ∷ [];
  env =
      record { name = "LOG_LEVEL"; value = "info"; value_from = none }
      ∷ record {
        name = "OTEL_EXPORTER_OTLP_ENDPOINT";
        value = "http://otel:4317";
        value_from = none;
      }
      ∷ [];
  env_from = [];
  status = record { url = ""; conditions = [] };
}

abbrev pub our_class : ToolGatewayClass
our_class = record {
  name = "agentgateway";
  annotations = (default_annotation, "true") ∷ [];
  controller = controller_name;
}

abbrev pub search_route : ToolRoute
search_route = record {
  key = route_key;
  generation = 3;
  tool_gateway_ref = none;
  upstream = record { tool_server_ref = none; external = some "https://mcp.example:8443/mcp" };
  tool_filter = some (record { allow = codes "get_*" ∷ []; deny = [] });
  status = record { url = ""; conditions = [] };
}

abbrev pub pii_guard : Guard
pii_guard = record {
  key = guard_key;
  generation = 2;
  provider_ref = record { namespace = ""; name = "presidio" };
  mode = "pre_call" ∷ [];
  presidio = none;
  conditions =
      record {
        kind = "Ready";
        status = condition_true;
        reason = "Reconciled";
        message = "";
        observed_generation = 2;
      }
      ∷ [];
}

abbrev pub presidio : GuardrailProvider
presidio = record { key = provider_key; kind = "presidio-api"; presidio = some "http://presidio" }

abbrev first_condition : List Condition → Option Condition
first_condition [] = none
first_condition (c ∷ cs) = some c

abbrev pub cluster : Env
cluster = record {
  World = Unit {0};
  get_tool_gateway = λ k w. (ok main_gateway, w);
  get_tool_route = λ k w. (ok search_route, w);
  get_tool_server = λ k w. (err (not_found "toolservers"), w);
  get_guard = λ k w. (ok pii_guard, w);
  get_guardrail_provider = λ k w. (ok presidio, w);
  list_tool_gateways_in = λ n w. (ok (main_gateway ∷ []), w);
  list_tool_gateways = λ w. (ok (main_gateway ∷ []), w);
  list_tool_gateway_classes = λ w. (ok (our_class ∷ []), w);
  list_tool_routes = λ w. (ok (search_route ∷ []), w);
  list_guards = λ w. (ok (pii_guard ∷ []), w);
  create_or_patch = λ k key o mutate w. (ok created, w);
  delete = λ k key w. (ok tt, w);
  patch_status = λ k key base new w. (ok tt, w);
  has_recorder = true;
  set_controller_reference = λ w o. ok (some w);
  set_status_condition = λ cs c. c ∷ [];
  remove_status_condition = λ cs kind. cs;
  find_status_condition = λ cs kind. first_condition cs;
  set_nested = λ j v path. ok v;
  remove_nested = λ j path. j;
  env_var_to_unstructured = λ v. ok (string v.name);
  env_from_to_unstructured = λ v. ok (string v.prefix);
}

abbrev pub parse_url : String → Result Url
parse_url s =
    ok (record { scheme = "https"; hostname = "mcp.example"; port = "8443"; path = "/mcp" })

abbrev pub unmarshal : String → Option HeaderMap
unmarshal s = none

abbrev pub rendering : Rendering
rendering = record {
  marshal = λ c. ok "provider: presidio-api";
  hash = λ s. "abc";
  quoted = λ s. s;
}

abbrev pub search_target : Target
search_target = record { host = "mcp.example"; port = 8443; path = "/mcp" }
