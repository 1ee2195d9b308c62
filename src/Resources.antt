-- ===== src/Resources.antt =====
-- internal/controller/resources.go: the objects that are built for agentgateway.
use tool_gateway_agentgatewa.Prelude.{ℕ, String, List, [], ◌∷◌, Option, none, some}
use tool_gateway_agentgatewa.Prelude.Text.{concat}
use tool_gateway_agentgatewa.Kube.Errors.{Result, ok, ◌>>=◌, wrap_error}
use tool_gateway_agentgatewa.Kube.Types.{Key, ToolGateway}
use tool_gateway_agentgatewa.Kube.Json.{Json, string, number, slice, map_of}
use tool_gateway_agentgatewa.Kube.Objects.{Kind, Object, HttpRouteSpec}
use tool_gateway_agentgatewa.Kube.Client.{Env}
use tool_gateway_agentgatewa.Otel.Env.{extract_otel_env_vars}
use tool_gateway_agentgatewa.Otel.Headers.{HeaderMap}
use tool_gateway_agentgatewa.Otel.Telemetry.{build_telemetry_config}

-- An unstructured object with its API version, its kind, its name and its namespace.
abbrev pub new_unstructured : String → Key → Json
new_unstructured kind key = map_of (
    ("apiVersion", string "agentgateway.dev/v1alpha1")
    ∷ ("kind", string kind)
    ∷ ("metadata", map_of (("name", string key.name) ∷ ("namespace", string key.namespace) ∷ []))
    ∷ [])

unfoldable pub new_agentgateway_backend : Key → Object Kind.backend
new_agentgateway_backend key = record {
  owner = none;
  content = new_unstructured "AgentgatewayBackend" key;
}

unfoldable pub new_agentgateway_parameters : Key → Object Kind.parameters
new_agentgateway_parameters key = record {
  owner = none;
  content = new_unstructured "AgentgatewayParameters" key;
}

unfoldable pub new_agentgateway_policy : Key → Object Kind.policy
new_agentgateway_policy key = record {
  owner = none;
  content = new_unstructured "AgentgatewayPolicy" key;
}

unfoldable pub build_mcp_target : String → String → ℕ → String → Json
build_mcp_target name host port path = map_of (
    ("name", string name)
    ∷ (
      "static",
      map_of (
          ("host", string host)
          ∷ ("port", number port)
          ∷ ("path", string path)
          ∷ ("protocol", string "StreamableHTTP")
          ∷ []),
    )
    ∷ [])

unfoldable pub build_http_route_spec : Key → Key → String → HttpRouteSpec
build_http_route_spec gateway backend path = record {
  parent_refs = gateway ∷ [];
  rules =
      record {
        backend_refs =
            record { group = "agentgateway.dev"; kind = "AgentgatewayBackend"; key = backend } ∷ [];
        matches = record { kind = "PathPrefix"; value = path } ∷ [];
      }
      ∷ [];
}

unfoldable pub tool_server_host : Key → String
tool_server_host key = concat (key.name ∷ "." ∷ key.namespace ∷ ".svc.cluster.local" ∷ [])

-- `toUnstructuredSlice`, over the conversion of one item.
unfoldable pub to_unstructured_slice :
    {A : Type 0} → (A → Result Json) → List A → Result (List Json)
to_unstructured_slice convert [] = ok []
to_unstructured_slice convert (x ∷ xs) = do
  m ← convert x
  rest ← to_unstructured_slice convert xs
  ok (m ∷ rest)

module _ (env : Env) where
  unfoldable pub set_mcp_targets : Json → List Json → Result Json
  set_mcp_targets backend targets =
      env.set_nested backend
        (map_of (("targets", slice targets) ∷ ("failureMode", string "FailOpen") ∷ []))
        ("spec" ∷ "mcp" ∷ [])

  -- `spec.rawConfig`: set where there is telemetry, removed where there is none.
  unfoldable pub set_raw_config : Json → Option Json → Result Json
  set_raw_config params (some telemetry) =
      wrap_error "failed to set spec.rawConfig: "
        (env.set_nested params telemetry ("spec" ∷ "rawConfig" ∷ []))
  set_raw_config params none = ok (env.remove_nested params ("spec" ∷ "rawConfig" ∷ []))

  -- The strategic merge patch that carries `envFrom`.
  abbrev pub deployment_spec : List Json → Json
  deployment_spec env_from = map_of (
      (
        "template",
        map_of (
            (
              "spec",
              map_of (
                  (
                    "containers",
                    slice (
                        map_of (("name", string "agentgateway") ∷ ("envFrom", slice env_from) ∷ [])
                        ∷ []),
                  )
                  ∷ []),
            )
            ∷ []),
      )
      ∷ [])

  abbrev pub service_spec : Json
  service_spec = map_of (("type", string "ClusterIP") ∷ [])

  -- `json.Unmarshal` of a header text is the first argument.
  unfoldable pub set_agentgateway_parameters_spec :
      (String → Option HeaderMap) → Json → ToolGateway → Result Json
  set_agentgateway_parameters_spec unmarshal params tg = do
    let (otel_config, filtered_env) = extract_otel_env_vars tg.env
    p ← set_raw_config params (build_telemetry_config unmarshal otel_config)
    env_vars ←
        wrap_error "failed to convert spec.env: "
          (to_unstructured_slice env.env_var_to_unstructured filtered_env)
    q ←
        wrap_error "failed to set spec.env: "
          (env.set_nested p (slice env_vars) ("spec" ∷ "env" ∷ []))
    env_from ←
        wrap_error "failed to convert spec.envFrom: "
          (to_unstructured_slice env.env_from_to_unstructured tg.env_from)
    r ←
        wrap_error "failed to set spec.deployment.spec: "
          (env.set_nested q (deployment_spec env_from) ("spec" ∷ "deployment" ∷ "spec" ∷ []))
    wrap_error "failed to set spec.service.spec: "
        (env.set_nested r service_spec ("spec" ∷ "service" ∷ "spec" ∷ []))
