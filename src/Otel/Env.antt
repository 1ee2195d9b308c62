-- ===== src/Otel/Env.antt =====
-- internal/controller/otel.go: `otelConfig` and `extractOTELEnvVars`.
use tool_gateway_agentgatewa.Prelude.{
  String, List, [], ◌∷◌, ◌++◌, Option, none, some, str_eq, if◌then◌else◌,
}
use tool_gateway_agentgatewa.Kube.Types.{EnvVar}

-- `otelConfig`
pub record OtelConfig : Type 0 where
  pub endpoint : String
  pub protocol : String
  pub headers : String
  pub traces_endpoint : String
  pub traces_protocol : String
  pub traces_headers : String
  pub metrics_endpoint : String
  pub metrics_protocol : String
  pub metrics_headers : String
  pub logs_endpoint : String
  pub logs_protocol : String
  pub logs_headers : String

-- `otelConfig{}`
abbrev pub empty_config : OtelConfig
empty_config = record {
  endpoint = "";
  protocol = "";
  headers = "";
  traces_endpoint = "";
  traces_protocol = "";
  traces_headers = "";
  metrics_endpoint = "";
  metrics_protocol = "";
  metrics_headers = "";
  logs_endpoint = "";
  logs_protocol = "";
  logs_headers = "";
}

-- The cases of the `switch`: a setting of one of the signals, or of all of them.
pub data Scope : Type 0 where
  general traces metrics logs : Scope

pub data Setting : Type 0 where
  endpoint protocol headers : Setting

-- The constants `otelExporterOTLP…`.
unfoldable pub otel_name : Scope → Setting → String
otel_name Scope.general Setting.endpoint = "OTEL_EXPORTER_OTLP_ENDPOINT"
otel_name Scope.general Setting.protocol = "OTEL_EXPORTER_OTLP_PROTOCOL"
otel_name Scope.general Setting.headers = "OTEL_EXPORTER_OTLP_HEADERS"
otel_name Scope.traces Setting.endpoint = "OTEL_EXPORTER_OTLP_TRACES_ENDPOINT"
otel_name Scope.traces Setting.protocol = "OTEL_EXPORTER_OTLP_TRACES_PROTOCOL"
otel_name Scope.traces Setting.headers = "OTEL_EXPORTER_OTLP_TRACES_HEADERS"
otel_name Scope.metrics Setting.endpoint = "OTEL_EXPORTER_OTLP_METRICS_ENDPOINT"
otel_name Scope.metrics Setting.protocol = "OTEL_EXPORTER_OTLP_METRICS_PROTOCOL"
otel_name Scope.metrics Setting.headers = "OTEL_EXPORTER_OTLP_METRICS_HEADERS"
otel_name Scope.logs Setting.endpoint = "OTEL_EXPORTER_OTLP_LOGS_ENDPOINT"
otel_name Scope.logs Setting.protocol = "OTEL_EXPORTER_OTLP_LOGS_PROTOCOL"
otel_name Scope.logs Setting.headers = "OTEL_EXPORTER_OTLP_LOGS_HEADERS"

-- The assignment of each case.
unfoldable pub assign : Scope → Setting → String → OtelConfig → OtelConfig
assign Scope.general Setting.endpoint v c = record c { endpoint = v }
assign Scope.general Setting.protocol v c = record c { protocol = v }
assign Scope.general Setting.headers v c = record c { headers = v }
assign Scope.traces Setting.endpoint v c = record c { traces_endpoint = v }
assign Scope.traces Setting.protocol v c = record c { traces_protocol = v }
assign Scope.traces Setting.headers v c = record c { traces_headers = v }
assign Scope.metrics Setting.endpoint v c = record c { metrics_endpoint = v }
assign Scope.metrics Setting.protocol v c = record c { metrics_protocol = v }
assign Scope.metrics Setting.headers v c = record c { metrics_headers = v }
assign Scope.logs Setting.endpoint v c = record c { logs_endpoint = v }
assign Scope.logs Setting.protocol v c = record c { logs_protocol = v }
assign Scope.logs Setting.headers v c = record c { logs_headers = v }

abbrev pub Case : Type 0
Case = Scope × Setting

-- The cases in the order of the source.
abbrev pub cases : List Case
cases =
    (Scope.general, Setting.endpoint)
    ∷ (Scope.general, Setting.protocol)
    ∷ (Scope.general, Setting.headers)
    ∷ (Scope.traces, Setting.endpoint)
    ∷ (Scope.metrics, Setting.endpoint)
    ∷ (Scope.logs, Setting.endpoint)
    ∷ (Scope.traces, Setting.protocol)
    ∷ (Scope.metrics, Setting.protocol)
    ∷ (Scope.logs, Setting.protocol)
    ∷ (Scope.traces, Setting.headers)
    ∷ (Scope.metrics, Setting.headers)
    ∷ (Scope.logs, Setting.headers)
    ∷ []

-- The first case whose constant is the name: `none` is `default`.
unfoldable pub switch : List Case → String → Option Case
switch [] name = none
switch ((s, t) ∷ rest) name = if str_eq name (otel_name s t) then some (s, t) else switch rest name

-- One round of the loop.
unfoldable pub extract_one :
    Option Case → EnvVar → OtelConfig × List EnvVar → OtelConfig × List EnvVar
extract_one (some (s, t)) env (config, filtered) = (assign s t env.value config, filtered)
extract_one none env (config, filtered) = (config, filtered ++ env ∷ [])

unfoldable pub extract_loop : List EnvVar → OtelConfig × List EnvVar → OtelConfig × List EnvVar
extract_loop [] acc = acc
extract_loop (env ∷ rest) acc = extract_loop rest (extract_one (switch cases env.name) env acc)

unfoldable pub extract_otel_env_vars : List EnvVar → OtelConfig × List EnvVar
extract_otel_env_vars env_vars = extract_loop env_vars (empty_config, [])
