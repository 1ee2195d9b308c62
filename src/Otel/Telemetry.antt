-- ===== src/Otel/Telemetry.antt =====
-- internal/controller/otel.go: `buildTelemetryConfig`. The JSON round trip of `AgentgatewayRawConfig`
-- keeps what is set and leaves out each empty field that is marked `omitempty`.
use tool_gateway_agentgatewa.Prelude.{
  String, Bool, not, ◌||◌, [], ◌∷◌, Option, none, some, str_eq, starts_with, if◌then◌else◌,
}
use tool_gateway_agentgatewa.Kube.Json.{Json, Fields, string, object, end, field, map_of}
use tool_gateway_agentgatewa.Otel.Env.{OtelConfig}
use tool_gateway_agentgatewa.Otel.Headers.{HeaderMap, parse_headers}

-- `AgentgatewayTracing`; the code sets only the first three of its fields.
pub record Tracing : Type 0 where
  pub otlp_endpoint : String
  pub otlp_protocol : String
  pub headers : HeaderMap

unfoldable pub has_config : OtelConfig → Bool
has_config c =
    not (str_eq c.endpoint "")
    || not (str_eq c.protocol "")
    || not (str_eq c.headers "")
    || not (str_eq c.traces_endpoint "")
    || not (str_eq c.traces_protocol "")
    || not (str_eq c.traces_headers "")
    || not (str_eq c.metrics_endpoint "")
    || not (str_eq c.metrics_protocol "")
    || not (str_eq c.metrics_headers "")
    || not (str_eq c.logs_endpoint "")
    || not (str_eq c.logs_protocol "")
    || not (str_eq c.logs_headers "")

-- The signal's own value, or else the general one.
abbrev pub override : String → String → String
override own general = if str_eq own "" then general else own

-- "grpc/protobuf" and "http/protobuf" lose what follows the name.
unfoldable pub normalize_protocol : String → String
normalize_protocol protocol =
    if starts_with protocol "grpc"
    then "grpc"
    else if starts_with protocol "http"
    then "http"
    else protocol

-- `tracing`, for an endpoint that is not empty.
unfoldable pub build_tracing : (String → Option HeaderMap) → OtelConfig → String → Tracing
build_tracing unmarshal c endpoint =
    let protocol = override c.traces_protocol c.protocol in
    let headers_str = override c.traces_headers c.headers in
    record {
      otlp_endpoint = endpoint;
      otlp_protocol = if str_eq protocol "" then "" else normalize_protocol protocol;
      headers = if str_eq headers_str "" then [] else parse_headers unmarshal headers_str;
    }

abbrev pub header_fields : HeaderMap → Fields
header_fields [] = end
header_fields ((k, v) ∷ m) = field k (string v) (header_fields m)

abbrev pub headers_entry : HeaderMap → Fields
headers_entry [] = end
headers_entry (h ∷ m) = field "headers" (object (header_fields (h ∷ m))) end

abbrev pub protocol_entry : String → Fields → Fields
protocol_entry protocol rest =
    if str_eq protocol "" then rest else field "otlpProtocol" (string protocol) rest

-- `json.Marshal` of the struct, read back into a map.
unfoldable pub raw_config : Tracing → Json
raw_config t = map_of (
    (
      "config",
      map_of (
          (
            "tracing",
            object (
                field "otlpEndpoint" (string t.otlp_endpoint)
                  (protocol_entry t.otlp_protocol (headers_entry t.headers))),
          )
          ∷ []),
    )
    ∷ [])

-- `none` is Go's `nil`.
unfoldable pub build_telemetry_config : (String → Option HeaderMap) → OtelConfig → Option Json
build_telemetry_config unmarshal c =
    if not (has_config c)
    then none
    else let endpoint = override c.traces_endpoint c.endpoint in
      if str_eq endpoint "" then none else some (raw_config (build_tracing unmarshal c endpoint))
