-- ===== src/Otel/Exported.antt =====
-- internal/controller/otel.go: what `buildTelemetryConfig` exports, read back from the configuration.
use tool_gateway_agentgatewa.Prelude.{
  String, ◌≡◌, ◌≢◌, true, false, List, [], ◌∷◌, Option, none, some, str_eq, starts_with,
  if◌then◌else◌,
}
use tool_gateway_agentgatewa.Kube.Json.{Json, Fields, string, object, end, field}
use tool_gateway_agentgatewa.Otel.Env.{OtelConfig}
use tool_gateway_agentgatewa.Otel.Headers.{HeaderMap, parse_headers}
use tool_gateway_agentgatewa.Otel.Telemetry.{
  normalize_protocol, header_fields, headers_entry, protocol_entry,
}

-- The value at a path of a JSON value.
get_field : String → Fields → Option Json
get_field k end = none
get_field k (field j v fs) = if str_eq j k then some v else get_field k fs

pub at : List String → Json → Option Json
at [] j = some j
at (k ∷ p) (object fs) = elim (get_field k fs) [ none ↦ none | some v ↦ at p v ]
at (k ∷ p) j = none

abbrev pub tracing_at : String → Json → Option Json
tracing_at name = at ("config" ∷ "tracing" ∷ name ∷ [])

-- The setting of the traces, where there is one, or else the general one.
pub data IsChosen (own general chosen : String) : Type 0 where
  by_own : own ≢ "" → chosen ≡ own → IsChosen own general chosen
  by_general : own ≡ "" → chosen ≡ general → IsChosen own general chosen

-- How a protocol is shown: not at all where there is none, and by its first letters.
pub data IsProtocol (protocol : String) (shown : Option Json) : Type 0 where
  unset : protocol ≡ "" → shown ≡ none → IsProtocol protocol shown
  is_grpc :
      starts_with protocol "grpc" ≡ true → shown ≡ some (string "grpc") → IsProtocol protocol shown
  is_http :
      starts_with protocol "grpc" ≡ false
      → starts_with protocol "http" ≡ true
      → shown ≡ some (string "http")
      → IsProtocol protocol shown
  is_other :
      protocol ≢ ""
      → starts_with protocol "grpc" ≡ false
      → starts_with protocol "http" ≡ false
      → shown ≡ some (string protocol)
      → IsProtocol protocol shown

-- The headers that are shown: none at all where there are none to show.
abbrev pub shown_headers : HeaderMap → Option Json
shown_headers [] = none
shown_headers (h ∷ m) = some (object (header_fields (h ∷ m)))

pub data IsHeaders (unmarshal : String → Option HeaderMap) (text : String) (shown : Option Json)
    : Type 0 where
  no_text : text ≡ "" → shown ≡ none → IsHeaders unmarshal text shown
  parsed :
      text ≢ ""
      → shown ≡ shown_headers (parse_headers unmarshal text)
      → IsHeaders unmarshal text shown

-- What is exported: nothing where neither the traces nor the whole have an endpoint; else the endpoint,
-- the protocol and the headers, each of the traces or else the general one.
pub data IsExported (unmarshal : String → Option HeaderMap) (c : OtelConfig)
    : Option Json → Type 0 where
  silent : c.traces_endpoint ≡ "" → c.endpoint ≡ "" → IsExported unmarshal c none
  exported :
      (j : Json) (endpoint protocol headers : String)
      → IsChosen c.traces_endpoint c.endpoint endpoint
      → endpoint ≢ ""
      → tracing_at "otlpEndpoint" j ≡ some (string endpoint)
      → IsChosen c.traces_protocol c.protocol protocol
      → IsProtocol protocol (tracing_at "otlpProtocol" j)
      → IsChosen c.traces_headers c.headers headers
      → IsHeaders unmarshal headers (tracing_at "headers" j)
      → IsExported unmarshal c (some j)

abbrev tail : String → HeaderMap → Fields
tail protocol headers = protocol_entry protocol (headers_entry headers)

-- The protocol that `build_tracing` writes.
abbrev written : String → String
written protocol = if str_eq protocol "" then "" else normalize_protocol protocol
