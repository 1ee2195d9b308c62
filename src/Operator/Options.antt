-- ===== src/Operator/Options.antt =====
-- cmd/main.go: the flags, and the TLS and manager options that are made of them. A slice of options is
-- a list: each `append` of the source meets a slice with no spare capacity, so it copies.
use tool_gateway_agentgatewa.Prelude.{
  String, Bool, true, false, not, List, [], ◌∷◌, ◌++◌, Option, none, some, if◌then◌else◌,
}

-- The variables that `flag` fills.
pub record Flags : Type 0 where
  pub metrics_addr : String
  pub metrics_cert_path : String
  pub metrics_cert_name : String
  pub metrics_cert_key : String
  pub webhook_cert_path : String
  pub webhook_cert_name : String
  pub webhook_cert_key : String
  pub enable_leader_election : Bool
  pub probe_addr : String
  pub secure_metrics : Bool
  pub enable_http2 : Bool
  pub guardrail_adapter_image : String

-- What `flag` fills in where the command line is empty.
abbrev pub default_flags : Flags
default_flags = record {
  metrics_addr = "0";
  metrics_cert_path = "";
  metrics_cert_name = "tls.crt";
  metrics_cert_key = "tls.key";
  webhook_cert_path = "";
  webhook_cert_name = "tls.crt";
  webhook_cert_key = "tls.key";
  enable_leader_election = false;
  probe_addr = ":8081";
  secure_metrics = true;
  enable_http2 = false;
  guardrail_adapter_image = "";
}

-- A watcher of a certificate file and a key file.
pub record CertWatcher : Type 0 where
  pub cert_file : String
  pub key_file : String

-- The closures of type `func(*tls.Config)`.
pub data TlsOption : Type 0 where
  disable_http2 : TlsOption
  get_certificate : CertWatcher → TlsOption

-- The fields of a `tls.Config` that the closures set.
pub record TlsConfig : Type 0 where
  pub next_protos : List String
  pub certificate : Option CertWatcher

unfoldable pub apply_option : TlsOption → TlsConfig → TlsConfig
apply_option disable_http2 c = record c { next_protos = "http/1.1" ∷ [] }
apply_option (get_certificate w) c = record c { certificate = some w }

-- The servers of controller-runtime call the closures in their order.
unfoldable pub configure : List TlsOption → TlsConfig → TlsConfig
configure [] c = c
configure (o ∷ os) c = configure os (apply_option o c)

-- `if !enableHTTP2 { tlsOpts = append(tlsOpts, disableHTTP2) }`
unfoldable pub tls_opts : Flags → List TlsOption
tls_opts flags = if not flags.enable_http2 then disable_http2 ∷ [] else []

-- The option of a watcher, where there is one.
abbrev pub with_watcher : List TlsOption → Option CertWatcher → List TlsOption
with_watcher os none = os
with_watcher os (some w) = os ++ get_certificate w ∷ []

-- `metricsserver.Options`; `filtered` says that `FilterProvider` is set.
pub record MetricsOptions : Type 0 where
  pub bind_address : String
  pub secure_serving : Bool
  pub tls : List TlsOption
  pub filtered : Bool

unfoldable pub metrics_options : Flags → Option CertWatcher → MetricsOptions
metrics_options flags watcher = record {
  bind_address = flags.metrics_addr;
  secure_serving = flags.secure_metrics;
  tls = with_watcher (tls_opts flags) watcher;
  filtered = flags.secure_metrics;
}

unfoldable pub webhook_tls_opts : Flags → Option CertWatcher → List TlsOption
webhook_tls_opts flags watcher = with_watcher (tls_opts flags) watcher

-- `ctrl.Options`, with the options of the webhook server.
pub record ManagerOptions : Type 0 where
  pub metrics : MetricsOptions
  pub webhook_tls : List TlsOption
  pub health_probe_bind_address : String
  pub leader_election : Bool
  pub leader_election_id : String

unfoldable pub manager_options : Flags → Option CertWatcher → Option CertWatcher → ManagerOptions
manager_options flags webhook_watcher metrics_watcher = record {
  metrics = metrics_options flags metrics_watcher;
  webhook_tls = webhook_tls_opts flags webhook_watcher;
  health_probe_bind_address = flags.probe_addr;
  leader_election = flags.enable_leader_election;
  leader_election_id = "2763874c.agentic-layer.ai";
}
