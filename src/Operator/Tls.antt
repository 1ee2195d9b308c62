-- ===== src/Operator/Tls.antt =====
-- What the TLS options make of a configuration.
use tool_gateway_agentgatewa.Prelude.{
  String, ◌≡◌, List, [], ◌∷◌, Option, none, some, if◌then◌else◌, arith,
}
use tool_gateway_agentgatewa.Operator.Options.{
  Flags, CertWatcher, TlsConfig, apply_option, configure, tls_opts, with_watcher, metrics_options,
  webhook_tls_opts, manager_options,
}

-- The protocols that a server may speak: no HTTP/2 unless a flag allows it.
abbrev pub allowed_protos : Flags → List String → List String
allowed_protos flags before = if flags.enable_http2 then before else "http/1.1" ∷ []

abbrev pub served_certificate : Option CertWatcher → Option CertWatcher → Option CertWatcher
served_certificate none before = before
served_certificate (some w) before = some w

configure-with_watcher :
    (flags : Flags) (w : Option CertWatcher) (c : TlsConfig)
    → configure (with_watcher (tls_opts flags) w) c ≡ record {
      next_protos = allowed_protos flags c.next_protos;
      certificate = served_certificate w c.certificate;
    }
unfolding configure tls_opts apply_option
configure-with_watcher flags none c = ground arith
configure-with_watcher flags (some w) c = ground arith

-- Whatever the flags and the watchers are, the webhook server and the metrics server speak nothing but
-- HTTP/1.1 unless HTTP/2 is enabled, and then what they spoke before; and each serves the certificate of
-- its own watcher, and what it had before where it has none.
pub manager_options-configure :
    (flags : Flags) (webhook metrics : Option CertWatcher) (c : TlsConfig)
    → (configure (manager_options flags webhook metrics).webhook_tls c ≡ record {
      next_protos = allowed_protos flags c.next_protos;
      certificate = served_certificate webhook c.certificate;
    })
      × (configure (manager_options flags webhook metrics).metrics.tls c ≡ record {
        next_protos = allowed_protos flags c.next_protos;
        certificate = served_certificate metrics c.certificate;
      })
unfolding manager_options webhook_tls_opts metrics_options
manager_options-configure flags webhook metrics c =
    (configure-with_watcher flags webhook c, configure-with_watcher flags metrics c)
