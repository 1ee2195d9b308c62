-- ===== src/Tests/Operator.antt =====
-- The operator with a certificate for its webhook, where every call succeeds, and its controllers.
use tool_gateway_agentgatewa.Prelude.{◌≡◌, false, [], ◌∷◌, ◌++◌, none, some, All}
use tool_gateway_agentgatewa.Prelude.Text.{concat}
use tool_gateway_agentgatewa.Kube.Objects.{Kind}
use tool_gateway_agentgatewa.Kube.Client.Logic.{Performs}
use tool_gateway_agentgatewa.Operator.Options.{
  Flags, default_flags, CertWatcher, TlsConfig, configure, manager_options,
}
use tool_gateway_agentgatewa.Operator.Startup.{Answers, main}
use tool_gateway_agentgatewa.Operator.Tls.{
  allowed_protos, served_certificate, manager_options-configure,
}
use tool_gateway_agentgatewa.Operator.Plan.{IsStartup, plan, main-IsStartup}
use tool_gateway_agentgatewa.Gateway.Reconcile as gateway
use tool_gateway_agentgatewa.Route.Reconcile as route
use tool_gateway_agentgatewa.Adapter.Reconcile as adapter
use tool_gateway_agentgatewa.Wiring.{
  a_tool_server, a_guardrail_provider, map_tool_server_to_tool_routes, map_provider_to_guards,
  tool_gateway_controller, tool_route_controller, guard_controller,
}
use tool_gateway_agentgatewa.Kube.Types.{ToolServer}
use tool_gateway_agentgatewa.Wiring.Requests.{
  IsRouteRequests, map_tool_server-IsRouteRequests, IsGuardRequests, map_provider-IsGuardRequests,
}
use tool_gateway_agentgatewa.Wiring.Managed.{
  IsWithin, reconcile-owned_gateway, reconcile-owned_route, reconcile-owned_guard,
}
use tool_gateway_agentgatewa.Tests.Cluster.{
  presidio, cluster, parse_url, unmarshal, rendering, gateway_key, route_key, guard_key,
}

abbrev flags : Flags
flags = record default_flags { webhook_cert_path = "/certs"; guardrail_adapter_image = "adapter:1" }

abbrev watcher : CertWatcher
watcher = record { cert_file = "/certs/tls.crt"; key_file = "/certs/tls.key" }

abbrev answers : Answers
answers = record { join = λ path name. concat (path ∷ "/" ∷ name ∷ []); fails = λ log step. false }

abbrev server : TlsConfig
server = record { next_protos = "h2" ∷ "http/1.1" ∷ []; certificate = none }

main-IsStartup_example : IsStartup answers [] (plan answers flags) (main answers flags)
main-IsStartup_example = main-IsStartup answers flags

manager_options-configure_example :
    (configure (manager_options flags (some watcher) none).webhook_tls server ≡ record {
      next_protos = allowed_protos flags server.next_protos;
      certificate = served_certificate (some watcher) server.certificate;
    })
    × (configure (manager_options flags (some watcher) none).metrics.tls server ≡ record {
      next_protos = allowed_protos flags server.next_protos;
      certificate = served_certificate none server.certificate;
    })
manager_options-configure_example = manager_options-configure flags (some watcher) none server

reconcile-owned_gateway_example :
    Performs cluster (gateway.reconcile cluster unmarshal gateway_key) (λ r ws.
      All
        (IsWithin (tool_gateway_controller cluster).primary (tool_gateway_controller cluster).owns)
        ws)
reconcile-owned_gateway_example = reconcile-owned_gateway cluster unmarshal gateway_key

reconcile-owned_guard_example :
    Performs cluster
      (adapter.reconcile cluster rendering "adapter:1" guard_key)
      (λ r ws. All (IsWithin (guard_controller cluster).primary (guard_controller cluster).owns) ws)
reconcile-owned_guard_example = reconcile-owned_guard cluster rendering "adapter:1" guard_key

reconcile-owned_route_example :
    Performs cluster (route.reconcile cluster parse_url route_key) (λ r ws.
      All
        (IsWithin
          (tool_route_controller cluster).primary
          ((tool_route_controller cluster).owns ++ Kind.backend ∷ Kind.policy ∷ []))
        ws)
reconcile-owned_route_example = reconcile-owned_route cluster parse_url route_key

abbrev search_server : ToolServer
search_server = record {
  key = record { namespace = "team"; name = "search" };
  port = 8000;
  path = "/mcp";
}

map_tool_server-IsRouteRequests_example :
    Performs cluster
      (map_tool_server_to_tool_routes cluster (a_tool_server search_server))
      (λ keys ws. (ws ≡ []) × IsRouteRequests cluster search_server keys)
map_tool_server-IsRouteRequests_example = map_tool_server-IsRouteRequests cluster search_server

map_provider-IsGuardRequests_example :
    Performs cluster
      (map_provider_to_guards cluster (a_guardrail_provider presidio))
      (λ keys ws. (ws ≡ []) × IsGuardRequests cluster presidio keys)
map_provider-IsGuardRequests_example = map_provider-IsGuardRequests cluster presidio
