-- ===== src/Wiring.antt =====
-- `SetupWithManager` of the three reconcilers: what each controller reconciles, which objects it owns,
-- and what it watches. The builder of controller-runtime takes these as data.
pub mod Managed
pub mod Guarded
pub mod Requests
pub mod Names
pub mod Meets
pub mod Jobs
use tool_gateway_agentgatewa.Prelude.{String, List, [], ◌∷◌}
use tool_gateway_agentgatewa.Kube.Types.{
  Key, ToolGateway, ToolRoute, ToolServer, Guard, GuardrailProvider,
}
use tool_gateway_agentgatewa.Kube.Objects.{Kind, OwnerKind}
use tool_gateway_agentgatewa.Kube.Client.{Env, Act, pure}
use tool_gateway_agentgatewa.Ownership.{controller_name}
use tool_gateway_agentgatewa.Gateway.Watches.{
  find_tool_gateway_for_guard, find_tool_gateway_for_guardrail_provider,
}
use tool_gateway_agentgatewa.Route.Watches.{
  find_tool_routes_for_tool_gateway, find_tool_routes_for_tool_server,
}
use tool_gateway_agentgatewa.Adapter.Reconcile.{find_guards_for_provider}

-- `client.Object`, as far as the watches meet it.
pub data WatchedObject : Type 0 where
  a_tool_gateway : ToolGateway → WatchedObject
  a_tool_server : ToolServer → WatchedObject
  a_guard : Guard → WatchedObject
  a_guardrail_provider : GuardrailProvider → WatchedObject

-- The types that are watched.
pub data Watched : Type 0 where
  tool_gateways tool_servers guards guardrail_providers : Watched

module _ (env : Env) where
  -- The map functions on any object: `obj.(*T)` that fails gives no request.
  unfoldable pub map_guard_to_tool_gateways : WatchedObject → Act env (List Key)
  map_guard_to_tool_gateways (a_guard g) = find_tool_gateway_for_guard env g
  map_guard_to_tool_gateways _ = pure []

  unfoldable pub map_provider_to_tool_gateways : WatchedObject → Act env (List Key)
  map_provider_to_tool_gateways (a_guardrail_provider p) =
      find_tool_gateway_for_guardrail_provider env p
  map_provider_to_tool_gateways _ = pure []

  unfoldable pub map_tool_gateway_to_tool_routes : WatchedObject → Act env (List Key)
  map_tool_gateway_to_tool_routes (a_tool_gateway tg) = find_tool_routes_for_tool_gateway env tg
  map_tool_gateway_to_tool_routes _ = pure []

  unfoldable pub map_tool_server_to_tool_routes : WatchedObject → Act env (List Key)
  map_tool_server_to_tool_routes (a_tool_server ts) = find_tool_routes_for_tool_server env ts
  map_tool_server_to_tool_routes _ = pure []

  unfoldable pub map_provider_to_guards : WatchedObject → Act env (List Key)
  map_provider_to_guards (a_guardrail_provider p) = find_guards_for_provider env p
  map_provider_to_guards _ = pure []

  -- What the builder is given: `For`, `Owns`, `Watches`, `Named`.
  pub record Controller : Type 0 where
    pub primary : OwnerKind
    pub owns : List Kind
    pub watches : List (Watched × (WatchedObject → Act env (List Key)))
    pub name : String

  unfoldable pub tool_gateway_controller : Controller
  tool_gateway_controller = record {
    primary = OwnerKind.tool_gateway;
    owns = Kind.gateway ∷ Kind.parameters ∷ Kind.policy ∷ [];
    watches =
        (guards, map_guard_to_tool_gateways)
        ∷ (guardrail_providers, map_provider_to_tool_gateways)
        ∷ [];
    name = controller_name;
  }

  unfoldable pub tool_route_controller : Controller
  tool_route_controller = record {
    primary = OwnerKind.tool_route;
    owns = Kind.http_route ∷ [];
    watches =
        (tool_gateways, map_tool_gateway_to_tool_routes)
        ∷ (tool_servers, map_tool_server_to_tool_routes)
        ∷ [];
    name = "runtime.agentic-layer.ai/toolroute-agentgateway-controller";
  }

  unfoldable pub guard_controller : Controller
  guard_controller = record {
    primary = OwnerKind.guard;
    owns = Kind.deployment ∷ Kind.config_map ∷ Kind.service ∷ [];
    watches = (guardrail_providers, map_provider_to_guards) ∷ [];
    name = "runtime.agentic-layer.ai/guard-adapter-controller";
  }
