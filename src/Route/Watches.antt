-- ===== src/Route/Watches.antt =====
-- internal/controller/toolroute_reconciler.go: which routes a changed ToolGateway, or a changed
-- ToolServer, sends back to the reconciler.
use tool_gateway_agentgatewa.Prelude.{
  String, Bool, false, List, [], ◌∷◌, Option, none, some, str_eq, if◌then◌else◌,
}
use tool_gateway_agentgatewa.Kube.Types.{
  Key, same_key, resolve_ref, ToolGateway, ToolRoute, ToolServer,
}
use tool_gateway_agentgatewa.Kube.Client.{Env, Act, pure, ◌>>=◌, check, query}
use tool_gateway_agentgatewa.Ownership.{default_tool_gateway_namespace}

unfoldable pub requests_where : (ToolRoute → Bool) → List ToolRoute → List Key
requests_where test [] = []
requests_where test (route ∷ routes) =
    let rest = requests_where test routes in if test route then route.key ∷ rest else rest

-- A route with no reference is concerned by every gateway of the default namespace.
abbrev pub ref_targets : Key → String → Option Key → Bool
ref_targets gateway namespace none = str_eq gateway.namespace default_tool_gateway_namespace
ref_targets gateway namespace (some ref) = same_key (resolve_ref ref namespace) gateway

unfoldable pub targets_gateway : Key → ToolRoute → Bool
targets_gateway gateway route = ref_targets gateway route.key.namespace route.tool_gateway_ref

abbrev pub ref_uses : Key → String → Option Key → Bool
ref_uses server namespace none = false
ref_uses server namespace (some ref) = same_key (resolve_ref ref namespace) server

unfoldable pub uses_tool_server : Key → ToolRoute → Bool
uses_tool_server server route = ref_uses server route.key.namespace route.upstream.tool_server_ref

module _ (env : Env) where
  unfoldable pub find_tool_routes_for_tool_gateway : ToolGateway → Act env (List Key)
  find_tool_routes_for_tool_gateway tg = do
    items ← query env.list_tool_routes
    check items (λ e. pure []) (λ routes. pure (requests_where (targets_gateway tg.key) routes))

  unfoldable pub find_tool_routes_for_tool_server : ToolServer → Act env (List Key)
  find_tool_routes_for_tool_server ts = do
    items ← query env.list_tool_routes
    check items (λ e. pure []) (λ routes. pure (requests_where (uses_tool_server ts.key) routes))
