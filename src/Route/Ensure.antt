-- ===== src/Route/Ensure.antt =====
-- internal/controller/toolroute_reconciler.go: `ensureBackend`, `ensureHTTPRoute` and `ensurePolicy`.
use tool_gateway_agentgatewa.Prelude.{String, List, [], ◌∷◌, none, some, map, if◌then◌else◌}
use tool_gateway_agentgatewa.Prelude.Text.{Text, concat}
use tool_gateway_agentgatewa.Authz.Rules.{build_mcp_authorization_rules}
use tool_gateway_agentgatewa.Kube.Errors
use tool_gateway_agentgatewa.Kube.Errors.{wrapped, is_not_found, Result, ok, err}
use tool_gateway_agentgatewa.Kube.Types.{Key, ToolGateway, ToolRoute}
use tool_gateway_agentgatewa.Kube.Json.{Json, string, runes, slice, map_of}
use tool_gateway_agentgatewa.Kube.Objects.{Kind, OwnerKind, Object}
use tool_gateway_agentgatewa.Kube.Client.{
  Env, Call, Act, pure, ◌>>=◌, ◌>>◌, check, command, emit_normal_event, emit_operation,
}
use tool_gateway_agentgatewa.Resources.{
  new_agentgateway_backend, new_agentgateway_policy, build_mcp_target, set_mcp_targets,
  build_http_route_spec,
}
use tool_gateway_agentgatewa.Route.Upstream.{Target}

-- `tg.Name + "-" + route.Name` in the namespace of the route: the backend and the HTTPRoute.
unfoldable pub child_key : ToolGateway → ToolRoute → Key
child_key tg route = record {
  namespace = route.key.namespace;
  name = concat (tg.key.name ∷ "-" ∷ route.key.name ∷ []);
}

unfoldable pub tool_filter_policy_key : ToolGateway → ToolRoute → Key
tool_filter_policy_key tg route = record {
  namespace = route.key.namespace;
  name = concat (tg.key.name ∷ "-" ∷ route.key.name ∷ "-toolfilter" ∷ []);
}

-- What the mutation of the policy writes at two paths.
unfoldable pub policy_target_ref : ToolGateway → ToolRoute → Json
policy_target_ref tg route = map_of (
    ("group", string "gateway.networking.k8s.io")
    ∷ ("kind", string "HTTPRoute")
    ∷ ("name", string (child_key tg route).name)
    ∷ [])

unfoldable pub authorization : List Text → Json
authorization rules = map_of (
    ("action", string "Allow")
    ∷ ("policy", map_of (("matchExpressions", slice (map runes rules)) ∷ []))
    ∷ [])

module _ (env : Env) where
  unfoldable pub mutate_backend :
      ToolRoute → Target → Object Kind.backend → Result (Object Kind.backend)
  mutate_backend route target o =
      Errors.◌>>=◌ (env.set_controller_reference (OwnerKind.tool_route, route.key) o.owner) λ owner.
        Errors.◌>>=◌
          (set_mcp_targets env o.content
            (build_mcp_target "mcp-target" target.host target.port target.path ∷ []))
          λ content. ok (record { owner = owner; content = content })

  unfoldable pub ensure_backend : ToolRoute → ToolGateway → Target → Act env (Result (Unit {0}))
  ensure_backend route tg target = do
    let key = child_key tg route
    op ← command (Call.upsert Kind.backend key) (
        env.create_or_patch Kind.backend key (new_agentgateway_backend key)
          (mutate_backend route target))
    check op (λ e. pure (err (wrapped "failed to ensure AgentgatewayBackend: " e "")))
        (λ done. do
          emit_operation OwnerKind.tool_route route.key
              ("BackendCreated", concat ("Created AgentgatewayBackend " ∷ key.name ∷ []))
              ("BackendUpdated", concat ("Updated AgentgatewayBackend " ∷ key.name ∷ [])) done
          pure (ok tt))

  unfoldable pub mutate_http_route :
      ToolRoute → ToolGateway → String → Object Kind.http_route → Result (Object Kind.http_route)
  mutate_http_route route tg route_path o =
      Errors.◌>>=◌ (env.set_controller_reference (OwnerKind.tool_route, route.key) o.owner) λ owner.
        ok (record {
          owner = owner;
          content = some (build_http_route_spec tg.key (child_key tg route) route_path);
        })

  unfoldable pub ensure_http_route : ToolRoute → ToolGateway → String → Act env (Result (Unit {0}))
  ensure_http_route route tg route_path = do
    let key = child_key tg route
    op ← command (Call.upsert Kind.http_route key) (
        env.create_or_patch Kind.http_route key (record { owner = none; content = none })
          (mutate_http_route route tg route_path))
    check op (λ e. pure (err (wrapped "failed to ensure HTTPRoute: " e "")))
        (λ done. do
          emit_operation OwnerKind.tool_route route.key
              ("HTTPRouteCreated", concat ("Created HTTPRoute " ∷ key.name ∷ []))
              ("HTTPRouteUpdated", concat ("Updated HTTPRoute " ∷ key.name ∷ [])) done
          pure (ok tt))

  unfoldable pub mutate_policy :
      ToolRoute → ToolGateway → List Text → Object Kind.policy → Result (Object Kind.policy)
  mutate_policy route tg rules o =
      Errors.◌>>=◌ (env.set_controller_reference (OwnerKind.tool_route, route.key) o.owner) λ owner.
        Errors.◌>>=◌
          (env.set_nested o.content (slice (policy_target_ref tg route ∷ []))
            ("spec" ∷ "targetRefs" ∷ []))
          λ targeted.
            Errors.◌>>=◌
              (env.set_nested targeted (authorization rules)
                ("spec" ∷ "backend" ∷ "mcp" ∷ "authorization" ∷ []))
              λ content. ok (record { owner = owner; content = content })

  unfoldable pub delete_policy : ToolRoute → ToolGateway → Act env (Result (Unit {0}))
  delete_policy route tg = do
    let key = tool_filter_policy_key tg route
    deleted ← command (Call.remove Kind.policy key) (env.delete Kind.policy key)
    check deleted
        (λ e.
          if is_not_found e
          then pure (ok tt)
          else pure (err (wrapped "failed to delete stale tool-filter policy: " e "")))
        (λ _. do
          emit_normal_event OwnerKind.tool_route route.key "PolicyDeleted"
              (concat ("Deleted AgentgatewayPolicy " ∷ key.name ∷ " (tool filter cleared)" ∷ []))
          pure (ok tt))

  unfoldable pub apply_policy : ToolRoute → ToolGateway → List Text → Act env (Result (Unit {0}))
  apply_policy route tg rules = do
    let key = tool_filter_policy_key tg route
    op ← command (Call.upsert Kind.policy key) (
        env.create_or_patch Kind.policy key (new_agentgateway_policy key)
          (mutate_policy route tg rules))
    check op (λ e. pure (err (wrapped "failed to ensure AgentgatewayPolicy: " e "")))
        (λ done. do
          emit_operation OwnerKind.tool_route route.key
              ("PolicyCreated", concat ("Created AgentgatewayPolicy " ∷ key.name ∷ []))
              ("PolicyUpdated", concat ("Updated AgentgatewayPolicy " ∷ key.name ∷ [])) done
          pure (ok tt))

  unfoldable pub ensure_policy_for :
      ToolRoute → ToolGateway → List Text → Act env (Result (Unit {0}))
  ensure_policy_for route tg [] = delete_policy route tg
  ensure_policy_for route tg (r ∷ rs) = apply_policy route tg (r ∷ rs)

  unfoldable pub ensure_policy : ToolRoute → ToolGateway → Act env (Result (Unit {0}))
  ensure_policy route tg =
      ensure_policy_for route tg (build_mcp_authorization_rules route.tool_filter)
