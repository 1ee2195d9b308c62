-- ===== src/Route/Reconcile.antt =====
-- internal/controller/toolroute_reconciler.go: `Reconcile`, `reconcileToolRoute` and the status.
use tool_gateway_agentgatewa.Prelude.{String, Bool, not, [], ◌∷◌, Option, none, some, if◌then◌else◌}
use tool_gateway_agentgatewa.Prelude.Text.{concat}
use tool_gateway_agentgatewa.Kube.Errors.{
  Error, no_default_tool_gateway, wrapped, message, is_not_found, errors_is, Result, ok, err,
}
use tool_gateway_agentgatewa.Kube.Types.{
  Key, Condition, condition_true, condition_false, is_true, Status, ToolGateway, ToolRoute,
}
use tool_gateway_agentgatewa.Kube.Objects.{OwnerKind}
use tool_gateway_agentgatewa.Kube.Client.{
  Env, Call, Act, pure, ◌>>=◌, ◌>>◌, check, query, command, emit_normal_event,
}
use tool_gateway_agentgatewa.Ownership.{
  resolve_tool_gateway_key, is_tool_gateway_owned_by_controller,
}
use tool_gateway_agentgatewa.Route.Upstream.{Url, resolve_route_upstream}
use tool_gateway_agentgatewa.Route.Ensure.{ensure_backend, ensure_http_route, ensure_policy}

unfoldable pub route_path_of : ToolRoute → String
route_path_of route = concat ("/" ∷ route.key.namespace ∷ "/" ∷ route.key.name ∷ "/mcp" ∷ [])

unfoldable pub route_url : ToolGateway → String → String
route_url tg route_path =
    concat
      ("http://" ∷ tg.key.name ∷ "." ∷ tg.key.namespace ∷ ".svc.cluster.local" ∷ route_path ∷ [])

-- `apimeta.IsStatusConditionTrue` of what `FindStatusCondition` finds.
abbrev pub found_true : Option Condition → Bool
found_true none = Bool.false
found_true (some c) = is_true c.status

unfoldable pub ready_condition : ToolRoute → String → Condition
ready_condition route url = record {
  kind = "Ready";
  status = condition_true;
  reason = "Reconciled";
  message = concat ("ToolRoute is ready at " ∷ url ∷ []);
  observed_generation = route.generation;
}

unfoldable pub not_ready_condition : ToolRoute → String → String → Condition
not_ready_condition route reason text = record {
  kind = "Ready";
  status = condition_false;
  reason = reason;
  message = text;
  observed_generation = route.generation;
}

module _ (env : Env) (parse_url : String → Result Url) where
  -- The path of the route, or the reason and the error.
  unfoldable pub reconcile_tool_route :
      ToolRoute → ToolGateway → Act env (String × Option (String × Error))
  reconcile_tool_route route tg = do
    target ← resolve_route_upstream parse_url env route
    check target (λ e. pure ("", some ("UpstreamUnresolved", e)))
        (λ t. do
          backend ← ensure_backend env route tg t
          check backend (λ e. pure ("", some ("BackendReconciliationFailed", e)))
              (λ _. do
                http_route ← ensure_http_route env route tg (route_path_of route)
                check http_route (λ e. pure ("", some ("HTTPRouteReconciliationFailed", e)))
                    (λ _. do
                      policy ← ensure_policy env route tg
                      check policy (λ e. pure ("", some ("PolicyReconciliationFailed", e)))
                          (λ _. pure (route_path_of route, none)))))

  unfoldable pub patch_tool_route_status : ToolRoute → Status → Act env (Result (Unit {0}))
  patch_tool_route_status route status = do
    patched ←
        command (Call.patch OwnerKind.tool_route route.key route.status status)
          (env.patch_status OwnerKind.tool_route route.key route.status status)
    check patched (λ e. pure (err (wrapped "failed to patch ToolRoute status: " e "")))
        (λ _. pure (ok tt))

  unfoldable pub ready_status : ToolRoute → String → Status
  ready_status route url = record {
    url = url;
    conditions = env.set_status_condition route.status.conditions (ready_condition route url);
  }

  unfoldable pub not_ready_status : ToolRoute → String → String → Status
  not_ready_status route reason text = record route.status {
    conditions =
        env.set_status_condition route.status.conditions (not_ready_condition route reason text);
  }

  -- An event only where the route was not ready before.
  unfoldable pub update_status_ready :
      ToolRoute → ToolGateway → String → Act env (Result (Unit {0}))
  update_status_ready route tg route_path = do
    let url = route_url tg route_path
    let was_ready = found_true (env.find_status_condition route.status.conditions "Ready")
    patched ← patch_tool_route_status route (ready_status route url)
    check patched (λ e. pure (err e))
        (λ _.
          if not was_ready
          then (do
            emit_normal_event OwnerKind.tool_route route.key "Ready"
                (concat ("ToolRoute ready at " ∷ url ∷ []))
            pure (ok tt))
          else pure (ok tt))

  unfoldable pub update_status_not_ready : ToolRoute → String → String → Act env (Result (Unit {0}))
  update_status_not_ready route reason text =
      patch_tool_route_status route (not_ready_status route reason text)

  abbrev pub mirror :
      ToolRoute → ToolGateway → String × Option (String × Error) → Act env (Result (Unit {0}))
  mirror route tg (route_path, none) = update_status_ready route tg route_path
  mirror route tg (_, some (reason, e)) = do
    _ ← update_status_not_ready route reason (message e)
    pure (err e)

  unfoldable pub reconcile_owned : ToolRoute → ToolGateway → Act env (Result (Unit {0}))
  reconcile_owned route tg = do outcome ← reconcile_tool_route route tg; mirror route tg outcome

  -- The status of a route whose gateway is not there, which is no error.
  unfoldable pub report_gateway_not_found : ToolRoute → String → Act env (Result (Unit {0}))
  report_gateway_not_found route text = do
    _ ← update_status_not_ready route "GatewayNotFound" text
    pure (ok tt)

  unfoldable pub reconcile_for : ToolRoute → Key → Act env (Result (Unit {0}))
  reconcile_for route gateway_key = do
    found ← query (env.get_tool_gateway gateway_key)
    check found
        (λ e.
          if is_not_found e
          then report_gateway_not_found route (
              concat (
                "ToolGateway " ∷ gateway_key.namespace ∷ "/" ∷ gateway_key.name ∷ " not found"
                ∷ []))
          else pure (err e))
        (λ tg. do
          owned ← is_tool_gateway_owned_by_controller env tg
          check owned (λ e. pure (err e))
              (λ is_owned. if is_owned then reconcile_owned route tg else pure (ok tt)))

  unfoldable pub reconcile : Key → Act env (Result (Unit {0}))
  reconcile req = do
    found ← query (env.get_tool_route req)
    check found (λ e. if is_not_found e then pure (ok tt) else pure (err e))
        (λ route. do
          gateway_key ← resolve_tool_gateway_key env route
          check gateway_key
              (λ e.
                if errors_is e no_default_tool_gateway
                then report_gateway_not_found route (message e)
                else pure (err e))
              (λ key. reconcile_for route key))
