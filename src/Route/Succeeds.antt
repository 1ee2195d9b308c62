-- ===== src/Route/Succeeds.antt =====
-- The run of a ToolRoute where nothing fails.
use tool_gateway_agentgatewa.Prelude.{String, List, [], ◌∷◌, none}
use tool_gateway_agentgatewa.Prelude.Text.{Text}
use tool_gateway_agentgatewa.Kube.Errors.{Result}
use tool_gateway_agentgatewa.Kube.Types.{ToolGateway, ToolRoute}
use tool_gateway_agentgatewa.Kube.Objects.{Kind}
use tool_gateway_agentgatewa.Kube.Client.{Env, Call}
use tool_gateway_agentgatewa.Kube.Client.Effect.{Store}
use tool_gateway_agentgatewa.Kube.Client.Willing.{IsWilling, Accepts}
use tool_gateway_agentgatewa.Resources.{new_agentgateway_backend, new_agentgateway_policy}
use tool_gateway_agentgatewa.Route.Upstream.{Url, Target}
use tool_gateway_agentgatewa.Route.Ensure.{
  child_key, tool_filter_policy_key, mutate_backend, mutate_http_route, mutate_policy,
}
use tool_gateway_agentgatewa.Route.Reconcile.{route_path_of}
use tool_gateway_agentgatewa.Route.Runs.{backend_call, http_route_call, filter_call, ready_patch}

-- In every state of the cluster the mutations of the three objects accept what is there, or else the
-- new object: nobody else controls it.
pub record IsAccepted {env : Env} (store : Store env) (route : ToolRoute) (tg : ToolGateway)
    : Type 0 where
  pub backend :
      (target : Target)
      → Accepts store Kind.backend
          (child_key tg route)
          (new_agentgateway_backend (child_key tg route))
          (mutate_backend env route target)
  pub http_route :
      Accepts store Kind.http_route
        (child_key tg route)
        (record { owner = none; content = none })
        (mutate_http_route env route tg (route_path_of route))
  pub policy :
      (rules : List Text)
      → Accepts store Kind.policy
          (tool_filter_policy_key tg route)
          (new_agentgateway_policy (tool_filter_policy_key tg route))
          (mutate_policy env route tg rules)

module _ (env : Env) {store : Store env} (willing : IsWilling env store) (route : ToolRoute)
    (tg : ToolGateway) (accepted : IsAccepted store route tg) where
  module _ (parse_url : String → Result Url) where
    -- The calls of a whole run.
    abbrev pub all_calls : List Call
    all_calls =
        backend_call env parse_url route tg
        ∷ http_route_call env parse_url route tg
        ∷ filter_call env parse_url route tg
        ∷ ready_patch env parse_url route tg
        ∷ []
