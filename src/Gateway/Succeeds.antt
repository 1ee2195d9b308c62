-- ===== src/Gateway/Succeeds.antt =====
-- The run of a ToolGateway where nothing fails.
use tool_gateway_agentgatewa.Prelude.{String, ◌≡◌, List, [], ◌∷◌, Option, none}
use tool_gateway_agentgatewa.Kube.Errors.{ok}
use tool_gateway_agentgatewa.Kube.Types.{Key, resolve_ref, ToolGateway, Guard}
use tool_gateway_agentgatewa.Kube.Objects.{Kind}
use tool_gateway_agentgatewa.Kube.Client.{Env}
use tool_gateway_agentgatewa.Kube.Client.Effect.{Store}
use tool_gateway_agentgatewa.Kube.Client.Willing.{IsOk, IsWilling, Accepts}
use tool_gateway_agentgatewa.Otel.Headers.{HeaderMap}
use tool_gateway_agentgatewa.Resources.{new_agentgateway_parameters, new_agentgateway_policy}
use tool_gateway_agentgatewa.Gateway.Guardrails.{
  guardrail_policy_key, mutate_guardrail_policy, guard_readiness,
}
use tool_gateway_agentgatewa.Gateway.Reconcile.{mutate_gateway, mutate_parameters}

-- In every state of the cluster the mutations of the three objects accept what is there, or else the
-- new object: nobody else controls it.
pub record IsAccepted {env : Env} (store : Store env) (unmarshal : String → Option HeaderMap)
    (tg : ToolGateway) : Type 0 where
  pub parameters :
      Accepts store Kind.parameters tg.key
        (new_agentgateway_parameters tg.key)
        (mutate_parameters env unmarshal tg)
  pub gateway :
      Accepts store Kind.gateway tg.key
        (record { owner = none; content = none })
        (mutate_gateway env unmarshal tg)
  pub policy :
      (ref : Key)
      → Accepts store Kind.policy
          (guardrail_policy_key tg)
          (new_agentgateway_policy (guardrail_policy_key tg))
          (mutate_guardrail_policy env tg ref)

module _ (env : Env) {store : Store env} (willing : IsWilling env store)
    (unmarshal : String → Option HeaderMap) (tg : ToolGateway)
    (accepted : IsAccepted store unmarshal tg) where
  -- No guard, or one that every reading finds ready.
  pub data IsServable : List Key → Type 0 where
    no_guard : IsServable []
    one_guard :
        (ref : Key)
        → ((w : env.World) → IsOk (env.get_guard (resolve_ref ref tg.key.namespace) w).0)
        → ((w : env.World) (g : Guard)
            → (env.get_guard (resolve_ref ref tg.key.namespace) w).0 ≡ ok g
            → IsOk (
                guard_readiness
                  (resolve_ref ref tg.key.namespace)
                  (env.find_status_condition g.conditions "Ready")))
        → IsServable (ref ∷ [])
