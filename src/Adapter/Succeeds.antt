-- ===== src/Adapter/Succeeds.antt =====
-- The run of a Guard where nothing fails.
use tool_gateway_agentgatewa.Prelude.{String, ◌≡◌, ◌≢◌, List, [], ◌∷◌, ◌++◌, none}
use tool_gateway_agentgatewa.Kube.Errors.{ok}
use tool_gateway_agentgatewa.Kube.Types.{resolve_ref, condition_true, Guard, GuardrailProvider}
use tool_gateway_agentgatewa.Kube.Objects.{Kind}
use tool_gateway_agentgatewa.Kube.Client.{Env, Call}
use tool_gateway_agentgatewa.Kube.Client.Effect.{Store}
use tool_gateway_agentgatewa.Kube.Client.Willing.{IsOk, IsWilling, Accepts}
use tool_gateway_agentgatewa.Adapter.StaticConfig.{Rendering, render_static_config}
use tool_gateway_agentgatewa.Adapter.Ensure.{
  adapter_key, blank_deployment, mutate_config_map, mutate_deployment, mutate_service,
}
use tool_gateway_agentgatewa.Adapter.Runs.{all_calls}
use tool_gateway_agentgatewa.Adapter.Reconciled.{status_patch}

-- In every state of the cluster the mutations of the three objects accept what is there, or else the
-- new object: nobody else controls it.
pub record IsAccepted {env : Env} (store : Store env) (image : String) (guard : Guard)
    : Type 0 where
  pub config_map :
      (body : String)
      → Accepts store Kind.config_map
          (adapter_key guard)
          (record { owner = none; content = [] })
          (mutate_config_map env guard body)
  pub deployment :
      (hash : String)
      → Accepts store Kind.deployment
          (adapter_key guard)
          (record { owner = none; content = blank_deployment })
          (mutate_deployment env image guard hash)
  pub service :
      Accepts store Kind.service
        (adapter_key guard)
        (record { owner = none; content = record { selector = []; ports = [] } })
        (mutate_service env guard)

module _ (env : Env) {store : Store env} (willing : IsWilling env store) (rendering : Rendering)
    (image : String) (guard : Guard) (accepted : IsAccepted store image guard) where
  -- Every reading of the provider succeeds, and what is read can be rendered.
  pub record IsConfigured : Type 0 where
    pub has_image : image ≢ ""
    pub reads :
        (w : env.World)
        → IsOk (env.get_guardrail_provider (resolve_ref guard.provider_ref guard.key.namespace) w).0
    pub renders :
        (w : env.World) (p : GuardrailProvider)
        → (env.get_guardrail_provider (resolve_ref guard.provider_ref guard.key.namespace) w).0
          ≡ ok p
        → IsOk (render_static_config rendering guard p)

  -- The calls of a whole run.
  abbrev pub ready_calls : List Call
  ready_calls =
      all_calls env rendering image guard
      ++ status_patch env rendering image guard condition_true "Reconciled"
          "Adapter resources reconciled"
        ∷ []
