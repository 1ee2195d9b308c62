-- ===== src/Gateway/Reconcile.antt =====
-- internal/controller/toolgateway_reconciler.go: `Reconcile`, `reconcileToolGateway`, the objects
-- that it ensures, and the status.
use tool_gateway_agentgatewa.Prelude.{String, [], ◌∷◌, Option, none, some, if◌then◌else◌}
use tool_gateway_agentgatewa.Prelude.Text.{concat}
use tool_gateway_agentgatewa.Kube.Errors.{
  Error, guard_not_found, guard_not_ready, wrapped, message, is_not_found, errors_is, Result, ok,
  err,
}
use tool_gateway_agentgatewa.Kube.Errors
use tool_gateway_agentgatewa.Kube.Types.{
  Key, Condition, condition_true, condition_false, Status, ToolGateway,
}
use tool_gateway_agentgatewa.Kube.Objects.{Kind, OwnerKind, Object, GatewaySpec}
use tool_gateway_agentgatewa.Kube.Client.{
  Env, Call, Act, pure, ◌>>=◌, ◌>>◌, check, query, command, emit_operation,
}
use tool_gateway_agentgatewa.Otel.Headers.{HeaderMap}
use tool_gateway_agentgatewa.Resources.{
  new_agentgateway_parameters, set_agentgateway_parameters_spec,
}
use tool_gateway_agentgatewa.Ownership.{is_tool_gateway_owned_by_controller}
use tool_gateway_agentgatewa.Gateway.Guardrails.{ensure_guardrails}

-- `gateway.Spec`, with its infrastructure.
unfoldable pub gateway_spec : ToolGateway → GatewaySpec
gateway_spec tg = record {
  gateway_class_name = "agentgateway";
  listeners = record { name = "http"; protocol = "HTTP"; port = 80; allowed_from = "All" } ∷ [];
  infrastructure =
      some (record {
        group = "agentgateway.dev";
        kind = "AgentgatewayParameters";
        name = tg.key.name;
      });
}

unfoldable pub gateway_url : Key → String
gateway_url key = concat ("http://" ∷ key.name ∷ "." ∷ key.namespace ∷ ".svc.cluster.local" ∷ [])

unfoldable pub ready_condition : ToolGateway → Condition
ready_condition tg = record {
  kind = "Ready";
  status = condition_true;
  reason = "Reconciled";
  message = "Gateway and its backing resources are configured";
  observed_generation = tg.generation;
}

unfoldable pub not_ready_condition : ToolGateway → String → String → Condition
not_ready_condition tg reason text = record {
  kind = "Ready";
  status = condition_false;
  reason = reason;
  message = text;
  observed_generation = tg.generation;
}

-- The reason of a guardrail error.
unfoldable pub guardrail_reason : Error → String
guardrail_reason e =
    if errors_is e guard_not_found
    then "GuardNotFound"
    else if errors_is e guard_not_ready
    then "GuardNotReady"
    else "GuardrailsReconciliationFailed"

module _ (env : Env) (unmarshal : String → Option HeaderMap) where
  unfoldable pub mutate_gateway : ToolGateway → Object Kind.gateway → Result (Object Kind.gateway)
  mutate_gateway tg o =
      Errors.◌>>=◌ (env.set_controller_reference (OwnerKind.tool_gateway, tg.key) o.owner)
        λ owner. ok (record { owner = owner; content = some (gateway_spec tg) })

  unfoldable pub mutate_parameters :
      ToolGateway → Object Kind.parameters → Result (Object Kind.parameters)
  mutate_parameters tg o =
      Errors.◌>>=◌ (env.set_controller_reference (OwnerKind.tool_gateway, tg.key) o.owner) λ owner.
        Errors.◌>>=◌ (set_agentgateway_parameters_spec env unmarshal o.content tg)
          λ content. ok (record { owner = owner; content = content })

  unfoldable pub ensure_agentgateway_parameters : ToolGateway → Act env (Result (Unit {0}))
  ensure_agentgateway_parameters tg = do
    op ← command (Call.upsert Kind.parameters tg.key) (
        env.create_or_patch Kind.parameters tg.key (new_agentgateway_parameters tg.key)
          (mutate_parameters tg))
    check op (λ e. pure (err (wrapped "failed to create or update AgentgatewayParameters: " e "")))
        (λ done. do
          emit_operation OwnerKind.tool_gateway tg.key
              (
                "AgentgatewayParametersCreated",
                concat ("Created AgentgatewayParameters " ∷ tg.key.name ∷ []),
              )
              (
                "AgentgatewayParametersUpdated",
                concat ("Updated AgentgatewayParameters " ∷ tg.key.name ∷ []),
              )
              done
          pure (ok tt))

  unfoldable pub ensure_gateway : ToolGateway → Act env (Result (Unit {0}))
  ensure_gateway tg = do
    op ← command (Call.upsert Kind.gateway tg.key) (
        env.create_or_patch Kind.gateway tg.key (record { owner = none; content = none })
          (mutate_gateway tg))
    check op (λ e. pure (err (wrapped "failed to create or update Gateway: " e "")))
        (λ done. do
          emit_operation OwnerKind.tool_gateway tg.key
              ("GatewayCreated", concat ("Created Gateway " ∷ tg.key.name ∷ []))
              ("GatewayUpdated", concat ("Updated Gateway " ∷ tg.key.name ∷ [])) done
          pure (ok tt))

  -- `none`, or the reason and the error; and the object in memory.
  abbrev pub CoreOutcome : Type 0
  CoreOutcome = Option (String × Error) × ToolGateway

  abbrev pub core_of_guardrails : Result (Unit {0}) × ToolGateway → Act env CoreOutcome
  core_of_guardrails (ok _, tg) = pure (none, tg)
  core_of_guardrails (err e, tg) = pure (some (guardrail_reason e, e), tg)

  unfoldable pub reconcile_tool_gateway : ToolGateway → Act env CoreOutcome
  reconcile_tool_gateway tg = do
    parameters ← ensure_agentgateway_parameters tg
    check parameters (λ e. pure (some ("AgentgatewayParametersReconciliationFailed", e), tg))
        (λ _. do
          gateway ← ensure_gateway tg
          check gateway (λ e. pure (some ("GatewayReconciliationFailed", e), tg))
              (λ _. do guardrails ← ensure_guardrails env tg; core_of_guardrails guardrails))

  -- The patch starts from the object as it is in memory.
  unfoldable pub patch_tool_gateway_status : ToolGateway → Status → Act env (Result (Unit {0}))
  patch_tool_gateway_status tg status = do
    patched ←
        command (Call.patch OwnerKind.tool_gateway tg.key tg.status status)
          (env.patch_status OwnerKind.tool_gateway tg.key tg.status status)
    check patched (λ e. pure (err (wrapped "failed to patch ToolGateway status: " e "")))
        (λ _. pure (ok tt))

  unfoldable pub ready_status : ToolGateway → Status
  ready_status tg = record {
    url = gateway_url tg.key;
    conditions = env.set_status_condition tg.status.conditions (ready_condition tg);
  }

  unfoldable pub not_ready_status : ToolGateway → String → String → Status
  not_ready_status tg reason text = record tg.status {
    conditions = env.set_status_condition tg.status.conditions (not_ready_condition tg reason text);
  }

  unfoldable pub update_status_ready : ToolGateway → Act env (Result (Unit {0}))
  update_status_ready tg = patch_tool_gateway_status tg (ready_status tg)

  unfoldable pub update_status_not_ready :
      ToolGateway → String → String → Act env (Result (Unit {0}))
  update_status_not_ready tg reason text =
      patch_tool_gateway_status tg (not_ready_status tg reason text)

  -- The end of `Reconcile`. A failed patch of the status is only logged where the core failed.
  abbrev pub mirror : CoreOutcome → Act env (Result (Unit {0}))
  mirror (none, tg) = update_status_ready tg
  mirror (some (reason, e), tg) = do _ ← update_status_not_ready tg reason (message e); pure (err e)

  unfoldable pub reconcile_owned : ToolGateway → Act env (Result (Unit {0}))
  reconcile_owned tg = do outcome ← reconcile_tool_gateway tg; mirror outcome

  unfoldable pub reconcile : Key → Act env (Result (Unit {0}))
  reconcile req = do
    found ← query (env.get_tool_gateway req)
    check found (λ e. if is_not_found e then pure (ok tt) else pure (err e))
        (λ tg. do
          owned ← is_tool_gateway_owned_by_controller env tg
          check owned (λ e. pure (err e))
              (λ is_owned. if is_owned then reconcile_owned tg else pure (ok tt)))
