-- ===== src/Adapter/Reconcile.antt =====
-- internal/controller/guard_reconciler.go: `Reconcile`, `reconcileGuard`, the status, and the watch
-- on GuardrailProviders.
use tool_gateway_agentgatewa.Prelude.{
  String, Bool, ◌||◌, List, [], ◌∷◌, Option, none, some, str_eq, if◌then◌else◌,
}
use tool_gateway_agentgatewa.Kube.Errors.{
  Error, failure, unsupported_provider, invalid_config, wrapped, message, is_not_found, errors_is,
  Result, ok, err,
}
use tool_gateway_agentgatewa.Kube.Types.{
  Key, same_key, resolve_ref, Condition, ConditionStatus, condition_true, condition_false, Status,
  Guard, GuardrailProvider,
}
use tool_gateway_agentgatewa.Kube.Objects.{OwnerKind}
use tool_gateway_agentgatewa.Kube.Client.{Env, Call, Act, pure, ◌>>=◌, check, query, command}
use tool_gateway_agentgatewa.Adapter.StaticConfig.{Rendering, render_static_config}
use tool_gateway_agentgatewa.Adapter.Ensure.{ensure_config_map, ensure_deployment, ensure_service}

-- The reasons of Ready=False, and what else may come of a reconciliation.
pub data Reason : Type 0 where
  adapter_not_configured provider_not_found unsupported_provider_type invalid_configuration
        reconcile_failed :
      Reason

unfoldable pub reason_text : Reason → String
reason_text Reason.adapter_not_configured = "AdapterNotConfigured"
reason_text Reason.provider_not_found = "ProviderNotFound"
reason_text Reason.unsupported_provider_type = "UnsupportedProviderType"
reason_text Reason.invalid_configuration = "InvalidConfig"
reason_text Reason.reconcile_failed = "ReconcileFailed"

unfoldable pub is_terminal_reason : String → Bool
unfolding reason_text
is_terminal_reason reason =
    str_eq reason (reason_text Reason.adapter_not_configured)
    || str_eq reason (reason_text Reason.provider_not_found)
    || str_eq reason (reason_text Reason.unsupported_provider_type)
    || str_eq reason (reason_text Reason.invalid_configuration)

-- The reason, the message and the error of a failed reconciliation.
pub record Fault : Type 0 where
  pub reason : Reason
  pub text : String
  pub error : Error

abbrev pub fault : Reason → Error → Fault
fault reason e = record { reason = reason; text = message e; error = e }

unfoldable pub not_configured : Fault
not_configured = record {
  reason = Reason.adapter_not_configured;
  text = "--guardrail-adapter-image flag is not set on the operator";
  error = failure "adapter image not configured";
}

unfoldable pub provider_fault : Error → Fault
provider_fault e =
    if is_not_found e then fault Reason.provider_not_found e else fault Reason.reconcile_failed e

unfoldable pub config_fault : Error → Fault
config_fault e =
    if errors_is e unsupported_provider
    then fault Reason.unsupported_provider_type e
    else if errors_is e invalid_config
    then fault Reason.invalid_configuration e
    else fault Reason.reconcile_failed e

-- A Guard's status has no URL.
abbrev pub guard_status : List Condition → Status
guard_status cs = record { url = ""; conditions = cs }

unfoldable pub ready_condition : Guard → ConditionStatus → String → String → Condition
ready_condition guard status reason text = record {
  kind = "Ready";
  status = status;
  reason = reason;
  message = text;
  observed_generation = guard.generation;
}

module _ (env : Env) (rendering : Rendering) (adapter_image : String) where
  unfoldable pub fetch_provider : Guard → Act env (Result GuardrailProvider)
  fetch_provider guard =
      query (env.get_guardrail_provider (resolve_ref guard.provider_ref guard.key.namespace))

  unfoldable pub ensure_adapter : Guard → String × String → Act env (Option Fault)
  ensure_adapter guard (config_yaml, config_hash) = do
    config_map ← ensure_config_map env guard config_yaml
    check config_map (λ e. pure (some (fault Reason.reconcile_failed e)))
        (λ _. do
          deployment ← ensure_deployment env adapter_image guard config_hash
          check deployment (λ e. pure (some (fault Reason.reconcile_failed e)))
              (λ _. do
                service ← ensure_service env guard
                check service (λ e. pure (some (fault Reason.reconcile_failed e)))
                    (λ _. pure none)))

  unfoldable pub reconcile_guard : Guard → Act env (Option Fault)
  reconcile_guard guard = if str_eq adapter_image "" then pure (some not_configured) else do
    provider ← fetch_provider guard
    check provider (λ e. pure (some (provider_fault e)))
        (λ p.
          check (render_static_config rendering guard p) (λ e. pure (some (config_fault e)))
            (λ rendered. ensure_adapter guard rendered))

  unfoldable pub set_ready_condition :
      Guard → ConditionStatus → String → String → Act env (Result (Unit {0}))
  set_ready_condition guard status reason text = do
    let base = guard_status guard.conditions
    let next =
        guard_status
          (env.set_status_condition guard.conditions (ready_condition guard status reason text))
    patched ←
        command (Call.patch OwnerKind.guard guard.key base next)
          (env.patch_status OwnerKind.guard guard.key base next)
    check patched (λ e. pure (err (wrapped "failed to patch Guard status: " e "")))
        (λ _. pure (ok tt))

  -- A reason that waits for the user is no error.
  unfoldable pub mirror : Guard → Option Fault → Act env (Result (Unit {0}))
  mirror guard none =
      set_ready_condition guard condition_true "Reconciled" "Adapter resources reconciled"
  mirror guard (some f) = do
    _ ← set_ready_condition guard condition_false (reason_text f.reason) f.text
    if is_terminal_reason (reason_text f.reason) then pure (ok tt) else pure (err f.error)

  unfoldable pub reconcile : Key → Act env (Result (Unit {0}))
  reconcile req = do
    found ← query (env.get_guard req)
    check found (λ e. if is_not_found e then pure (ok tt) else pure (err e))
        (λ guard. do outcome ← reconcile_guard guard; mirror guard outcome)

unfoldable pub guards_of_provider : Key → List Guard → List Key
guards_of_provider provider [] = []
guards_of_provider provider (g ∷ gs) =
    let rest = guards_of_provider provider gs in
    if same_key (resolve_ref g.provider_ref g.key.namespace) provider then g.key ∷ rest else rest

unfoldable pub find_guards_for_provider : (env : Env) → GuardrailProvider → Act env (List Key)
find_guards_for_provider env provider = do
  items ← query env.list_guards
  check items (λ e. pure []) (λ guards. pure (guards_of_provider provider.key guards))
