-- ===== src/Adapter/Ensure.antt =====
-- internal/controller/guard_reconciler.go: the ConfigMap, the Deployment and the Service of an
-- adapter.
use tool_gateway_agentgatewa.Prelude.{
  ℕ, String, true, false, List, [], ◌∷◌, none, some, str_eq, if◌then◌else◌,
}
use tool_gateway_agentgatewa.Prelude.Text.{concat}
use tool_gateway_agentgatewa.Kube.Errors
use tool_gateway_agentgatewa.Kube.Errors.{wrapped, Result, ok, err}
use tool_gateway_agentgatewa.Kube.Types.{Key, Guard}
use tool_gateway_agentgatewa.Kube.Objects.{
  Kind, OwnerKind, Object, Probe, PodSpec, DeploymentSpec, ServiceSpec,
}
use tool_gateway_agentgatewa.Kube.Client.{Env, Call, Act, pure, ◌>>=◌, check, command}
use tool_gateway_agentgatewa.Gateway.Guardrails.{adapter_service_port}
use tool_gateway_agentgatewa.Adapter.StaticConfig.{static_config_key}

abbrev pub adapter_container_port : ℕ
adapter_container_port = 9001

abbrev pub adapter_health_port : ℕ
adapter_health_port = 8080

abbrev pub config_hash_annotation : String
config_hash_annotation = "runtime.agentic-layer.ai/config-hash"

unfoldable pub adapter_name : Guard → String
adapter_name guard = concat (guard.key.name ∷ "-adapter" ∷ [])

unfoldable pub adapter_key : Guard → Key
adapter_key guard = record { namespace = guard.key.namespace; name = adapter_name guard }

-- `m[k] = v` on a `map[string]string`.
unfoldable pub set_entry : String → String → List (String × String) → List (String × String)
set_entry k v [] = (k, v) ∷ []
set_entry k v ((j, w) ∷ m) = if str_eq j k then (j, v) ∷ m else (j, w) ∷ set_entry k v m

unfoldable pub http_probe : ℕ → ℕ → ℕ → Probe
http_probe port initial_delay period = record {
  path = "/health";
  port = port;
  initial_delay_seconds = initial_delay;
  period_seconds = period;
}

unfoldable pub pod_spec : String → String → PodSpec
pod_spec image name = record {
  automount_service_account_token = false;
  containers =
      record {
        name = "guardrail-adapter";
        image = image;
        image_pull_policy = "IfNotPresent";
        args = "--addr=:9001" ∷ "--health-addr=:8080" ∷ [];
        ports = ("ext-proc", adapter_container_port) ∷ ("health", adapter_health_port) ∷ [];
        env = ("GUARDRAIL_CONFIG_FILE", "/etc/guardrail/config.yaml") ∷ ("LOG_LEVEL", "info") ∷ [];
        volume_mounts =
            record { name = "guardrail-config"; mount_path = "/etc/guardrail"; read_only = true }
            ∷ [];
        readiness_probe = http_probe adapter_health_port 3 5;
        liveness_probe = http_probe adapter_health_port 15 10;
      }
      ∷ [];
  volumes = ("guardrail-config", name) ∷ [];
}

-- What the mutation of the Deployment makes of its spec.
unfoldable pub deployment_spec : String → Guard → String → DeploymentSpec → DeploymentSpec
deployment_spec image guard config_hash d = record {
  replicas = some 1;
  selector = ("app", adapter_name guard) ∷ [];
  template_labels = ("app", adapter_name guard) ∷ [];
  template_annotations = set_entry config_hash_annotation config_hash d.template_annotations;
  template_spec = some (pod_spec image (adapter_name guard));
}

unfoldable pub service_spec : Guard → ServiceSpec
service_spec guard = record {
  selector = ("app", adapter_name guard) ∷ [];
  ports =
      record {
        name = "ext-proc";
        port = adapter_service_port;
        target_port = adapter_container_port;
        protocol = "TCP";
        app_protocol = some "kubernetes.io/h2c";
      }
      ∷ [];
}

abbrev pub blank_deployment : DeploymentSpec
blank_deployment = record {
  replicas = none;
  selector = [];
  template_labels = [];
  template_annotations = [];
  template_spec = none;
}

module _ (env : Env) where
  unfoldable pub mutate_config_map :
      Guard → String → Object Kind.config_map → Result (Object Kind.config_map)
  mutate_config_map guard config_yaml o =
      Errors.◌>>=◌ (env.set_controller_reference (OwnerKind.guard, guard.key) o.owner) λ owner.
        ok (record { owner = owner; content = set_entry static_config_key config_yaml o.content })

  unfoldable pub ensure_config_map : Guard → String → Act env (Result (Unit {0}))
  ensure_config_map guard config_yaml = do
    op ← command (Call.upsert Kind.config_map (adapter_key guard)) (
        env.create_or_patch Kind.config_map (adapter_key guard)
          (record { owner = none; content = [] }) (mutate_config_map guard config_yaml))
    check op (λ e. pure (err (wrapped "failed to ensure ConfigMap: " e ""))) (λ _. pure (ok tt))

  unfoldable pub mutate_deployment :
      String → Guard → String → Object Kind.deployment → Result (Object Kind.deployment)
  mutate_deployment image guard config_hash o =
      Errors.◌>>=◌ (env.set_controller_reference (OwnerKind.guard, guard.key) o.owner) λ owner.
        ok (record { owner = owner; content = deployment_spec image guard config_hash o.content })

  unfoldable pub ensure_deployment : String → Guard → String → Act env (Result (Unit {0}))
  ensure_deployment image guard config_hash = do
    op ← command (Call.upsert Kind.deployment (adapter_key guard)) (
        env.create_or_patch Kind.deployment (adapter_key guard)
          (record { owner = none; content = blank_deployment })
          (mutate_deployment image guard config_hash))
    check op (λ e. pure (err (wrapped "failed to ensure Deployment: " e ""))) (λ _. pure (ok tt))

  unfoldable pub mutate_service : Guard → Object Kind.service → Result (Object Kind.service)
  mutate_service guard o =
      Errors.◌>>=◌ (env.set_controller_reference (OwnerKind.guard, guard.key) o.owner)
        λ owner. ok (record { owner = owner; content = service_spec guard })

  unfoldable pub ensure_service : Guard → Act env (Result (Unit {0}))
  ensure_service guard = do
    op ← command (Call.upsert Kind.service (adapter_key guard)) (
        env.create_or_patch Kind.service (adapter_key guard)
          (record { owner = none; content = record { selector = []; ports = [] } })
          (mutate_service guard))
    check op (λ e. pure (err (wrapped "failed to ensure Service: " e ""))) (λ _. pure (ok tt))
