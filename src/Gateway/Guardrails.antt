-- ===== src/Gateway/Guardrails.antt =====
-- internal/controller/toolgateway_reconciler.go: `ensureGuardrails` and `buildGuardrailPolicySpec`.
use tool_gateway_agentgatewa.Prelude.{ℕ, String, List, [], ◌∷◌, Option, none, some, if◌then◌else◌}
use tool_gateway_agentgatewa.Prelude.Text.{concat}
use tool_gateway_agentgatewa.Kube.Errors.{
  Error, sentinel, failure, wrapped, guard_not_found, guard_not_ready, is_not_found, Result, ok,
  err, wrap_error,
}
use tool_gateway_agentgatewa.Kube.Errors
use tool_gateway_agentgatewa.Kube.Types.{
  Key, resolve_ref, Condition, condition_true, is_true, ToolGateway,
}
use tool_gateway_agentgatewa.Kube.Json.{Json, string, number, slice, map_of}
use tool_gateway_agentgatewa.Kube.Objects.{Kind, OwnerKind, Object}
use tool_gateway_agentgatewa.Kube.Client.{
  Env, Call, Act, pure, ◌>>=◌, ◌>>◌, check, query, command, emit_operation,
}
use tool_gateway_agentgatewa.Resources.{new_agentgateway_policy}

abbrev pub adapter_service_port : ℕ
adapter_service_port = 80

unfoldable pub build_guardrail_policy_spec : String → Key → Json
build_guardrail_policy_spec tool_gateway_name guard = map_of (
    (
      "targetRefs",
      slice (
          map_of (
            ("group", string "gateway.networking.k8s.io")
            ∷ ("kind", string "Gateway")
            ∷ ("name", string tool_gateway_name)
            ∷ [])
          ∷ []),
    )
    ∷ (
      "traffic",
      map_of (
          (
            "extProc",
            map_of (
                (
                  "backendRef",
                  map_of (
                      ("name", string (concat (guard.name ∷ "-adapter" ∷ [])))
                      ∷ ("namespace", string guard.namespace)
                      ∷ ("port", number adapter_service_port)
                      ∷ []),
                )
                ∷ []),
          )
          ∷ []),
    )
    ∷ [])

unfoldable pub guardrail_policy_key : ToolGateway → Key
guardrail_policy_key tg = record {
  namespace = tg.key.namespace;
  name = concat (tg.key.name ∷ "-guardrail" ∷ []);
}

abbrev pub slash_key : Key → String
slash_key k = concat (k.namespace ∷ "/" ∷ k.name ∷ [])

abbrev pub unsupported_kind : String
unsupported_kind = "GuardrailsUnsupported"

-- The condition of step 2.
unfoldable pub multiple_guards : ToolGateway → Condition
multiple_guards tg = record {
  kind = unsupported_kind;
  status = condition_true;
  reason = "MultipleGuardsNotSupported";
  message =
      "Multiple guards are not supported (agentgateway has only one ext_proc slot per target)";
  observed_generation = tg.generation;
}

-- The object in memory with other conditions.
abbrev pub with_conditions : ToolGateway → List Condition → ToolGateway
with_conditions tg cs = record tg { status = record tg.status { conditions = cs } }

-- Step 4: the error, if the Guard is not ready.
unfoldable pub guard_readiness : Key → Option Condition → Result (Unit {0})
guard_readiness ref none = err (
    wrapped "" (sentinel guard_not_ready)
      (concat (": " ∷ slash_key ref ∷ " has no Ready condition yet" ∷ [])))
guard_readiness ref (some cond) =
    if is_true cond.status
    then ok tt
    else err (
        wrapped "" (sentinel guard_not_ready)
          (concat (": " ∷ slash_key ref ∷ ": " ∷ cond.reason ∷ " — " ∷ cond.message ∷ [])))

-- The error of step 3.
unfoldable pub guard_error : Key → Error → Error
guard_error ref e =
    if is_not_found e
    then wrapped "" (sentinel guard_not_found) (concat (": " ∷ slash_key ref ∷ []))
    else wrapped (concat ("failed to get guard " ∷ slash_key ref ∷ ": " ∷ [])) e ""

module _ (env : Env) where
  -- The mutation of step 5.
  unfoldable pub mutate_guardrail_policy :
      ToolGateway → Key → Object Kind.policy → Result (Object Kind.policy)
  mutate_guardrail_policy tg ref o =
      Errors.◌>>=◌ (env.set_controller_reference (OwnerKind.tool_gateway, tg.key) o.owner) λ owner.
        Errors.◌>>=◌
          (env.set_nested o.content (build_guardrail_policy_spec tg.key.name ref) ("spec" ∷ []))
          λ content. ok (record { owner = owner; content = content })

  -- Each action returns the object in memory, whose conditions may have changed.
  abbrev pub Outcome : Type 0
  Outcome = Result (Unit {0}) × ToolGateway

  abbrev pub clear_unsupported : ToolGateway → ToolGateway
  clear_unsupported tg =
      with_conditions tg (env.remove_status_condition tg.status.conditions unsupported_kind)

  unfoldable pub delete_guardrail_policy : ToolGateway → Act env Outcome
  delete_guardrail_policy tg = do
    deleted ←
        command (Call.remove Kind.policy (guardrail_policy_key tg))
          (env.delete Kind.policy (guardrail_policy_key tg))
    check deleted
        (λ e.
          if is_not_found e
          then pure (ok tt, clear_unsupported tg)
          else pure (err (wrapped "failed to delete guardrail policy: " e ""), tg))
        (λ _. pure (ok tt, clear_unsupported tg))

  unfoldable pub apply_guardrail_policy : ToolGateway → Key → Act env Outcome
  apply_guardrail_policy tg ref = do
    let key = guardrail_policy_key tg
    op ← command (Call.upsert Kind.policy key) (
        env.create_or_patch Kind.policy key (new_agentgateway_policy key)
          (mutate_guardrail_policy tg ref))
    check op (λ e. pure (err (wrapped "failed to create or update guardrail policy: " e ""), tg))
        (λ done. do
          emit_operation OwnerKind.tool_gateway tg.key
              ("GuardrailPolicyCreated", concat ("Created guardrail policy " ∷ key.name ∷ []))
              ("GuardrailPolicyUpdated", concat ("Updated guardrail policy " ∷ key.name ∷ [])) done
          pure (ok tt, clear_unsupported tg))

  -- Steps 3 to 5, for the one Guard.
  unfoldable pub ensure_one_guard : ToolGateway → Key → Act env Outcome
  ensure_one_guard tg ref = do
    found ← query (env.get_guard ref)
    check found (λ e. pure (err (guard_error ref e), tg))
        (λ guard.
          check (guard_readiness ref (env.find_status_condition guard.conditions "Ready"))
            (λ e. pure (err e, tg)) (λ _. apply_guardrail_policy tg ref))

  unfoldable pub ensure_guardrails_for : ToolGateway → List Key → Act env Outcome
  ensure_guardrails_for tg [] = delete_guardrail_policy tg
  ensure_guardrails_for tg (ref ∷ []) = ensure_one_guard tg (resolve_ref ref tg.key.namespace)
  ensure_guardrails_for tg (_ ∷ _ ∷ _) = pure (
    err (failure "multiple guards not supported"),
    with_conditions tg (env.set_status_condition tg.status.conditions (multiple_guards tg)),
  )

  unfoldable pub ensure_guardrails : ToolGateway → Act env Outcome
  ensure_guardrails tg = ensure_guardrails_for tg tg.guardrails
