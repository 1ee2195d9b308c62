-- ===== src/Gateway/Runs.antt =====
-- The runs of the ToolGateway reconciler: what it returns, beside what it writes and what the client
-- has answered.
use mathlib.Core.Path.{subst}
use tool_gateway_agentgatewa.Prelude.{
  String, ◌≡◌, refl, sym, List, [], ◌∷◌, ◌++◌, Option, none, some,
}
use tool_gateway_agentgatewa.Kube.Errors.{Error, message, Result, ok, err}
use tool_gateway_agentgatewa.Kube.Types.{Status, ToolGateway}
use tool_gateway_agentgatewa.Kube.Objects.{Kind, OwnerKind}
use tool_gateway_agentgatewa.Kube.Client.{Env, Call, upsert, patch}
use tool_gateway_agentgatewa.Kube.Client.Logic.{
  Performs, Performs-pure, Performs-upsert, Performs-patch, Performs-weaken, Performs-bind,
  Performs-told, Performs-check,
}
use tool_gateway_agentgatewa.Kube.Client.Passed.{
  IsPassed, Performs-passed, Performs-noted, Performs-done,
}
use tool_gateway_agentgatewa.Otel.Headers.{HeaderMap}
use tool_gateway_agentgatewa.Resources.{new_agentgateway_parameters}
use tool_gateway_agentgatewa.Gateway.Guardrails.{clear_unsupported, Outcome}
use tool_gateway_agentgatewa.Gateway.GuardrailRuns.{
  policy_call, IsServed, IsRefusal, IsRefusal-guardrail_reason, IsGuardrailRun, done, call_failed,
  refused, ensure_guardrails-Performs,
}
use tool_gateway_agentgatewa.Gateway.Reconcile.{
  guardrail_reason, mutate_gateway, mutate_parameters, ensure_agentgateway_parameters,
  ensure_gateway, CoreOutcome, core_of_guardrails, reconcile_tool_gateway,
  patch_tool_gateway_status, ready_status, not_ready_status, update_status_ready,
  update_status_not_ready, mirror, reconcile_owned,
}

module _ (env : Env) (unmarshal : String → Option HeaderMap) (tg : ToolGateway) where
  -- What the client is asked for, and what the result says of its answer.
  abbrev pub IsParametersPassed : Result (Unit {0}) → Type 0
  IsParametersPassed =
      IsPassed env
        (env.create_or_patch Kind.parameters tg.key (new_agentgateway_parameters tg.key)
          (mutate_parameters env unmarshal tg))
        "failed to create or update AgentgatewayParameters: "

  abbrev pub IsGatewayPassed : Result (Unit {0}) → Type 0
  IsGatewayPassed =
      IsPassed env
        (env.create_or_patch Kind.gateway tg.key (record { owner = none; content = none })
          (mutate_gateway env unmarshal tg))
        "failed to create or update Gateway: "

  abbrev pub IsPatchPassed : ToolGateway → Status → Result (Unit {0}) → Type 0
  IsPatchPassed t status =
      IsPassed env (env.patch_status OwnerKind.tool_gateway t.key t.status status)
        "failed to patch ToolGateway status: "

  ensure_agentgateway_parameters-Performs :
      Performs env
        (ensure_agentgateway_parameters env unmarshal tg)
        (λ r ws. (ws ≡ upsert Kind.parameters tg.key ∷ []) × IsParametersPassed r)
  unfolding ensure_agentgateway_parameters
  ensure_agentgateway_parameters-Performs =
      Performs-passed (Performs-upsert _ _ _) (λ op. Performs-noted _ _ _ _ op)

  ensure_gateway-Performs :
      Performs env
        (ensure_gateway env unmarshal tg)
        (λ r ws. (ws ≡ upsert Kind.gateway tg.key ∷ []) × IsGatewayPassed r)
  unfolding ensure_gateway
  ensure_gateway-Performs =
      Performs-passed (Performs-upsert _ _ _) (λ op. Performs-noted _ _ _ _ op)

  patch_tool_gateway_status-Performs :
      (t : ToolGateway) (status : Status)
      → Performs env (patch_tool_gateway_status env unmarshal t status) (λ r ws.
        (ws ≡ patch OwnerKind.tool_gateway t.key t.status status ∷ []) × IsPatchPassed t status r)
  unfolding patch_tool_gateway_status
  patch_tool_gateway_status-Performs t status =
      Performs-passed (Performs-patch _ _ _ _ _) (λ _. Performs-done)

  -- The two calls before the guards, and those of a whole run up to the patch of the status.
  abbrev pub first_calls : List Call
  first_calls = upsert Kind.parameters tg.key ∷ upsert Kind.gateway tg.key ∷ []

  abbrev pub all_calls : List Call
  all_calls = first_calls ++ policy_call tg tg.guardrails ∷ []

  abbrev pub ready_patch : Call
  ready_patch =
      let t = clear_unsupported env tg in
      patch OwnerKind.tool_gateway tg.key t.status (ready_status env unmarshal t)

  abbrev pub not_ready_patch : ToolGateway → String → Error → Call
  not_ready_patch t reason e =
      patch OwnerKind.tool_gateway t.key t.status
        (not_ready_status env unmarshal t reason (message e))

  abbrev MadeGateway : Type 0
  MadeGateway = IsParametersPassed (ok tt) × IsGatewayPassed (ok tt)

  -- How the core may stop: the reason, the error, the gateway in memory, and the calls by then. Every
  -- phase before it was a success.
  pub data IsStop : String → Error → ToolGateway → List Call → Type 0 where
    parameters_failed :
        (e : Error)
        → IsParametersPassed (err e)
        → IsStop "AgentgatewayParametersReconciliationFailed" e tg
            (upsert Kind.parameters tg.key ∷ [])
    gateway_failed :
        (e : Error)
        → IsParametersPassed (ok tt)
        → IsGatewayPassed (err e)
        → IsStop "GatewayReconciliationFailed" e tg first_calls
    policy_failed :
        (e : Error)
        → MadeGateway
        → IsServed env tg tg.guardrails (err e)
        → IsStop (guardrail_reason e) e tg all_calls
    guards_refused :
        {reason : String} {e : Error} {t : ToolGateway}
        → MadeGateway
        → IsRefusal env tg tg.guardrails reason e t
        → IsStop reason e t first_calls

  -- How the reconciliation of an owned gateway may end: ready, where every call was a success and the
  -- guard is ready; or with the failure that has stopped it, which is returned, and is the message of
  -- the Ready condition.
  pub data IsRun (r : Result (Unit {0})) (ws : List Call) : Type 0 where
    ready :
        MadeGateway
        → IsServed env tg tg.guardrails (ok tt)
        → IsPatchPassed
            (clear_unsupported env tg)
            (ready_status env unmarshal (clear_unsupported env tg))
            r
        → ws ≡ all_calls ++ ready_patch ∷ []
        → IsRun r ws
    stopped :
        (reason : String) (e : Error) (t : ToolGateway) (before : List Call)
        → IsStop reason e t before
        → r ≡ err e
        → ws ≡ before ++ not_ready_patch t reason e ∷ []
        → IsRun r ws

  -- The error path: the status is patched, and the error is returned.
  mirror-Performs :
      (t : ToolGateway) (reason : String) (e : Error)
      → Performs env
          (mirror env unmarshal (some (reason, e), t))
          (λ r ws. (r ≡ err e) × (ws ≡ not_ready_patch t reason e ∷ []))
  unfolding update_status_not_ready
  mirror-Performs t reason e =
      Performs-told (patch_tool_gateway_status-Performs t _) (λ _ _. Performs-pure _ (refl, refl))

  -- What the core returns, beside what it has written.
  data IsCoreRun : CoreOutcome env unmarshal → List Call → Type 0 where
    all_done :
        MadeGateway
        → IsServed env tg tg.guardrails (ok tt)
        → IsCoreRun (none, clear_unsupported env tg) all_calls
    halted :
        {reason : String} {e : Error} {t : ToolGateway} {before : List Call}
        → IsStop reason e t before
        → IsCoreRun (some (reason, e), t) before

  core_of_guardrails-Performs :
      {o : Outcome env} {ws : List Call}
      → MadeGateway
      → IsGuardrailRun env tg tg.guardrails o ws
      → Performs env
          (core_of_guardrails env unmarshal o)
          (λ c vs. IsCoreRun c (first_calls ++ (ws ++ vs)))
  core_of_guardrails-Performs has (done served) = Performs-pure _ (all_done has served)
  core_of_guardrails-Performs has (call_failed e served) =
      Performs-pure _ (halted (policy_failed e has served))
  core_of_guardrails-Performs has (refused {reason} {e} {t} why) = Performs-pure _ (
      subst (λ x. IsCoreRun (some (x, e), t) first_calls)
        (sym (IsRefusal-guardrail_reason env tg why)) (halted (guards_refused has why)))

  reconcile_tool_gateway-Performs : Performs env (reconcile_tool_gateway env unmarshal tg) IsCoreRun
  unfolding reconcile_tool_gateway
  reconcile_tool_gateway-Performs = Performs-told ensure_agentgateway_parameters-Performs λ p told.
      Performs-check
        (λ e same.
          Performs-pure _ (halted (parameters_failed e (subst IsParametersPassed same told))))
        λ _ same. Performs-told ensure_gateway-Performs λ g told'.
          Performs-check
            (λ e same'. Performs-pure _ (
              halted (
                gateway_failed e (subst IsParametersPassed same told)
                  (subst IsGatewayPassed same' told'))))
            λ _ same'. Performs-bind (ensure_guardrails-Performs env tg) λ o ws h.
              core_of_guardrails-Performs
                (subst IsParametersPassed same told, subst IsGatewayPassed same' told') h

  mirror-IsRun :
      {o : CoreOutcome env unmarshal} {ws : List Call}
      → IsCoreRun o ws
      → Performs env (mirror env unmarshal o) (λ r vs. IsRun r (ws ++ vs))
  mirror-IsRun (all_done has served) =
      unfold update_status_ready in
      Performs-weaken (patch_tool_gateway_status-Performs (clear_unsupported env tg) _)
        (λ r vs h. ready has served h.1 (rw h.0))
  mirror-IsRun (halted {reason} {e} {t} {before} stop) =
      Performs-weaken (mirror-Performs t reason e)
        (λ r vs h. stopped reason e t before stop h.0 (rw h.1))

  pub reconcile_owned-Performs : Performs env (reconcile_owned env unmarshal tg) IsRun
  unfolding reconcile_owned
  reconcile_owned-Performs =
      Performs-bind reconcile_tool_gateway-Performs (λ o ws h. mirror-IsRun h)
