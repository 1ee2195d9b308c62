-- ===== src/Gateway/InPlace/Runs.antt =====
-- What a success of the ToolGateway reconciler says of the cluster.
use tool_gateway_agentgatewa.Prelude.{String, Option, none, some}
use tool_gateway_agentgatewa.Kube.Errors.{Result, ok, err}
use tool_gateway_agentgatewa.Kube.Types.{Status, ToolGateway}
use tool_gateway_agentgatewa.Kube.Objects.{Kind}
use tool_gateway_agentgatewa.Kube.Client.{Env}
use tool_gateway_agentgatewa.Kube.Client.Effect.{
  Store, Ends, Ends-pure, Ends-bind, Ends-check, Ends-weaken,
}
use tool_gateway_agentgatewa.Kube.Client.Stored.{
  IsOfObjects, IsKept, Stored-IsKept, both-IsKept, IsKept-IsOfObjects, Stored-IsOfObjects,
  both-IsOfObjects, Gains, Ends-gains, Ends-patch,
}
use tool_gateway_agentgatewa.Otel.Headers.{HeaderMap}
use tool_gateway_agentgatewa.Gateway.Guardrails.{guardrail_policy_key, Outcome}
use tool_gateway_agentgatewa.Gateway.Reconcile.{
  CoreOutcome, core_of_guardrails, reconcile_tool_gateway, patch_tool_gateway_status,
  update_status_ready, update_status_not_ready, mirror, reconcile_owned,
}
use tool_gateway_agentgatewa.Gateway.InPlace.{
  HasGateway, HasParameters, HasGuardrails, HasGuardrails-IsOfObjects,
  ensure_parameters-HasParameters, ensure_gateway-HasGateway, ensure_guardrails-HasGuardrails,
}

module _ {env : Env} (store : Store env) (unmarshal : String → Option HeaderMap)
    (tg : ToolGateway) where
  -- What no call on the three objects of the gateway takes away.
  abbrev pub IsSpared : (env.World → Type 0) → Type 0
  IsSpared F =
      IsKept store Kind.parameters tg.key F
      × IsKept store Kind.gateway tg.key F
      × IsKept store Kind.policy (guardrail_policy_key tg) F

  pub record IsGatewayInPlace (w : env.World) : Type 0 where
    pub parameters : HasParameters store unmarshal tg w
    pub gateway : HasGateway store unmarshal tg w
    pub guardrails : HasGuardrails store unmarshal tg tg.guardrails w

  IsGatewayInPlace-IsOfObjects : IsOfObjects store IsGatewayInPlace
  IsGatewayInPlace-IsOfObjects w w' same here = record {
    parameters = Stored-IsOfObjects store _ _ _ w w' same here.parameters;
    gateway = Stored-IsOfObjects store _ _ _ w w' same here.gateway;
    guardrails = HasGuardrails-IsOfObjects store unmarshal tg _ w w' same here.guardrails;
  }

  -- What held is kept; without an error the objects are there.
  abbrev CoreReaches : (env.World → Type 0) → CoreOutcome env unmarshal → env.World → Type 0
  CoreReaches F (none, next) w = F w × IsGatewayInPlace w
  CoreReaches F (some e, next) w = F w

  core-CoreReaches :
      {F : env.World → Type 0} (o : Outcome env)
      → Ends env
          (λ w.
            Gains store
              (λ w. (F w × HasParameters store unmarshal tg w) × HasGateway store unmarshal tg w)
              (λ _. HasGuardrails store unmarshal tg tg.guardrails)
              o.0
              w)
          (core_of_guardrails env unmarshal o)
          (CoreReaches F)
  core-CoreReaches (ok a, next) =
      Ends-pure _
        λ w f. (f.0.0.0, record { parameters = f.0.0.1; gateway = f.0.1; guardrails = f.1 })
  core-CoreReaches (err e, next) = Ends-pure _ (λ w f. f.0.0)

  reconcile_tool_gateway-CoreReaches :
      {F : env.World → Type 0}
      → IsSpared F
      → Ends env F (reconcile_tool_gateway env unmarshal tg) (CoreReaches F)
  unfolding reconcile_tool_gateway
  reconcile_tool_gateway-CoreReaches keeps =
      Ends-gains store (ensure_parameters-HasParameters store unmarshal tg keeps.0)
        (λ e. Ends-pure _ (λ w f. f))
        λ _.
          Ends-gains store
            (ensure_gateway-HasGateway store unmarshal tg
              (both-IsKept store keeps.1 (Stored-IsKept store _ _ _ _ _ (λ e. cc))))
            (λ e. Ends-pure _ (λ w f. f.0))
            λ _.
              Ends-bind
                (ensure_guardrails-HasGuardrails store unmarshal tg (
                  both-IsKept store
                    (both-IsKept store keeps.2 (Stored-IsKept store _ _ _ _ _ (λ e. cc)))
                    (Stored-IsKept store _ _ _ _ _ (λ e. cc))))
                core-CoreReaches

  patch-keeps :
      {G : env.World → Type 0} (next : ToolGateway) (status : Status)
      → IsOfObjects store G
      → Ends env G (patch_tool_gateway_status env unmarshal next status) (λ r w. G w)
  unfolding patch_tool_gateway_status
  patch-keeps next status keeps =
      Ends-bind (Ends-patch store _ _ _ _ keeps)
        λ r. Ends-check (λ e _. Ends-pure _ (λ w g. g)) (λ _ _. Ends-pure _ (λ w g. g))

  mirrored :
      (F : env.World → Type 0) (r : Result (Unit {0})) (w : env.World)
      → F w × IsGatewayInPlace w
      → Gains store F (λ _. IsGatewayInPlace) r w
  mirrored F (ok a) w f = f
  mirrored F (err e) w f = f.0

  mirror-Gains :
      {F : env.World → Type 0} (o : CoreOutcome env unmarshal)
      → IsOfObjects store F
      → Ends env (CoreReaches F o) (mirror env unmarshal o) (Gains store F (λ _. IsGatewayInPlace))
  unfolding update_status_ready update_status_not_ready
  mirror-Gains {F} (none, next) keeps =
      Ends-weaken (patch-keeps next _ (both-IsOfObjects store keeps IsGatewayInPlace-IsOfObjects))
        (mirrored F)
  mirror-Gains (some (reason, e), next) keeps =
      Ends-bind (patch-keeps next _ keeps) (λ _. Ends-pure _ (λ w f. f))

  -- Where the calls of the client do what is documented, a run of the ToolGateway reconciler on a gateway
  -- of ours that succeeds leaves in the cluster, controlled by the gateway: its AgentgatewayParameters,
  -- its Gateway, and the guardrail policy that names the adapter of its one Guard, which was read and
  -- was ready, or no such policy where it has no guard. With several guards no run succeeds. What no call
  -- on these three objects takes away is kept, also by a run that fails.
  pub reconcile_owned-IsGatewayInPlace :
      {F : env.World → Type 0}
      → IsSpared F
      → Ends env F (reconcile_owned env unmarshal tg) (Gains store F (λ _. IsGatewayInPlace))
  unfolding reconcile_owned
  reconcile_owned-IsGatewayInPlace keeps =
      Ends-bind (reconcile_tool_gateway-CoreReaches keeps)
        (λ o. mirror-Gains o (IsKept-IsOfObjects store _ _ keeps.0))
