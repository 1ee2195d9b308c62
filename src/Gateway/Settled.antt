-- ===== src/Gateway/Settled.antt =====
-- A second reconciliation finds the objects of a gateway as the first one left them.
use mathlib.Core.Path.{subst}
use tool_gateway_agentgatewa.Prelude.{String, ◌≡◌, refl, true, List, [], ◌∷◌, Option, none, some}
use tool_gateway_agentgatewa.Kube.Errors.{ok, wrap_error}
use tool_gateway_agentgatewa.Kube.Results.{bind-ok, wrap_error-ok, ok-injective}
use tool_gateway_agentgatewa.Kube.Types.{Key, ToolGateway}
use tool_gateway_agentgatewa.Kube.Json.{Json, slice}
use tool_gateway_agentgatewa.Kube.Objects.{Kind, OwnerKind, Object}
use tool_gateway_agentgatewa.Kube.Client.{Env}
use tool_gateway_agentgatewa.Kube.Settled.{
  KeepsOwner, KeepsField, KeepsOthers, parts, HasField, LacksField,
}
use tool_gateway_agentgatewa.Otel.Env.{extract_otel_env_vars}
use tool_gateway_agentgatewa.Otel.Headers.{HeaderMap}
use tool_gateway_agentgatewa.Otel.Telemetry.{build_telemetry_config}
use tool_gateway_agentgatewa.Resources.{
  to_unstructured_slice, set_raw_config, deployment_spec, set_agentgateway_parameters_spec,
}
use tool_gateway_agentgatewa.Gateway.Guardrails.{
  build_guardrail_policy_spec, mutate_guardrail_policy,
}
use tool_gateway_agentgatewa.Gateway.Reconcile.{mutate_gateway, mutate_parameters}

module _ (env : Env) (keeps : KeepsOwner env) (keeps_field : KeepsField env)
    (keeps_others : KeepsOthers env) (unmarshal : String → Option HeaderMap)
    (tg : ToolGateway) where
  -- The telemetry is in the parameters, or there is none in them.
  HasRawConfig : Option Json → Json → Type 0
  HasRawConfig (some telemetry) j = HasField env telemetry ("spec" ∷ "rawConfig" ∷ []) j
  HasRawConfig none j = LacksField env ("spec" ∷ "rawConfig" ∷ []) j

  set_raw_config-HasRawConfig :
      (t : Option Json) (j j' : Json) → set_raw_config env j t ≡ ok j' → HasRawConfig t j'
  unfolding set_raw_config HasRawConfig
  set_raw_config-HasRawConfig (some telemetry) j j' h = keeps_field _ _ _ _ (wrap_error-ok _ _ h)
  set_raw_config-HasRawConfig none j j' h =
      subst (LacksField env ("spec" ∷ "rawConfig" ∷ [])) (ok-injective h) (keeps_others.removes j _)

  HasRawConfig-set_raw_config :
      (t : Option Json) (j : Json) → HasRawConfig t j → set_raw_config env j t ≡ ok j
  unfolding set_raw_config HasRawConfig
  HasRawConfig-set_raw_config (some telemetry) j h = rw h
  HasRawConfig-set_raw_config none j h = rw h

  HasRawConfig-set_nested :
      (t : Option Json) (j j' v : Json) (path : List String)
      → parts ("spec" ∷ "rawConfig" ∷ []) path ≡ true
      → HasRawConfig t j
      → env.set_nested j v path ≡ ok j'
      → HasRawConfig t j'
  unfolding HasRawConfig
  HasRawConfig-set_nested (some telemetry) j j' v path apart h set =
      keeps_others.keeps_set j j' telemetry v _ path apart h set
  HasRawConfig-set_nested none j j' v path apart h set =
      keeps_others.keeps_unset j j' v _ path apart h set

  parameters_spec-settled :
      (j j' : Json)
      → set_agentgateway_parameters_spec env unmarshal j tg ≡ ok j'
      → set_agentgateway_parameters_spec env unmarshal j' tg ≡ ok j'
  unfolding set_agentgateway_parameters_spec
  parameters_spec-settled j j' h =
      let otel = extract_otel_env_vars tg.env in
      let t = build_telemetry_config unmarshal otel.0 in
      let (p, raw, h1) = bind-ok (set_raw_config env j t) h in
      let (vars, vars_made, h2) =
        bind-ok
          (wrap_error "failed to convert spec.env: "
            (to_unstructured_slice env.env_var_to_unstructured otel.1))
          h1 in
      let (q, env_set, h3) =
        bind-ok
          (wrap_error "failed to set spec.env: "
            (env.set_nested p (slice vars) ("spec" ∷ "env" ∷ [])))
          h2 in
      let (from, from_made, h4) =
        bind-ok
          (wrap_error "failed to convert spec.envFrom: "
            (to_unstructured_slice env.env_from_to_unstructured tg.env_from))
          h3 in
      let (r, deployment_set, h5) =
        bind-ok
          (wrap_error "failed to set spec.deployment.spec: "
            (env.set_nested q (deployment_spec env from) ("spec" ∷ "deployment" ∷ "spec" ∷ [])))
          h4 in
      let set1 = wrap_error-ok _ _ env_set in
      let set2 = wrap_error-ok _ _ deployment_set in
      let set3 = wrap_error-ok _ _ h5 in
      let raw' =
        HasRawConfig-set_nested t r j' _ _ refl
          (HasRawConfig-set_nested t q r _ _ refl
            (HasRawConfig-set_nested t p q _ _ refl (set_raw_config-HasRawConfig t j p raw) set1)
            set2)
          set3 in
      let env' =
        keeps_others.keeps_set r j' _ _ _ _ refl
          (keeps_others.keeps_set q r _ _ _ _ refl (keeps_field _ _ _ _ set1) set2) set3 in
      let deployment' = keeps_others.keeps_set r j' _ _ _ _ refl (keeps_field _ _ _ _ set2) set3 in
      rw (
        HasRawConfig-set_raw_config t j' raw',
        wrap_error-ok _ _ vars_made,
        env',
        wrap_error-ok _ _ from_made,
        deployment',
        keeps_field _ _ _ _ set3,
      )

  gateway_object-settled :
      (o o' : Object Kind.gateway)
      → mutate_gateway env unmarshal tg o ≡ ok o'
      → mutate_gateway env unmarshal tg o' ≡ ok o'
  unfolding mutate_gateway
  gateway_object-settled o o' h =
      let (owner, owned, e) =
        bind-ok (env.set_controller_reference (OwnerKind.tool_gateway, tg.key) o.owner) h in
      subst (λ o'. mutate_gateway env unmarshal tg o' ≡ ok o') (ok-injective e)
        (rw (keeps _ _ _ owned))

  parameters-settled :
      (o o' : Object Kind.parameters)
      → mutate_parameters env unmarshal tg o ≡ ok o'
      → mutate_parameters env unmarshal tg o' ≡ ok o'
  unfolding mutate_parameters
  parameters-settled o o' h =
      let (owner, owned, h') =
        bind-ok (env.set_controller_reference (OwnerKind.tool_gateway, tg.key) o.owner) h in
      let (content, set, e) =
        bind-ok (set_agentgateway_parameters_spec env unmarshal o.content tg) h' in
      subst (λ o'. mutate_parameters env unmarshal tg o' ≡ ok o') (ok-injective e)
        (rw (keeps _ _ _ owned, parameters_spec-settled _ _ set))

  guardrail_policy-settled :
      (ref : Key) (o o' : Object Kind.policy)
      → mutate_guardrail_policy env tg ref o ≡ ok o'
      → mutate_guardrail_policy env tg ref o' ≡ ok o'
  unfolding mutate_guardrail_policy
  guardrail_policy-settled ref o o' h =
      let (owner, owned, h') =
        bind-ok (env.set_controller_reference (OwnerKind.tool_gateway, tg.key) o.owner) h in
      let (content, set, e) =
        bind-ok
          (env.set_nested o.content (build_guardrail_policy_spec tg.key.name ref) ("spec" ∷ []))
          h' in
      subst (λ o'. mutate_guardrail_policy env tg ref o' ≡ ok o') (ok-injective e)
        (rw (keeps _ _ _ owned, keeps_field _ _ _ _ set))

  -- Where `SetControllerReference` keeps an owner that it has set, and `SetNestedField` a field that it has
  -- set and those whose paths part from its own, and a field that is removed is gone for good, the mutations
  -- of the AgentgatewayParameters, of the Gateway and of the guardrail policy leave the object as it is that the same mutation has made.
  pub gateway-settled :
      (ref : Key) (p p' : Object Kind.parameters) (g g' : Object Kind.gateway)
      (q q' : Object Kind.policy)
      → mutate_parameters env unmarshal tg p ≡ ok p'
      → mutate_gateway env unmarshal tg g ≡ ok g'
      → mutate_guardrail_policy env tg ref q ≡ ok q'
      → (mutate_parameters env unmarshal tg p' ≡ ok p')
        × (mutate_gateway env unmarshal tg g' ≡ ok g')
        × (mutate_guardrail_policy env tg ref q' ≡ ok q')
  gateway-settled ref p p' g g' q q' hp hg hq = (
    parameters-settled p p' hp,
    gateway_object-settled g g' hg,
    guardrail_policy-settled ref q q' hq,
  )
