-- ===== src/Tests/Settled.antt =====
-- The mutations of unstructured objects, twice.
use tool_gateway_agentgatewa.Prelude.{◌≡◌, refl, List, none}
use tool_gateway_agentgatewa.Prelude.Text.{Text}
use tool_gateway_agentgatewa.Authz.Rules.{build_mcp_authorization_rules}
use tool_gateway_agentgatewa.Kube.Errors.{Result, ok, err}
use tool_gateway_agentgatewa.Kube.Objects.{Kind, Object}
use tool_gateway_agentgatewa.Kube.Settled.{KeepsOwner, KeepsField, KeepsOthers}
use tool_gateway_agentgatewa.Otel.Env.{
  extract_otel_env_vars, extract_loop, extract_one, switch, otel_name, assign,
}
use tool_gateway_agentgatewa.Otel.Telemetry.{build_telemetry_config, has_config}
use tool_gateway_agentgatewa.Resources.{
  set_agentgateway_parameters_spec, set_raw_config, to_unstructured_slice,
  new_agentgateway_parameters, new_agentgateway_policy,
}
use tool_gateway_agentgatewa.Gateway.Guardrails.{mutate_guardrail_policy, guardrail_policy_key}
use tool_gateway_agentgatewa.Gateway.Reconcile.{mutate_gateway, mutate_parameters}
use tool_gateway_agentgatewa.Gateway.Settled.{gateway-settled}
use tool_gateway_agentgatewa.Route.Ensure.{mutate_policy, tool_filter_policy_key}
use tool_gateway_agentgatewa.Route.Settled.{tool_filter_policy-settled}
use tool_gateway_agentgatewa.Tests.Cluster.{main_gateway, search_route, guard_key, unmarshal}
use tool_gateway_agentgatewa.Tests.Memory.{memory}
use tool_gateway_agentgatewa.Tests.Nested.{set_at-set_at, set_at-keeps}
use tool_gateway_agentgatewa.Tests.Removed.{remove_at-remove_at, remove_at-keeps}

keeps_owner : KeepsOwner memory
keeps_owner = λ w o o' h. h

keeps_field : KeepsField memory
keeps_field = λ j j' v path h. set_at-set_at path v j j' h

keeps_others : KeepsOthers memory
keeps_others = record {
  keeps_set = λ j j' v v' p q apart set h. set_at-keeps p q v v' j j' apart set h;
  keeps_unset = λ j j' v p q apart gone h. remove_at-keeps p q v j j' apart gone h;
  removes = λ j p. remove_at-remove_at p j;
}

abbrev made : {k : Kind} → Result (Object k) → Object k → Object k
made (ok o) before = o
made (err e) before = before

abbrev parameters_before : Object Kind.parameters
parameters_before = new_agentgateway_parameters main_gateway.key

abbrev parameters_after : Object Kind.parameters
parameters_after =
    made (mutate_parameters memory unmarshal main_gateway parameters_before) parameters_before

parameters_made :
    mutate_parameters memory unmarshal main_gateway parameters_before ≡ ok parameters_after
unfolding mutate_parameters set_agentgateway_parameters_spec set_raw_config build_telemetry_config
    has_config extract_otel_env_vars extract_loop extract_one switch otel_name assign
    new_agentgateway_parameters to_unstructured_slice
parameters_made = refl

abbrev gateway_before : Object Kind.gateway
gateway_before = record { owner = none; content = none }

abbrev gateway_after : Object Kind.gateway
gateway_after = made (mutate_gateway memory unmarshal main_gateway gateway_before) gateway_before

gateway_made : mutate_gateway memory unmarshal main_gateway gateway_before ≡ ok gateway_after
unfolding mutate_gateway
gateway_made = refl

abbrev guardrail_before : Object Kind.policy
guardrail_before = new_agentgateway_policy (guardrail_policy_key main_gateway)

abbrev guardrail_after : Object Kind.policy
guardrail_after =
    made (mutate_guardrail_policy memory main_gateway guard_key guardrail_before) guardrail_before

guardrail_made :
    mutate_guardrail_policy memory main_gateway guard_key guardrail_before ≡ ok guardrail_after
unfolding mutate_guardrail_policy new_agentgateway_policy
guardrail_made = refl

gateway-settled_example :
    (mutate_parameters memory unmarshal main_gateway parameters_after ≡ ok parameters_after)
    × (mutate_gateway memory unmarshal main_gateway gateway_after ≡ ok gateway_after)
    × (mutate_guardrail_policy memory main_gateway guard_key guardrail_after ≡ ok guardrail_after)
gateway-settled_example =
    gateway-settled memory keeps_owner keeps_field keeps_others unmarshal main_gateway guard_key
      parameters_before parameters_after gateway_before gateway_after guardrail_before
      guardrail_after parameters_made gateway_made guardrail_made

abbrev rules : List Text
rules = build_mcp_authorization_rules search_route.tool_filter

abbrev filter_before : Object Kind.policy
filter_before = new_agentgateway_policy (tool_filter_policy_key main_gateway search_route)

abbrev filter_after : Object Kind.policy
filter_after =
    made (mutate_policy memory search_route main_gateway rules filter_before) filter_before

filter_made : mutate_policy memory search_route main_gateway rules filter_before ≡ ok filter_after
unfolding mutate_policy new_agentgateway_policy
filter_made = refl

tool_filter_policy-settled_example :
    mutate_policy memory search_route main_gateway rules filter_after ≡ ok filter_after
tool_filter_policy-settled_example =
    tool_filter_policy-settled memory keeps_owner search_route keeps_field keeps_others main_gateway
      rules filter_before filter_after filter_made
