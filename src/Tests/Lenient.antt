-- ===== src/Tests/Lenient.antt =====
-- A cluster that keeps its objects and in which nobody else controls one, where a field can be set in
-- every object: its calls that write succeed wherever their mutation does.
use tool_gateway_agentgatewa.Prelude.{String, refl, inl, inr, List, [], ◌∷◌, Option, none, some}
use tool_gateway_agentgatewa.Prelude.Text.{Text}
use tool_gateway_agentgatewa.Otel.Headers.{HeaderMap}
use tool_gateway_agentgatewa.Route.Upstream.{Target}
use tool_gateway_agentgatewa.Kube.Errors.{
  not_found, is_not_found, Result, ok, err, ◌>>=◌, wrap_error,
}
use tool_gateway_agentgatewa.Kube.Types.{Key, EnvVar, EnvFromSource, ToolGateway, ToolRoute}
use tool_gateway_agentgatewa.Kube.Json.{Json}
use tool_gateway_agentgatewa.Kube.Objects.{Kind, Owner, Object, updated}
use tool_gateway_agentgatewa.Kube.Client.{Env}
use tool_gateway_agentgatewa.Kube.Client.Effect.{or_blank, Store}
use tool_gateway_agentgatewa.Kube.Client.Willing.{IsOk, IsGone, IsWilling}
use tool_gateway_agentgatewa.Resources.{
  set_mcp_targets, set_raw_config, to_unstructured_slice, set_agentgateway_parameters_spec,
}
use tool_gateway_agentgatewa.Route.Ensure.{mutate_backend, mutate_http_route, mutate_policy}
use tool_gateway_agentgatewa.Route.Succeeds as route
use tool_gateway_agentgatewa.Gateway.Guardrails.{mutate_guardrail_policy}
use tool_gateway_agentgatewa.Gateway.Reconcile.{mutate_gateway, mutate_parameters}
use tool_gateway_agentgatewa.Gateway.Succeeds as gateway
use tool_gateway_agentgatewa.Adapter.Ensure.{mutate_config_map, mutate_deployment, mutate_service}
use tool_gateway_agentgatewa.Adapter.Succeeds as adapter
use tool_gateway_agentgatewa.Tests.Cluster.{main_gateway, search_route, pii_guard, unmarshal}
use tool_gateway_agentgatewa.Tests.Nested.{set_at}
use tool_gateway_agentgatewa.Tests.Memory.{
  Objects, memory, write_back, take_away, write_back-stores, write_back-other, take_away-none,
  take_away-other,
}

-- What stands in the way of a path is replaced.
abbrev or_put : Json → Result Json → Result Json
or_put v (ok j) = ok j
or_put v (err e) = ok v

or_put-IsOk : (v : Json) (r : Result Json) → IsOk (or_put v r)
or_put-IsOk v (ok j) = (j, refl)
or_put-IsOk v (err e) = (v, refl)

abbrev pub lenient : Env
lenient = record memory { set_nested = λ j v path. or_put v (set_at path v j) }

abbrev pub lenient_store : Store lenient
lenient_store = record {
  look = λ k key w. w k key;
  stores = λ k key blank mutate w op h.
      write_back-stores k key (mutate (or_blank (w k key) blank)) w op h;
  deletes = λ k key w r h gone. take_away-none k key w (w k key) refl;
  stores_only = λ k key blank mutate w k' key' other.
      write_back-other k key (mutate (or_blank (w k key) blank)) w k' key' other;
  deletes_only = λ k key w k' key' other. take_away-other k key (w k key) w k' key' other;
  patches_none = λ o key base new w k' key'. refl;
  gets_no_guard = λ key w k' key'. refl;
  gets_no_provider = λ key w k' key'. refl;
  gets_no_server = λ key w k' key'. refl;
}

write_back-IsOk :
    (k : Kind) (key : Key) (r : Result (Object k)) (w : Objects)
    → IsOk r
    → IsOk (write_back k key r w).0
write_back-IsOk k key (ok o) w h = (updated, refl)
write_back-IsOk k key (err e) w (o, h) = cc

take_away-IsGone :
    (k : Kind) (key : Key) (o : Option (Object k)) (w : Objects) → IsGone (take_away k key o w).0
unfolding is_not_found
take_away-IsGone k key none w = inr (not_found "objects", refl, refl)
take_away-IsGone k key (some o) w = inl (tt, refl)

pub lenient-IsWilling : IsWilling lenient lenient_store
lenient-IsWilling = record {
  creates = λ k key blank mutate w h. write_back-IsOk k key (mutate (or_blank (w k key) blank)) w h;
  deletes = λ k key w. take_away-IsGone k key (w k key) w;
  patches = λ k key base new w. (tt, refl);
}

bind-IsOk :
    {A B : Type 0} (m : Result A) {f : A → Result B}
    → IsOk m
    → ((a : A) → IsOk (f a))
    → IsOk (m >>= f)
bind-IsOk (ok a) h k = k a
bind-IsOk (err e) (a, h) k = cc

wrap_error-IsOk : {A : Type 0} (text : String) (r : Result A) → IsOk r → IsOk (wrap_error text r)
wrap_error-IsOk text (ok a) h = (a, refl)
wrap_error-IsOk text (err e) (a, h) = cc

set_nested-IsOk : (j v : Json) (path : List String) → IsOk (lenient.set_nested j v path)
set_nested-IsOk j v path = or_put-IsOk v (set_at path v j)

-- What the mutations call accepts every object.
module _ (env : Env)
    (owns : (w : Owner) (o : Option Owner) → IsOk (env.set_controller_reference w o))
    (sets : (j v : Json) (path : List String) → IsOk (env.set_nested j v path))
    (vars : (v : EnvVar) → IsOk (env.env_var_to_unstructured v))
    (froms : (v : EnvFromSource) → IsOk (env.env_from_to_unstructured v)) where
  to_unstructured_slice-IsOk :
      {A : Type 0} (convert : A → Result Json) (xs : List A)
      → ((x : A) → IsOk (convert x))
      → IsOk (to_unstructured_slice convert xs)
  unfolding to_unstructured_slice
  to_unstructured_slice-IsOk convert [] h = ([], refl)
  to_unstructured_slice-IsOk convert (x ∷ xs) h =
      bind-IsOk (convert x) (h x)
        (λ m. bind-IsOk _ (to_unstructured_slice-IsOk convert xs h) (λ rest. (m ∷ rest, refl)))

  set_raw_config-IsOk :
      (params : Json) (telemetry : Option Json) → IsOk (set_raw_config env params telemetry)
  unfolding set_raw_config
  set_raw_config-IsOk params none = (_, refl)
  set_raw_config-IsOk params (some t) = wrap_error-IsOk _ _ (sets params t _)

  spec-IsOk :
      (unmarshal : String → Option HeaderMap) (params : Json) (tg : ToolGateway)
      → IsOk (set_agentgateway_parameters_spec env unmarshal params tg)
  unfolding set_agentgateway_parameters_spec
  spec-IsOk unmarshal params tg = bind-IsOk _ (set_raw_config-IsOk params _) λ p.
      bind-IsOk _ (wrap_error-IsOk _ _ (to_unstructured_slice-IsOk _ _ vars)) λ env_vars.
        bind-IsOk _ (wrap_error-IsOk _ _ (sets p _ _)) λ q.
          bind-IsOk _ (wrap_error-IsOk _ _ (to_unstructured_slice-IsOk _ _ froms)) λ env_from.
            bind-IsOk _ (wrap_error-IsOk _ _ (sets q _ _)) (λ r. wrap_error-IsOk _ _ (sets r _ _))

  mutate_parameters-IsOk :
      (unmarshal : String → Option HeaderMap) (tg : ToolGateway) (o : Object Kind.parameters)
      → IsOk (mutate_parameters env unmarshal tg o)
  unfolding mutate_parameters
  mutate_parameters-IsOk unmarshal tg o =
      bind-IsOk _ (owns _ _) λ owner. bind-IsOk _ (spec-IsOk unmarshal _ tg) (λ content. (_, refl))

  mutate_guardrail_policy-IsOk :
      (tg : ToolGateway) (ref : Key) (o : Object Kind.policy)
      → IsOk (mutate_guardrail_policy env tg ref o)
  unfolding mutate_guardrail_policy
  mutate_guardrail_policy-IsOk tg ref o =
      bind-IsOk _ (owns _ _) λ owner. bind-IsOk _ (sets _ _ _) (λ content. (_, refl))

  mutate_backend-IsOk :
      (r : ToolRoute) (t : Target) (o : Object Kind.backend) → IsOk (mutate_backend env r t o)
  unfolding mutate_backend set_mcp_targets
  mutate_backend-IsOk r t o =
      bind-IsOk _ (owns _ _) λ owner. bind-IsOk _ (sets _ _ _) (λ content. (_, refl))

  mutate_policy-IsOk :
      (r : ToolRoute) (tg : ToolGateway) (rules : List Text) (o : Object Kind.policy)
      → IsOk (mutate_policy env r tg rules o)
  unfolding mutate_policy
  mutate_policy-IsOk r tg rules o =
      bind-IsOk _ (owns _ _) λ owner.
        bind-IsOk _ (sets _ _ _) λ targeted. bind-IsOk _ (sets _ _ _) (λ content. (_, refl))

lenient_owns : (w : Owner) (o : Option Owner) → IsOk (lenient.set_controller_reference w o)
lenient_owns w o = (some w, refl)

lenient_vars : (v : EnvVar) → IsOk (lenient.env_var_to_unstructured v)
lenient_vars v = (_, refl)

lenient_froms : (v : EnvFromSource) → IsOk (lenient.env_from_to_unstructured v)
lenient_froms v = (_, refl)

pub search_route-IsAccepted : route.IsAccepted lenient_store search_route main_gateway
unfolding mutate_http_route
search_route-IsAccepted = record {
  backend = λ t w.
      mutate_backend-IsOk lenient lenient_owns set_nested-IsOk lenient_vars lenient_froms
        search_route t _;
  http_route = λ w. (_, refl);
  policy = λ rules w.
      mutate_policy-IsOk lenient lenient_owns set_nested-IsOk lenient_vars lenient_froms
        search_route main_gateway rules _;
}

pub main_gateway-IsAccepted : gateway.IsAccepted lenient_store unmarshal main_gateway
unfolding mutate_gateway
main_gateway-IsAccepted = record {
  parameters = λ w.
      mutate_parameters-IsOk lenient lenient_owns set_nested-IsOk lenient_vars lenient_froms
        unmarshal main_gateway _;
  gateway = λ w. (_, refl);
  policy = λ ref w.
      mutate_guardrail_policy-IsOk lenient lenient_owns set_nested-IsOk lenient_vars lenient_froms
        main_gateway ref _;
}

pub pii_guard-IsAccepted : adapter.IsAccepted lenient_store "adapter:1" pii_guard
unfolding mutate_config_map mutate_deployment mutate_service
pii_guard-IsAccepted = record {
  config_map = λ body w. (_, refl);
  deployment = λ hash w. (_, refl);
  service = λ w. (_, refl);
}
