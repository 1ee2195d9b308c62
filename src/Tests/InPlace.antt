-- ===== src/Tests/InPlace.antt =====
-- The reconcilers in a cluster that keeps its objects.
use tool_gateway_agentgatewa.Prelude.{
  String, All, map, ◌∷◌, ◌≡◌, ◌↔◌, inl, inr, refl, false, str_eq, [], none,
}
use tool_gateway_agentgatewa.Kube.Errors.{ok}
use tool_gateway_agentgatewa.Kube.Results.{str_eq-false}
use tool_gateway_agentgatewa.Kube.Types.{ToolGateway, ToolRoute, Key, resolve_ref}
use tool_gateway_agentgatewa.Kube.Objects.{Kind}
use tool_gateway_agentgatewa.Kube.Client.{
  pure, ◌>>=◌, check, query, command, emit_operation, emit_normal_event,
}
use tool_gateway_agentgatewa.Kube.Client.Effect.{Ends}
use tool_gateway_agentgatewa.Kube.Client.Stored.{IsKept, absent-IsKept, Gains}
use tool_gateway_agentgatewa.Gateway.Guardrails.{guardrail_policy_key}
use tool_gateway_agentgatewa.Resources.{
  set_mcp_targets, new_agentgateway_backend, new_agentgateway_policy,
}
use tool_gateway_agentgatewa.Route.Upstream.{
  external_target, check_port, url_port, url_target, resolve_upstream, resolve_route_upstream,
}
use tool_gateway_agentgatewa.Route.Numbers.{atoi, atoi_text}
use tool_gateway_agentgatewa.Authz.Rules.{build_mcp_authorization_rules, combine_rules}
use tool_gateway_agentgatewa.Route.Ensure.{
  child_key, tool_filter_policy_key, ensure_backend, ensure_http_route, ensure_policy,
  ensure_policy_for, apply_policy, delete_policy, mutate_backend, mutate_http_route, mutate_policy,
}
use tool_gateway_agentgatewa.Adapter.Ensure.{
  adapter_key, mutate_config_map, ensure_config_map, mutate_deployment, ensure_deployment,
  mutate_service, ensure_service,
}
use tool_gateway_agentgatewa.Gateway.Reconcile as gateway
use tool_gateway_agentgatewa.Gateway.InPlace.Runs as gateway_place
use tool_gateway_agentgatewa.Gateway.InPlace.Runs.{reconcile_owned-IsGatewayInPlace}
use tool_gateway_agentgatewa.Route.Reconcile as route
use tool_gateway_agentgatewa.Route.InPlace.Runs as route_place
use tool_gateway_agentgatewa.Route.InPlace.Runs.{reconcile_owned-IsRouteInPlace}
use tool_gateway_agentgatewa.Adapter.StaticConfig.{
  render_static_config, build_static_config, check_provider, require_modes, check_modes,
  require_base_url,
}
use tool_gateway_agentgatewa.Adapter.Reconcile as adapter
use tool_gateway_agentgatewa.Adapter.InPlace.Runs as adapter_place
use tool_gateway_agentgatewa.Adapter.InPlace.Runs.{reconcile_guard-IsAdapterInPlace}
use tool_gateway_agentgatewa.Wiring.Guarded.{BothSucceeded, reconcile_guard-reconcile_owned}
use tool_gateway_agentgatewa.Wiring.Meets.{NamesMeet, child_key_iff}
use tool_gateway_agentgatewa.Wiring.Jobs.{a_guard, a_gateway, a_route}
use tool_gateway_agentgatewa.Wiring.Jobs.Runs.{run_all, Done}
use tool_gateway_agentgatewa.Wiring.Jobs.Apart.{
  guard_gateway, guard_route, gateway_route, run_all-Settles,
}
use tool_gateway_agentgatewa.Tests.Cluster.{
  main_gateway, search_route, pii_guard, parse_url, unmarshal, rendering,
}
use tool_gateway_agentgatewa.Tests.Memory.{Objects, memory, store, empty}

-- Nobody has made a Gateway of this name.
abbrev elsewhere : Key
elsewhere = record { namespace = "elsewhere"; name = "other" }

abbrev NoOther : Objects → Type 0
NoOther w = store.look Kind.gateway elsewhere w ≡ none

NoOther-IsKept :
    (k : Kind) (key : Key) → str_eq "elsewhere" key.namespace ≡ false → IsKept store k key NoOther
NoOther-IsKept k key differs =
    absent-IsKept store k Kind.gateway key elsewhere
      (λ e. str_eq-false "elsewhere" key.namespace differs cc)

reconcile_guard-IsAdapterInPlace_example :
    Ends memory NoOther (adapter.reconcile_guard memory rendering "adapter:1" pii_guard) (
      adapter_place.Reaches store pii_guard NoOther
        (adapter_place.IsAdapterInPlace store pii_guard rendering "adapter:1"))
unfolding adapter_key
reconcile_guard-IsAdapterInPlace_example =
    reconcile_guard-IsAdapterInPlace store pii_guard rendering "adapter:1"
      (NoOther-IsKept _ _ refl, NoOther-IsKept _ _ refl, NoOther-IsKept _ _ refl)

reconcile_owned-IsRouteInPlace_example :
    Ends memory NoOther (route.reconcile_owned memory parse_url search_route main_gateway) (
      Gains store NoOther
        (λ _. route_place.IsRouteInPlace store parse_url search_route main_gateway))
unfolding child_key tool_filter_policy_key
reconcile_owned-IsRouteInPlace_example =
    reconcile_owned-IsRouteInPlace store parse_url search_route main_gateway
      (NoOther-IsKept _ _ refl, NoOther-IsKept _ _ refl, NoOther-IsKept _ _ refl)

reconcile_owned-IsGatewayInPlace_example :
    Ends memory NoOther
      (gateway.reconcile_owned memory unmarshal main_gateway)
      (Gains store NoOther (λ _. gateway_place.IsGatewayInPlace store unmarshal main_gateway))
unfolding guardrail_policy_key
reconcile_owned-IsGatewayInPlace_example =
    reconcile_owned-IsGatewayInPlace store unmarshal main_gateway
      (NoOther-IsKept _ _ refl, NoOther-IsKept _ _ refl, NoOther-IsKept _ _ refl)

reconcile_guard-reconcile_owned_example :
    Ends memory
      (λ w. Unit)
      (adapter.reconcile_guard memory rendering "adapter:1" pii_guard >>= λ fault.
        gateway.reconcile_owned memory unmarshal main_gateway >>= λ r. pure (fault, r))
      (BothSucceeded store rendering "adapter:1" pii_guard unmarshal main_gateway)
unfolding resolve_ref
reconcile_guard-reconcile_owned_example =
    reconcile_guard-reconcile_owned store rendering "adapter:1" pii_guard unmarshal main_gateway
      (record { namespace = ""; name = "pii" }) refl refl

-- The runs do succeed there.
guard_run :
    (adapter.reconcile_guard memory rendering "adapter:1" pii_guard
      (record { world = empty; log = [] })).0
    ≡ none
unfolding adapter.reconcile_guard adapter.fetch_provider adapter.ensure_adapter ensure_config_map
    ensure_deployment ensure_service mutate_config_map mutate_deployment mutate_service ◌>>=◌ query
    command check pure render_static_config build_static_config check_provider require_modes
    check_modes require_base_url
guard_run = refl

route_run :
    (route.reconcile_owned memory parse_url search_route main_gateway
      (record { world = empty; log = [] })).0
    ≡ ok tt
unfolding route.reconcile_owned route.reconcile_tool_route route.update_status_ready
    route.patch_tool_route_status ensure_backend ensure_http_route ensure_policy ensure_policy_for
    apply_policy delete_policy resolve_route_upstream resolve_upstream external_target url_target
    url_port emit_operation emit_normal_event mutate_backend mutate_http_route mutate_policy
    set_mcp_targets new_agentgateway_backend new_agentgateway_policy ◌>>=◌ query command check pure
    atoi atoi_text check_port build_mcp_authorization_rules combine_rules
route_run = refl

run_all-Settles_example :
    Ends memory
      (λ w. Unit)
      (run_all store rendering "adapter:1" unmarshal parse_url
        (a_guard pii_guard ∷ a_gateway main_gateway ∷ a_route search_route main_gateway ∷ []))
      (λ rs w.
        All (λ r. Done store rendering "adapter:1" unmarshal parse_url r w) rs
        × (map (λ r. r.0) rs
            ≡ a_guard pii_guard ∷ a_gateway main_gateway ∷ a_route search_route main_gateway ∷ []))
run_all-Settles_example =
    run_all-Settles store rendering "adapter:1" unmarshal parse_url
      (a_guard pii_guard ∷ a_gateway main_gateway ∷ a_route search_route main_gateway ∷ [])
      (
        (
          guard_gateway pii_guard main_gateway,
          (guard_route pii_guard search_route main_gateway, tt),
        ),
        ((gateway_route main_gateway search_route main_gateway, tt), (tt, tt)),
      )

abbrev gateway_named : String → ToolGateway
gateway_named n = record main_gateway { key = record { namespace = "tool-gateway"; name = n } }

abbrev route_named : String → ToolRoute
route_named n = record search_route { key = record { namespace = "team"; name = n } }

child_key_iff_example :
    (child_key (gateway_named "a-b") (route_named "c")
      ≡ child_key (gateway_named "a") (route_named "b-c"))
    ↔ ((route_named "c").key.namespace ≡ (route_named "b-c").key.namespace)
      × NamesMeet "a-b" "c" "a" "b-c"
child_key_iff_example =
    child_key_iff (gateway_named "a-b") (gateway_named "a") (route_named "c") (route_named "b-c")

-- The names do meet there.
nested_names : NamesMeet "a-b" "c" "a" "b-c"
nested_names = inr (inl ("b", refl, refl))
