-- ===== src/Wiring/Guarded.antt =====
-- A Guard and the ToolGateway that it guards, one reconciler after the other.
use mathlib.Core.Path.{subst}
use tool_gateway_agentgatewa.Prelude.{
  ℕ, String, ◌≡◌, refl, sym, [], ◌∷◌, Option, none, some, Member, here, str_eq, if◌then◌else◌,
}
use tool_gateway_agentgatewa.Kube.Errors.{Result, ok, err}
use tool_gateway_agentgatewa.Kube.Types.{Key, resolve_ref, ToolGateway, Guard}
use tool_gateway_agentgatewa.Kube.Json.{Json, string, number, object, Fields, end, field}
use tool_gateway_agentgatewa.Kube.Objects.{Kind, Object, ServicePort}
use tool_gateway_agentgatewa.Kube.Client.{Env, pure, ◌>>=◌}
use tool_gateway_agentgatewa.Kube.Client.Effect.{Store, Ends, Ends-pure, Ends-bind, Ends-from}
use tool_gateway_agentgatewa.Kube.Client.Stored.{Stored-IsKept, Gains}
use tool_gateway_agentgatewa.Otel.Headers.{HeaderMap}
use tool_gateway_agentgatewa.Gateway.Guardrails.{build_guardrail_policy_spec, guardrail_policy_key}
use tool_gateway_agentgatewa.Gateway.Reconcile.{reconcile_owned}
use tool_gateway_agentgatewa.Gateway.InPlace.{HasGuardrails, HasGuardPolicy}
use tool_gateway_agentgatewa.Gateway.InPlace.Runs.{reconcile_owned-IsGatewayInPlace}
use tool_gateway_agentgatewa.Gateway.InPlace.Runs as gateway_place
use tool_gateway_agentgatewa.Adapter.StaticConfig.{Rendering}
use tool_gateway_agentgatewa.Adapter.Ensure.{adapter_name, adapter_key, service_spec}
use tool_gateway_agentgatewa.Adapter.Reconcile.{Fault, reconcile_guard}
use tool_gateway_agentgatewa.Adapter.InPlace.{HasService}
use tool_gateway_agentgatewa.Adapter.InPlace.Runs.{reconcile_guard-IsAdapterInPlace}
use tool_gateway_agentgatewa.Adapter.InPlace.Runs as adapter_place

-- What agentgateway reads from the spec of a guardrail policy: where the requests go to be processed.
abbrev pub value_of : String → Fields → Option Json
value_of k end = none
value_of k (field j v fs) = let rest = value_of k fs in if str_eq j k then some v else rest

abbrev pub at_field : String → Option Json → Option Json
at_field k (some (object fs)) = value_of k fs
at_field k _ = none

abbrev pub service_ref : Option Json → Option Json → Option Json → Option (Key × ℕ)
service_ref (some (string name)) (some (string namespace)) (some (number port)) =
    some (record { namespace = namespace; name = name }, port)
service_ref _ _ _ = none

abbrev pub processor : Json → Option (Key × ℕ)
processor spec =
    let ref = at_field "backendRef" (at_field "extProc" (at_field "traffic" (some spec))) in
    service_ref (at_field "name" ref) (at_field "namespace" ref) (at_field "port" ref)

processor-build_guardrail_policy_spec :
    (name : String) (guard : Guard)
    → processor (build_guardrail_policy_spec name guard.key) ≡ some (adapter_key guard, 80)
unfolding build_guardrail_policy_spec adapter_key adapter_name
processor-build_guardrail_policy_spec name guard = refl

abbrev ext_proc_port : ServicePort
ext_proc_port = record {
  name = "ext-proc";
  port = 80;
  target_port = 9001;
  protocol = "TCP";
  app_protocol = some "kubernetes.io/h2c";
}

module _ {env : Env} (store : Store env) (rendering : Rendering) (image : String) (guard : Guard)
    (unmarshal : String → Option HeaderMap) (tg : ToolGateway) where
  -- The policy of the gateway leads to a port of the Service of the Guard's adapter, in HTTP/2.
  pub record IsGuarded (w : env.World) : Type 0 where
    pub service : Object Kind.service
    pub has_service : store.look Kind.service (adapter_key guard) w ≡ some service
    pub policy : Object Kind.policy
    pub has_policy : store.look Kind.policy (guardrail_policy_key tg) w ≡ some policy
    pub spec : Json
    pub has_spec : (before : Json) × (env.set_nested before spec ("spec" ∷ []) ≡ ok policy.content)
    pub port : ServicePort
    pub has_port : Member port service.content.ports
    pub leads : processor spec ≡ some (adapter_key guard, port.port)
    pub in_http2 : port.app_protocol ≡ some "kubernetes.io/h2c"

  guarded :
      (w : env.World)
      → HasService store guard w
      → HasGuardPolicy store unmarshal tg guard.key w
      → IsGuarded w
  unfolding service_spec
  guarded w (s, there, (_, serves)) (p, there', (_, before, set)) = record {
    service = s;
    has_service = there;
    policy = p;
    has_policy = there';
    spec = build_guardrail_policy_spec tg.key.name guard.key;
    has_spec = (before, set);
    port = ext_proc_port;
    has_port = subst (λ c. Member ext_proc_port c.ports) (sym serves) here;
    leads = processor-build_guardrail_policy_spec tg.key.name guard;
    in_http2 = refl;
  }

  abbrev pub BothSucceeded : Option Fault × Result (Unit {0}) → env.World → Type 0
  BothSucceeded (none, ok a) w = IsGuarded w
  BothSucceeded (none, err e) w = Unit
  BothSucceeded (some f, r) w = Unit

  policy_of_guard :
      (ref : Key) (w : env.World)
      → tg.guardrails ≡ ref ∷ []
      → resolve_ref ref tg.key.namespace ≡ guard.key
      → HasGuardrails store unmarshal tg tg.guardrails w
      → HasGuardPolicy store unmarshal tg guard.key w
  policy_of_guard ref w one names there =
      subst (λ k. HasGuardPolicy store unmarshal tg k w) names
        (subst (λ refs. HasGuardrails store unmarshal tg refs w) one there).1

  -- Where the calls of the client do what is documented, and a ToolGateway has one guard, which is this
  -- Guard: if the Guard is reconciled without fault and the ToolGateway is then reconciled with success,
  -- the cluster holds the Service of the Guard's adapter and the guardrail policy of the gateway, and
  -- agentgateway finds in the spec of this policy the name, the namespace and an HTTP/2 port of this Service.
  pub reconcile_guard-reconcile_owned :
      (ref : Key)
      → tg.guardrails ≡ ref ∷ []
      → resolve_ref ref tg.key.namespace ≡ guard.key
      → Ends env
          (λ w. Unit)
          (reconcile_guard env rendering image guard >>= λ fault.
            reconcile_owned env unmarshal tg >>= λ r. pure (fault, r))
          BothSucceeded
  reconcile_guard-reconcile_owned ref one names =
      Ends-bind
        (reconcile_guard-IsAdapterInPlace store guard rendering image
          ((λ w w' same f. f), (λ w w' same f. f), (λ w w' same f. f)))
        gateway_after
    where
      gateway_after :
          (o : Option Fault)
          → Ends env
              (adapter_place.Reaches store guard
                (λ w. Unit)
                (adapter_place.IsAdapterInPlace store guard rendering image)
                o)
              (reconcile_owned env unmarshal tg >>= λ r. pure (o, r))
              BothSucceeded
      gateway_after none =
          Ends-from (HasService store guard) (λ w f. f.1.service)
            (Ends-bind
              (reconcile_owned-IsGatewayInPlace store unmarshal tg (
                Stored-IsKept store _ _ _ _ _ (λ e. cc),
                Stored-IsKept store _ _ _ _ _ (λ e. cc),
                Stored-IsKept store _ _ _ _ _ (λ e. cc),
              ))
              both)
        where
          both :
              (r : Result (Unit {0}))
              → Ends env
                  (Gains store
                    (HasService store guard)
                    (λ _. gateway_place.IsGatewayInPlace store unmarshal tg)
                    r)
                  (pure (none, r))
                  BothSucceeded
          both (ok a) =
              Ends-pure _ (λ w f. guarded w f.0 (policy_of_guard ref w one names f.1.guardrails))
          both (err e) = Ends-pure _ (λ w f. tt)
      gateway_after (some fault) =
          Ends-bind
            (reconcile_owned-IsGatewayInPlace store unmarshal tg
              ((λ w w' same f. f), (λ w w' same f. f), (λ w w' same f. f)))
            (λ r. Ends-pure _ (λ w f. tt))
