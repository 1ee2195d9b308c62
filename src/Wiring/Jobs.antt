-- ===== src/Wiring/Jobs.antt =====
-- The reconcilers one after the other on several objects, in any order.
pub mod Runs
pub mod Apart
use tool_gateway_agentgatewa.Prelude.{
  String, ◌≡◌, ◌≢◌, refl, Bool, true, false, List, [], ◌∷◌, Option, none, some, All,
}
use tool_gateway_agentgatewa.Kube.Errors.{Result, ok, err}
use tool_gateway_agentgatewa.Kube.Types.{Key, ToolGateway, ToolRoute, Guard}
use tool_gateway_agentgatewa.Kube.Objects.{Kind}
use tool_gateway_agentgatewa.Kube.Client.{Env, Act, pure, ◌>>=◌}
use tool_gateway_agentgatewa.Kube.Client.Effect.{
  IsOther, Store, Ends, Ends-pure, Ends-bind, Ends-weaken,
}
use tool_gateway_agentgatewa.Kube.Client.Stored.{
  IsKept, Stored-IsKept, absent-IsKept, both-IsKept, Gains,
}
use tool_gateway_agentgatewa.Otel.Headers.{HeaderMap}
use tool_gateway_agentgatewa.Gateway.Guardrails.{guardrail_policy_key}
use tool_gateway_agentgatewa.Gateway.Reconcile as gateway
use tool_gateway_agentgatewa.Gateway.InPlace.{HasGuardrails}
use tool_gateway_agentgatewa.Gateway.InPlace.Runs.{
  IsGatewayInPlace, reconcile_owned-IsGatewayInPlace,
}
use tool_gateway_agentgatewa.Route.Upstream.{Url}
use tool_gateway_agentgatewa.Route.Ensure.{child_key, tool_filter_policy_key}
use tool_gateway_agentgatewa.Route.Reconcile as route
use tool_gateway_agentgatewa.Route.InPlace.{HasPolicy}
use tool_gateway_agentgatewa.Route.InPlace.Runs.{IsRouteInPlace, reconcile_owned-IsRouteInPlace}
use tool_gateway_agentgatewa.Adapter.StaticConfig.{Rendering}
use tool_gateway_agentgatewa.Adapter.Ensure.{adapter_key}
use tool_gateway_agentgatewa.Adapter.Reconcile as adapter
use tool_gateway_agentgatewa.Adapter.InPlace.Runs.{
  Reaches, IsAdapterInPlace, reconcile_guard-IsAdapterInPlace,
}

-- What there is to reconcile: a Guard, a ToolGateway, or a ToolRoute under its ToolGateway.
pub data Job : Type 0 where
  a_guard : Guard → Job
  a_gateway : ToolGateway → Job
  a_route : ToolRoute → ToolGateway → Job

-- The objects that a job writes.
abbrev pub objects : Job → List (Kind × Key)
objects (a_guard g) =
    (Kind.config_map, adapter_key g)
    ∷ (Kind.deployment, adapter_key g)
    ∷ (Kind.service, adapter_key g)
    ∷ []
objects (a_gateway tg) =
    (Kind.parameters, tg.key) ∷ (Kind.gateway, tg.key) ∷ (Kind.policy, guardrail_policy_key tg) ∷ []
objects (a_route r tg) =
    (Kind.backend, child_key tg r)
    ∷ (Kind.http_route, child_key tg r)
    ∷ (Kind.policy, tool_filter_policy_key tg r)
    ∷ []

-- None of the objects of the first is one of the second.
abbrev pub AreApart : Job → Job → Type 0
AreApart j j' = All (λ (a : Kind × Key). All (λ (b : Kind × Key). b ≢ a) (objects j)) (objects j')

-- Each writes other objects than those before it.
abbrev pub ArePairwiseApart : List Job → Type 0
ArePairwiseApart [] = Unit
ArePairwiseApart (j ∷ js) = All (AreApart j) js × ArePairwiseApart js

module _ {env : Env} (store : Store env) (rendering : Rendering) (image : String)
    (unmarshal : String → Option HeaderMap) (parse_url : String → Result Url) where
  -- What a job leaves in the cluster.
  abbrev pub InPlace : Job → env.World → Type 0
  InPlace (a_guard g) = IsAdapterInPlace store g rendering image
  InPlace (a_gateway tg) = IsGatewayInPlace store unmarshal tg
  InPlace (a_route r tg) = IsRouteInPlace store parse_url r tg

  abbrev no_fault : Option adapter.Fault → Bool
  no_fault none = true
  no_fault (some f) = false

  abbrev is_ok : Result (Unit {0}) → Bool
  is_ok (ok a) = true
  is_ok (err e) = false

  -- The job, and whether it succeeds.
  abbrev pub perform : Job → Act env Bool
  perform (a_guard g) = adapter.reconcile_guard env rendering image g >>= λ o. pure (no_fault o)
  perform (a_gateway tg) = gateway.reconcile_owned env unmarshal tg >>= λ r. pure (is_ok r)
  perform (a_route r tg) = route.reconcile_owned env parse_url r tg >>= λ o. pure (is_ok o)

  -- Nothing is said of a job that fails.
  abbrev pub Settles : Job × Bool → env.World → Type 0
  Settles (j, true) w = InPlace j w
  Settles (j, false) w = Unit

  abbrev pub SparedBy : Job → (env.World → Type 0) → Type 0
  SparedBy j F = All (λ (a : Kind × Key). IsKept store a.0 a.1 F) (objects j)

  pub perform-Settles :
      {F : env.World → Type 0} (j : Job)
      → SparedBy j F
      → Ends env F (perform j) (λ b w. F w × Settles (j, b) w)
  perform-Settles {F} (a_guard g) (c, (d, (s, _))) =
      Ends-bind (reconcile_guard-IsAdapterInPlace store g rendering image (c, d, s)) settled
    where
      settled :
          (o : Option adapter.Fault)
          → Ends env
              (Reaches store g F (IsAdapterInPlace store g rendering image) o)
              (pure (no_fault o))
              (λ b w. F w × Settles (a_guard g, b) w)
      settled none = Ends-pure _ (λ w f. f)
      settled (some x) = Ends-pure _ (λ w f. (f, tt))
  perform-Settles {F} (a_gateway tg) (p, (g, (q, _))) =
      Ends-bind (reconcile_owned-IsGatewayInPlace store unmarshal tg (p, g, q)) settled
    where
      settled :
          (r : Result (Unit {0}))
          → Ends env
              (Gains store F (λ _. IsGatewayInPlace store unmarshal tg) r)
              (pure (is_ok r))
              (λ b w. F w × Settles (a_gateway tg, b) w)
      settled (ok a) = Ends-pure _ (λ w f. f)
      settled (err x) = Ends-pure _ (λ w f. (f, tt))
  perform-Settles {F} (a_route r tg) (b, (h, (q, _))) =
      Ends-bind (reconcile_owned-IsRouteInPlace store parse_url r tg (b, h, q)) settled
    where
      settled :
          (o : Result (Unit {0}))
          → Ends env
              (Gains store F (λ _. IsRouteInPlace store parse_url r tg) o)
              (pure (is_ok o))
              (λ b w. F w × Settles (a_route r tg, b) w)
      settled (ok a) = Ends-pure _ (λ w f. f)
      settled (err x) = Ends-pure _ (λ w f. (f, tt))
