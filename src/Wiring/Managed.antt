-- ===== src/Wiring/Managed.antt =====
-- Which objects a run of a reconciler writes, against the objects that its controller owns.
use mathlib.Core.Path.{subst}
use tool_gateway_agentgatewa.Prelude.{
  String, ◌≡◌, refl, sym, List, [], ◌∷◌, ◌++◌, Option, All, All-append, Member, here, there,
}
use tool_gateway_agentgatewa.Prelude.Text.{Text}
use tool_gateway_agentgatewa.Authz.Rules.{build_mcp_authorization_rules}
use tool_gateway_agentgatewa.Kube.Errors.{Error, Result}
use tool_gateway_agentgatewa.Kube.Types.{Key, ToolGateway, ToolRoute, Guard}
use tool_gateway_agentgatewa.Kube.Objects.{Kind, OwnerKind}
use tool_gateway_agentgatewa.Kube.Client.{Env, Call, upsert, remove, patch, event}
use tool_gateway_agentgatewa.Kube.Client.Logic.{Performs, Performs-weaken}
use tool_gateway_agentgatewa.Otel.Headers.{HeaderMap}
use tool_gateway_agentgatewa.Gateway.GuardrailRuns
use tool_gateway_agentgatewa.Gateway.Reconcile as gateway
use tool_gateway_agentgatewa.Gateway.Runs as gateway_runs
use tool_gateway_agentgatewa.Gateway.Reconciled.{IsGatewayReconcile, reconcile-IsGatewayReconcile}
use tool_gateway_agentgatewa.Route.EnsureRuns
use tool_gateway_agentgatewa.Route.Upstream.{Url}
use tool_gateway_agentgatewa.Route.Reconcile as route
use tool_gateway_agentgatewa.Route.Runs as route_runs
use tool_gateway_agentgatewa.Route.Reconciled.{
  IsRouteReconcile, IsReconcileFor, reconcile-IsRouteReconcile,
}
use tool_gateway_agentgatewa.Adapter.StaticConfig.{Rendering}
use tool_gateway_agentgatewa.Adapter.Reconcile as adapter
use tool_gateway_agentgatewa.Adapter.Runs.{IsFault, IsLateFault, IsCutOff}
use tool_gateway_agentgatewa.Adapter.Reconciled.{IsGuardReconcile, reconcile-IsGuardReconcile}
use tool_gateway_agentgatewa.Wiring.{
  tool_gateway_controller, tool_route_controller, guard_controller,
}

-- The call writes an object of one of the kinds, or patches the status of the controller's own kind.
abbrev pub IsWithin : OwnerKind → List Kind → Call → Type 0
IsWithin primary kinds (upsert k key) = Member k kinds
IsWithin primary kinds (remove k key) = Member k kinds
IsWithin primary kinds (patch k key base new) = k ≡ primary
IsWithin primary kinds (event k key reason note) = k ≡ primary

abbrev GatewayWrites : List Call → Type 0
GatewayWrites =
    All (IsWithin OwnerKind.tool_gateway (Kind.gateway ∷ Kind.parameters ∷ Kind.policy ∷ []))

gateway_policy-IsWithin :
    (tg : ToolGateway) (refs : List Key)
    → IsWithin OwnerKind.tool_gateway
        (Kind.gateway ∷ Kind.parameters ∷ Kind.policy ∷ [])
        (GuardrailRuns.policy_call tg refs)
gateway_policy-IsWithin tg [] = there (there here)
gateway_policy-IsWithin tg (r ∷ rs) = there (there here)

IsStop-GatewayWrites :
    (env : Env) (unmarshal : String → Option HeaderMap) (tg : ToolGateway) {reason : String}
    {e : Error} {t : ToolGateway} {ws : List Call}
    → gateway_runs.IsStop env unmarshal tg reason e t ws
    → GatewayWrites ws
IsStop-GatewayWrites env u tg (gateway_runs.parameters_failed _ _) = (there here, tt)
IsStop-GatewayWrites env u tg (gateway_runs.gateway_failed _ _ _) = (there here, (here, tt))
IsStop-GatewayWrites env u tg (gateway_runs.policy_failed _ _ _) =
    (there here, (here, (gateway_policy-IsWithin tg tg.guardrails, tt)))
IsStop-GatewayWrites env u tg (gateway_runs.guards_refused _ _) = (there here, (here, tt))

IsRun-GatewayWrites :
    (env : Env) (unmarshal : String → Option HeaderMap) (tg : ToolGateway) {r : Result (Unit {0})}
    {ws : List Call}
    → gateway_runs.IsRun env unmarshal tg r ws
    → GatewayWrites ws
IsRun-GatewayWrites env u tg (gateway_runs.ready _ _ _ e) =
    subst GatewayWrites (sym e)
      (there here, (here, (gateway_policy-IsWithin tg tg.guardrails, (refl, tt))))
IsRun-GatewayWrites env u tg (gateway_runs.stopped _ _ _ before stop _ e) =
    subst GatewayWrites (sym e)
      (All-append _ before _ (IsStop-GatewayWrites env u tg stop) (refl, tt))

reconcile-GatewayWrites :
    (env : Env) (unmarshal : String → Option HeaderMap) (req : Key) {r : Result (Unit {0})}
    {ws : List Call}
    → IsGatewayReconcile env unmarshal req r ws
    → GatewayWrites ws
reconcile-GatewayWrites env u req (IsGatewayReconcile.gone _ _ _ _) = tt
reconcile-GatewayWrites env u req (IsGatewayReconcile.unread _ _ _ _) = tt
reconcile-GatewayWrites env u req (IsGatewayReconcile.unclassified _ _ _ _ _) = tt
reconcile-GatewayWrites env u req (IsGatewayReconcile.foreign _ _ _ _) = tt
reconcile-GatewayWrites env u req (IsGatewayReconcile.owned _ tg _ _ run) =
    IsRun-GatewayWrites env u tg run

-- Every object that `Reconcile` of a ToolGateway creates, patches or deletes is of a kind that its
-- controller owns, and every status that it patches is a ToolGateway's.
pub reconcile-owned_gateway :
    (env : Env) (unmarshal : String → Option HeaderMap) (req : Key)
    → Performs env (gateway.reconcile env unmarshal req) (λ r ws.
      All (IsWithin (tool_gateway_controller env).primary (tool_gateway_controller env).owns) ws)
unfolding tool_gateway_controller
reconcile-owned_gateway env u req =
    Performs-weaken (reconcile-IsGatewayReconcile env u req)
      (λ r ws h. reconcile-GatewayWrites env u req h)

abbrev GuardWrites : List Call → Type 0
GuardWrites = All (IsWithin OwnerKind.guard (Kind.deployment ∷ Kind.config_map ∷ Kind.service ∷ []))

IsCutOff-GuardWrites :
    (env : Env) (r : Rendering) (image : String) (g : Guard) {body hash : String} {e : Error}
    {ws : List Call}
    → IsCutOff env r image g body hash e ws
    → GuardWrites ws
IsCutOff-GuardWrites env r image g (IsCutOff.at_config_map _) = (there here, tt)
IsCutOff-GuardWrites env r image g (IsCutOff.at_deployment _ _) = (there here, (here, tt))
IsCutOff-GuardWrites env r image g (IsCutOff.at_service _ _ _) =
    (there here, (here, (there (there here), tt)))

IsLateFault-GuardWrites :
    (env : Env) (r : Rendering) (image : String) (g : Guard) {f : adapter.Fault} {ws : List Call}
    → IsLateFault env r image g f ws
    → GuardWrites ws
IsLateFault-GuardWrites env r image g (IsLateFault.provider_missing _ _ _) = tt
IsLateFault-GuardWrites env r image g (IsLateFault.provider_unread _ _ _) = tt
IsLateFault-GuardWrites env r image g (IsLateFault.unsupported _ _ _ _ _) = tt
IsLateFault-GuardWrites env r image g (IsLateFault.invalid _ _ _ _ _ _) = tt
IsLateFault-GuardWrites env r image g (IsLateFault.unrendered _ _ _ _ _ _) = tt
IsLateFault-GuardWrites env r image g (IsLateFault.call_failed _ cut) =
    IsCutOff-GuardWrites env r image g cut

IsFault-GuardWrites :
    (env : Env) (r : Rendering) (image : String) (g : Guard) {f : adapter.Fault} {ws : List Call}
    → IsFault env r image g f ws
    → GuardWrites ws
IsFault-GuardWrites env r image g (IsFault.no_image _) = tt
IsFault-GuardWrites env r image g (IsFault.with_image _ late) =
    IsLateFault-GuardWrites env r image g late

reconcile-GuardWrites :
    (env : Env) (rendering : Rendering) (image : String) (req : Key) {r : Result (Unit {0})}
    {ws : List Call}
    → IsGuardReconcile env rendering image req r ws
    → GuardWrites ws
reconcile-GuardWrites env rendering image req (IsGuardReconcile.gone _ _ _ _ _ e) =
    subst GuardWrites (sym e) tt
reconcile-GuardWrites env rendering image req (IsGuardReconcile.unread _ _ _ _ _ e) =
    subst GuardWrites (sym e) tt
reconcile-GuardWrites env rendering image req (IsGuardReconcile.ready _ g _ _ _ e) =
    subst GuardWrites (sym e) (there here, (here, (there (there here), (refl, tt))))
reconcile-GuardWrites env rendering image req (IsGuardReconcile.faulty _ g f before _ cause _ e) =
    subst GuardWrites (sym e)
      (All-append _ before _ (IsFault-GuardWrites env rendering image g cause) (refl, tt))

-- Every object that `Reconcile` of a Guard creates or patches is of a kind that its controller owns, and
-- every status that it patches is a Guard's.
pub reconcile-owned_guard :
    (env : Env) (rendering : Rendering) (image : String) (req : Key)
    → Performs env
        (adapter.reconcile env rendering image req)
        (λ r ws. All (IsWithin (guard_controller env).primary (guard_controller env).owns) ws)
unfolding guard_controller
reconcile-owned_guard env rendering image req =
    Performs-weaken (reconcile-IsGuardReconcile env rendering image req)
      (λ r ws h. reconcile-GuardWrites env rendering image req h)

abbrev RouteWrites : List Call → Type 0
RouteWrites =
    All (IsWithin OwnerKind.tool_route (Kind.http_route ∷ Kind.backend ∷ Kind.policy ∷ []))

route_policy-IsWithin :
    (route : ToolRoute) (tg : ToolGateway) (rules : List Text)
    → IsWithin OwnerKind.tool_route
        (Kind.http_route ∷ Kind.backend ∷ Kind.policy ∷ [])
        (EnsureRuns.policy_call route tg rules)
route_policy-IsWithin route tg [] = there (there here)
route_policy-IsWithin route tg (r ∷ rs) = there (there here)

IsStop-RouteWrites :
    (env : Env) (parse_url : String → Result Url) (route : ToolRoute) (tg : ToolGateway)
    {reason : String} {e : Error} {ws : List Call}
    → route_runs.IsStop env parse_url route tg reason e ws
    → RouteWrites ws
IsStop-RouteWrites env p route tg (route_runs.upstream_failed _ _) = tt
IsStop-RouteWrites env p route tg (route_runs.backend_failed _ _ _ _) = (there here, tt)
IsStop-RouteWrites env p route tg (route_runs.http_route_failed _ _ _ _) = (there here, (here, tt))
IsStop-RouteWrites env p route tg (route_runs.policy_failed _ _ _ _) = (
  there here,
  (here, (route_policy-IsWithin route tg (build_mcp_authorization_rules route.tool_filter), tt)),
)

IsRun-RouteWrites :
    (env : Env) (parse_url : String → Result Url) (route : ToolRoute) (tg : ToolGateway)
    {r : Result (Unit {0})} {ws : List Call}
    → route_runs.IsRun env parse_url route tg r ws
    → RouteWrites ws
IsRun-RouteWrites env p route tg (route_runs.ready _ _ _ _ e) = subst RouteWrites (sym e) (
  there here,
  (
    here,
    (route_policy-IsWithin route tg (build_mcp_authorization_rules route.tool_filter), (refl, tt)),
  ),
)
IsRun-RouteWrites env p route tg (route_runs.stopped _ _ before stop _ e) =
    subst RouteWrites (sym e)
      (All-append _ before _ (IsStop-RouteWrites env p route tg stop) (refl, tt))

reconcile_for-RouteWrites :
    (env : Env) (parse_url : String → Result Url) (route : ToolRoute) (key : Key)
    {r : Result (Unit {0})} {ws : List Call}
    → IsReconcileFor env parse_url route key r ws
    → RouteWrites ws
reconcile_for-RouteWrites env p route key (IsReconcileFor.gateway_gone _ _ _ _ _ e) =
    subst RouteWrites (sym e) (refl, tt)
reconcile_for-RouteWrites env p route key (IsReconcileFor.gateway_unread _ _ _ _) = tt
reconcile_for-RouteWrites env p route key (IsReconcileFor.unclassified _ _ _ _ _) = tt
reconcile_for-RouteWrites env p route key (IsReconcileFor.foreign _ _ _ _) = tt
reconcile_for-RouteWrites env p route key (IsReconcileFor.owned _ tg _ _ run) =
    IsRun-RouteWrites env p route tg run

reconcile-RouteWrites :
    (env : Env) (parse_url : String → Result Url) (req : Key) {r : Result (Unit {0})}
    {ws : List Call}
    → IsRouteReconcile env parse_url req r ws
    → RouteWrites ws
reconcile-RouteWrites env p req (IsRouteReconcile.gone _ _ _ _) = tt
reconcile-RouteWrites env p req (IsRouteReconcile.unread _ _ _ _) = tt
reconcile-RouteWrites env p req (IsRouteReconcile.no_default _ _ _ _ _ _ _ e) =
    subst RouteWrites (sym e) (refl, tt)
reconcile-RouteWrites env p req (IsRouteReconcile.unresolved _ _ _ _ _ _) = tt
reconcile-RouteWrites env p req (IsRouteReconcile.resolved _ route key _ _ run) =
    reconcile_for-RouteWrites env p route key run

-- Every object that `Reconcile` of a ToolRoute creates, patches or deletes is of a kind that its
-- controller owns, or a backend or a policy, which it does not own; and every status that it patches is
-- a ToolRoute's.
pub reconcile-owned_route :
    (env : Env) (parse_url : String → Result Url) (req : Key)
    → Performs env (route.reconcile env parse_url req) (λ r ws.
      All
        (IsWithin
          (tool_route_controller env).primary
          ((tool_route_controller env).owns ++ Kind.backend ∷ Kind.policy ∷ []))
        ws)
unfolding tool_route_controller
reconcile-owned_route env p req =
    Performs-weaken (reconcile-IsRouteReconcile env p req)
      (λ r ws h. reconcile-RouteWrites env p req h)
