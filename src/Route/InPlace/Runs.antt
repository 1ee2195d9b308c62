-- ===== src/Route/InPlace/Runs.antt =====
-- What a success of the ToolRoute reconciler says of the cluster.
use tool_gateway_agentgatewa.Prelude.{String, not, Option, none, some}
use tool_gateway_agentgatewa.Authz.Rules.{build_mcp_authorization_rules}
use tool_gateway_agentgatewa.Kube.Errors.{Error, Result, ok, err}
use tool_gateway_agentgatewa.Kube.Types.{Key, Status, ToolGateway, ToolRoute}
use tool_gateway_agentgatewa.Kube.Objects.{Kind}
use tool_gateway_agentgatewa.Kube.Client.{Env}
use tool_gateway_agentgatewa.Kube.Client.Effect.{
  Store, Ends, Ends-pure, Ends-if, Ends-bind, Ends-check, Ends-weaken, Ends-event,
}
use tool_gateway_agentgatewa.Kube.Client.Stored.{
  IsOfObjects, IsKept, Stored-IsKept, both-IsKept, IsKept-IsOfObjects, Stored-IsOfObjects,
  both-IsOfObjects, Gains, Ends-gains, Ends-patch,
}
use tool_gateway_agentgatewa.Route.Upstream.{Url, Target, resolve_route_upstream}
use tool_gateway_agentgatewa.Route.Ensure.{child_key, tool_filter_policy_key, ensure_policy}
use tool_gateway_agentgatewa.Route.Reconcile.{
  found_true, reconcile_tool_route, patch_tool_route_status, update_status_ready,
  update_status_not_ready, mirror, reconcile_owned,
}
use tool_gateway_agentgatewa.Route.InPlace.{
  IsTarget, HasBackend, HasHttpRoute, HasPolicy, HasPolicy-IsOfObjects, upstream-IsTargetOf,
  ensure_backend-HasBackend, ensure_http_route-HasHttpRoute, ensure_policy_for-HasPolicy,
}

module _ {env : Env} (store : Store env) (parse_url : String → Result Url) (route : ToolRoute)
    (tg : ToolGateway) where
  -- What no call on the three objects of the route takes away.
  abbrev pub IsSpared : (env.World → Type 0) → Type 0
  IsSpared F =
      IsKept store Kind.backend (child_key tg route) F
      × IsKept store Kind.http_route (child_key tg route) F
      × IsKept store Kind.policy (tool_filter_policy_key tg route) F

  -- The backend has the target that the route asks for, the HTTPRoute leads there, and the policy
  -- allows by the rules of the filter, or there is none where there are no rules.
  pub record IsRouteInPlace (w : env.World) : Type 0 where
    pub target : Target
    pub is_target : IsTarget store parse_url route target
    pub backend : HasBackend store parse_url route tg target w
    pub http_route : HasHttpRoute store parse_url route tg w
    pub policy :
        HasPolicy store parse_url route tg (build_mcp_authorization_rules route.tool_filter) w

  IsRouteInPlace-IsOfObjects : IsOfObjects store IsRouteInPlace
  IsRouteInPlace-IsOfObjects w w' same here = record {
    target = here.target;
    is_target = here.is_target;
    backend = Stored-IsOfObjects store _ _ _ w w' same here.backend;
    http_route = Stored-IsOfObjects store _ _ _ w w' same here.http_route;
    policy = HasPolicy-IsOfObjects store parse_url route tg _ w w' same here.policy;
  }

  -- What held is kept; without an error the objects are there, and the path is the route's.
  abbrev Outcome : (env.World → Type 0) → String × Option (String × Error) → env.World → Type 0
  Outcome F (path, none) w = F w × IsRouteInPlace w
  Outcome F (path, some e) w = F w

  ensure_policy-HasPolicy :
      {F : env.World → Type 0}
      → IsKept store Kind.policy (tool_filter_policy_key tg route) F
      → Ends env F (ensure_policy env route tg) (
          Gains store F (λ _.
            HasPolicy store parse_url route tg (build_mcp_authorization_rules route.tool_filter)))
  unfolding ensure_policy
  ensure_policy-HasPolicy keeps = ensure_policy_for-HasPolicy store parse_url route tg _ keeps

  route_upstream-IsTarget :
      {F : env.World → Type 0}
      → IsOfObjects store F
      → Ends env F
          (resolve_route_upstream parse_url env route)
          (Gains store F (λ t w. IsTarget store parse_url route t))
  unfolding resolve_route_upstream
  route_upstream-IsTarget keeps = upstream-IsTargetOf store parse_url route _ _ keeps

  reconcile_tool_route-Outcome :
      {F : env.World → Type 0}
      → IsSpared F
      → Ends env F (reconcile_tool_route env parse_url route tg) (Outcome F)
  unfolding reconcile_tool_route
  reconcile_tool_route-Outcome {F} keeps =
      Ends-gains store (route_upstream-IsTarget (IsKept-IsOfObjects store _ _ keeps.0))
        (λ e. Ends-pure _ (λ w f. f))
        λ t.
          Ends-gains store (ensure_backend-HasBackend store parse_url route tg t (spared keeps.0 t))
            (λ e. Ends-pure _ (λ w f. f.0))
            λ _.
              Ends-gains store
                (ensure_http_route-HasHttpRoute store parse_url route tg
                  (both-IsKept store (spared keeps.1 t) (Stored-IsKept store _ _ _ _ _ (λ e. cc))))
                (λ e. Ends-pure _ (λ w f. f.0.0))
                λ _.
                  Ends-gains store
                    (ensure_policy-HasPolicy (
                      both-IsKept store
                        (both-IsKept store (spared keeps.2 t)
                          (Stored-IsKept store _ _ _ _ _ (λ e. cc)))
                        (Stored-IsKept store _ _ _ _ _ (λ e. cc))))
                    (λ e. Ends-pure _ (λ w f. f.0.0.0))
                    λ _. Ends-pure _ λ w f. (
                      f.0.0.0.0,
                      record {
                        target = t;
                        is_target = f.0.0.0.1;
                        backend = f.0.0.1;
                        http_route = f.0.1;
                        policy = f.1;
                      },
                    )
    where
      spared :
          {k : Kind} {key : Key}
          → IsKept store k key F
          → (t : Target) → IsKept store k key (λ w. F w × IsTarget store parse_url route t)
      spared keeps t w w' same (f, is) = (keeps w w' same f, is)

  patch-keeps :
      {G : env.World → Type 0} (status : Status)
      → IsOfObjects store G
      → Ends env G (patch_tool_route_status env parse_url route status) (λ r w. G w)
  unfolding patch_tool_route_status
  patch-keeps status keeps =
      Ends-bind (Ends-patch store _ _ _ _ keeps)
        λ r. Ends-check (λ e _. Ends-pure _ (λ w g. g)) (λ _ _. Ends-pure _ (λ w g. g))

  ready-keeps :
      {G : env.World → Type 0} (path : String)
      → IsOfObjects store G
      → Ends env G (update_status_ready env parse_url route tg path) (λ r w. G w)
  unfolding update_status_ready
  ready-keeps path keeps = Ends-bind (patch-keeps _ keeps) λ r.
      Ends-check (λ e _. Ends-pure _ (λ w g. g))
        λ _ _.
          Ends-if (not (found_true (env.find_status_condition route.status.conditions "Ready")))
            (λ _. Ends-bind (Ends-event _ _ _ _) (λ _. Ends-pure _ (λ w g. g)))
            (λ _. Ends-pure _ (λ w g. g))

  mirrored :
      (F : env.World → Type 0) (r : Result (Unit {0})) (w : env.World)
      → F w × IsRouteInPlace w
      → Gains store F (λ _. IsRouteInPlace) r w
  mirrored F (ok a) w f = f
  mirrored F (err e) w f = f.0

  mirror-Outcome :
      {F : env.World → Type 0} (o : String × Option (String × Error))
      → IsOfObjects store F
      → Ends env
          (Outcome F o)
          (mirror env parse_url route tg o)
          (Gains store F (λ _. IsRouteInPlace))
  unfolding update_status_not_ready
  mirror-Outcome {F} (path, none) keeps =
      Ends-weaken (ready-keeps path (both-IsOfObjects store keeps IsRouteInPlace-IsOfObjects))
        (mirrored F)
  mirror-Outcome (path, some (reason, e)) keeps =
      Ends-bind (patch-keeps _ keeps) (λ _. Ends-pure _ (λ w f. f))

  -- Where the calls of the client do what is documented, a run of the ToolRoute reconciler under a
  -- gateway of ours that succeeds leaves in the cluster, controlled by the route: the backend of the
  -- target that its upstream resolves to, the HTTPRoute from the gateway to this backend at the path of
  -- the route, and the policy with the rules of its tool filter, or no policy where it has no rules. What
  -- no call on these three objects takes away is kept, also by a run that fails.
  pub reconcile_owned-IsRouteInPlace :
      {F : env.World → Type 0}
      → IsSpared F
      → Ends env F (reconcile_owned env parse_url route tg) (Gains store F (λ _. IsRouteInPlace))
  unfolding reconcile_owned
  reconcile_owned-IsRouteInPlace keeps =
      Ends-bind (reconcile_tool_route-Outcome keeps)
        (λ o. mirror-Outcome o (IsKept-IsOfObjects store _ _ keeps.0))
