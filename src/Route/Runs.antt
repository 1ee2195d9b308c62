-- ===== src/Route/Runs.antt =====
-- The runs of the ToolRoute reconciler under a gateway of ours: what it returns, beside what it writes.
use mathlib.Core.Path.{subst}
use tool_gateway_agentgatewa.Prelude.{
  String, ◌≡◌, refl, not, List, [], ◌∷◌, ◌++◌, Option, none, some,
}
use tool_gateway_agentgatewa.Authz.Rules.{build_mcp_authorization_rules}
use tool_gateway_agentgatewa.Kube.Errors.{Error, message, Result, ok, err}
use tool_gateway_agentgatewa.Kube.Types.{Status, ToolGateway, ToolRoute}
use tool_gateway_agentgatewa.Kube.Objects.{Kind, OwnerKind}
use tool_gateway_agentgatewa.Kube.Client.{Env, Call, upsert, patch, pure, ◌>>=◌, check}
use tool_gateway_agentgatewa.Kube.Client.Logic.{
  Performs, Performs-pure, Performs-patch, Performs-if, Performs-weaken, Performs-event,
  Performs-bind, Performs-then, Performs-told, Performs-check,
}
use tool_gateway_agentgatewa.Kube.Client.Passed.{IsPassed, Performs-passed, Performs-done}
use tool_gateway_agentgatewa.Route.Upstream.{Url, Target}
use tool_gateway_agentgatewa.Route.Ensure.{child_key, ensure_http_route, ensure_policy}
use tool_gateway_agentgatewa.Route.EnsureRuns.{
  policy_call, IsBackendPassed, IsHttpRoutePassed, IsPolicyPassed, IsRouteUpstream,
  ensure_backend-Performs, ensure_http_route-Performs, ensure_policy-Performs,
  resolve_route_upstream-Performs,
}
use tool_gateway_agentgatewa.Route.Reconcile.{
  route_path_of, route_url, found_true, reconcile_tool_route, patch_tool_route_status, ready_status,
  not_ready_status, update_status_ready, update_status_not_ready, mirror, reconcile_owned,
}

module _ (env : Env) (parse_url : String → Result Url) (route : ToolRoute) where
  -- What the result of a patch of the status says of the client's answer.
  abbrev pub IsPatchPassed : Status → Result (Unit {0}) → Type 0
  IsPatchPassed status =
      IsPassed env (env.patch_status OwnerKind.tool_route route.key route.status status)
        "failed to patch ToolRoute status: "

  patch_tool_route_status-Performs :
      (status : Status)
      → Performs env (patch_tool_route_status env parse_url route status) (λ r ws.
        (ws ≡ patch OwnerKind.tool_route route.key route.status status ∷ [])
        × IsPatchPassed status r)
  unfolding patch_tool_route_status
  patch_tool_route_status-Performs status =
      Performs-passed (Performs-patch _ _ _ _ _) (λ _. Performs-done)

  abbrev pub not_ready_patch : String → String → Call
  not_ready_patch reason text =
      patch OwnerKind.tool_route route.key route.status
        (not_ready_status env parse_url route reason text)

  pub update_status_not_ready-Performs :
      (reason text : String)
      → Performs env
          (update_status_not_ready env parse_url route reason text)
          (λ r ws. ws ≡ not_ready_patch reason text ∷ [])
  unfolding update_status_not_ready
  update_status_not_ready-Performs reason text =
      Performs-weaken (patch_tool_route_status-Performs _) (λ r ws h. h.0)

  module _ (tg : ToolGateway) where
    abbrev pub backend_call : Call
    backend_call = upsert Kind.backend (child_key tg route)

    abbrev pub http_route_call : Call
    http_route_call = upsert Kind.http_route (child_key tg route)

    abbrev pub filter_call : Call
    filter_call = policy_call route tg (build_mcp_authorization_rules route.tool_filter)

    abbrev new_ready_status : Status
    new_ready_status = ready_status env parse_url route (route_url tg (route_path_of route))

    abbrev pub ready_patch : Call
    ready_patch = patch OwnerKind.tool_route route.key route.status new_ready_status

    -- What the client has answered by the time that a phase is over: the upstream is resolved, the
    -- backend is made, the HTTPRoute is made, and the policy is as the rules ask for.
    abbrev HasTarget : Target → Type 0
    HasTarget t = IsRouteUpstream env parse_url route (ok t)

    abbrev MadeBackend : Target → Type 0
    MadeBackend t = HasTarget t × IsBackendPassed env route tg t (ok tt)

    abbrev MadeHttpRoute : Target → Type 0
    MadeHttpRoute t = MadeBackend t × IsHttpRoutePassed env route tg (route_path_of route) (ok tt)

    abbrev IsFilterPassed : Result (Unit {0}) → Type 0
    IsFilterPassed = IsPolicyPassed env route tg (build_mcp_authorization_rules route.tool_filter)

    -- How the core may stop: the reason, the error that the client has answered, behind its text, and
    -- the calls by then. Every phase before it was a success.
    pub data IsStop : String → Error → List Call → Type 0 where
      upstream_failed :
          (e : Error)
          → IsRouteUpstream env parse_url route (err e)
          → IsStop "UpstreamUnresolved" e []
      backend_failed :
          (t : Target) (e : Error)
          → HasTarget t
          → IsBackendPassed env route tg t (err e)
          → IsStop "BackendReconciliationFailed" e (backend_call ∷ [])
      http_route_failed :
          (t : Target) (e : Error)
          → MadeBackend t
          → IsHttpRoutePassed env route tg (route_path_of route) (err e)
          → IsStop "HTTPRouteReconciliationFailed" e (backend_call ∷ http_route_call ∷ [])
      policy_failed :
          (t : Target) (e : Error)
          → MadeHttpRoute t
          → IsFilterPassed (err e)
          → IsStop "PolicyReconciliationFailed" e
              (backend_call ∷ http_route_call ∷ filter_call ∷ [])

    -- How the reconciliation of a route may end: ready, where every call was a success; or with the
    -- failure that has stopped it, which is returned, and is the message of the Ready condition, whose
    -- reason names the phase.
    pub data IsRun (r : Result (Unit {0})) (ws : List Call) : Type 0 where
      ready :
          (t : Target)
          → MadeHttpRoute t
          → IsFilterPassed (ok tt)
          → IsPatchPassed new_ready_status r
          → ws ≡ backend_call ∷ http_route_call ∷ filter_call ∷ ready_patch ∷ []
          → IsRun r ws
      stopped :
          (reason : String) (e : Error) (before : List Call)
          → IsStop reason e before
          → r ≡ err e
          → ws ≡ before ++ not_ready_patch reason (message e) ∷ []
          → IsRun r ws

    -- What the core returns, beside what it has written.
    data IsCoreRun : String × Option (String × Error) → List Call → Type 0 where
      all_done :
          (t : Target)
          → MadeHttpRoute t
          → IsFilterPassed (ok tt)
          → IsCoreRun
              (route_path_of route, none)
              (backend_call ∷ http_route_call ∷ filter_call ∷ [])
      halted :
          {reason : String} {e : Error} {before : List Call}
          → IsStop reason e before
          → IsCoreRun ("", some (reason, e)) before

    -- Behind a backend that is made.
    route_and_policy-Performs :
        (t : Target)
        → MadeBackend t
        → Performs env
            (ensure_http_route env route tg (route_path_of route) >>= λ h.
              check h
                (λ e. pure ("", some ("HTTPRouteReconciliationFailed", e)))
                (λ _. ensure_policy env route tg >>= λ p.
                  check p
                    (λ e. pure ("", some ("PolicyReconciliationFailed", e)))
                    (λ _. pure (route_path_of route, none))))
            (λ o ws. IsCoreRun o (backend_call ∷ ws))
    route_and_policy-Performs t has =
        Performs-told (ensure_http_route-Performs env route tg (route_path_of route)) λ h hr.
          Performs-check
            (λ e same. Performs-pure _ (halted (http_route_failed t e has (subst IsHttp same hr))))
            λ _ ok_h. Performs-told (ensure_policy-Performs env route tg) λ p pol.
              Performs-check
                (λ e same. Performs-pure _ (
                  halted (
                    policy_failed t e (has, subst IsHttp ok_h hr) (subst IsFilterPassed same pol))))
                λ _ same.
                  Performs-pure _
                    (all_done t (has, subst IsHttp ok_h hr) (subst IsFilterPassed same pol))
      where
        IsHttp : Result (Unit {0}) → Type 0
        IsHttp = IsHttpRoutePassed env route tg (route_path_of route)

    reconcile_tool_route-Performs :
        Performs env (reconcile_tool_route env parse_url route tg) IsCoreRun
    unfolding reconcile_tool_route
    reconcile_tool_route-Performs =
        Performs-told (resolve_route_upstream-Performs env parse_url route) λ u up.
          Performs-check
            (λ e same. Performs-pure _ (halted (upstream_failed e (subst IsTarget same up))))
            λ t got.
              let has : HasTarget t = subst IsTarget got up in
              Performs-told (ensure_backend-Performs env route tg t) λ b bk.
                Performs-check
                  (λ e same. Performs-pure _ (
                    halted
                      (backend_failed t e has (subst (IsBackendPassed env route tg t) same bk))))
                  λ _ same.
                    route_and_policy-Performs t
                      (has, subst (IsBackendPassed env route tg t) same bk)
      where
        IsTarget : Result Target → Type 0
        IsTarget = IsRouteUpstream env parse_url route

    update_status_ready-Performs :
        Performs env
          (update_status_ready env parse_url route tg (route_path_of route))
          (λ r ws. (ws ≡ ready_patch ∷ []) × IsPatchPassed new_ready_status r)
    unfolding update_status_ready
    update_status_ready-Performs = Performs-told (patch_tool_route_status-Performs _) λ r passed.
        Performs-check
          (λ e same. Performs-pure _ (refl, subst (IsPatchPassed new_ready_status) same passed))
          λ _ same.
            Performs-if
              (not (found_true (env.find_status_condition route.status.conditions "Ready")))
              (λ _.
                Performs-then (Performs-event _ _ _ _)
                  (λ _. Performs-pure _ (refl, subst (IsPatchPassed new_ready_status) same passed)))
              (λ _. Performs-pure _ (refl, subst (IsPatchPassed new_ready_status) same passed))

    error-Performs :
        (path reason : String) (e : Error)
        → Performs env
            (mirror env parse_url route tg (path, some (reason, e)))
            (λ r ws. (r ≡ err e) × (ws ≡ not_ready_patch reason (message e) ∷ []))
    error-Performs path reason e =
        Performs-then (update_status_not_ready-Performs reason (message e))
          (λ _. Performs-pure _ (refl, refl))

    mirror-IsRun :
        {o : String × Option (String × Error)} {ws : List Call}
        → IsCoreRun o ws
        → Performs env (mirror env parse_url route tg o) (λ r vs. IsRun r (ws ++ vs))
    mirror-IsRun (all_done t has filtered) =
        Performs-weaken update_status_ready-Performs (λ r vs h. ready t has filtered h.1 (rw h.0))
    mirror-IsRun (halted {reason} {e} {before} stop) =
        Performs-weaken (error-Performs "" reason e)
          (λ r vs h. stopped reason e before stop h.0 (rw h.1))

    pub reconcile_owned-Performs : Performs env (reconcile_owned env parse_url route tg) IsRun
    unfolding reconcile_owned
    reconcile_owned-Performs =
        Performs-bind reconcile_tool_route-Performs (λ o ws h. mirror-IsRun h)
