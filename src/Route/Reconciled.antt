-- ===== src/Route/Reconciled.antt =====
-- `Reconcile` of the ToolRoute, as a whole.
use mathlib.Core.Path.{subst}
use tool_gateway_agentgatewa.Prelude.{String, ◌≡◌, refl, ap, ◌∙◌, true, false, List, [], ◌∷◌}
use tool_gateway_agentgatewa.Prelude.Text.{concat}
use tool_gateway_agentgatewa.Kube.Errors.{
  Error, no_default_tool_gateway, message, is_not_found, errors_is, Result, ok, err,
}
use tool_gateway_agentgatewa.Kube.Types.{Key, ToolGateway, ToolRoute}
use tool_gateway_agentgatewa.Kube.Client.{Env, Call}
use tool_gateway_agentgatewa.Kube.Client.Logic.{
  Performs, Performs-pure, Performs-if, Performs-weaken, Performs-then, Performs-ask, Performs-read,
  Performs-check,
}
use tool_gateway_agentgatewa.Ownership.Answers.{
  IsAnswer, is_tool_gateway_owned_by_controller-Performs, IsResolution,
  resolve_tool_gateway_key-Performs,
}
use tool_gateway_agentgatewa.Route.Upstream.{Url}
use tool_gateway_agentgatewa.Route.Reconcile.{report_gateway_not_found, reconcile_for, reconcile}
use tool_gateway_agentgatewa.Route.Runs.{
  not_ready_patch, update_status_not_ready-Performs, IsRun, reconcile_owned-Performs,
}

-- The text of the condition for a gateway that is not there.
abbrev pub missing_text : Key → String
missing_text key = concat ("ToolGateway " ∷ key.namespace ∷ "/" ∷ key.name ∷ " not found" ∷ [])

module _ (env : Env) (parse_url : String → Result Url) where
  -- The one call for a route whose gateway is not there.
  abbrev pub gateway_not_found_patch : ToolRoute → String → Call
  gateway_not_found_patch route text = not_ready_patch env parse_url route "GatewayNotFound" text

  -- How the reconciliation of a route may end once its gateway's key is known.
  pub data IsReconcileFor (route : ToolRoute) (key : Key)
      : Result (Unit {0}) → List Call → Type 0 where
    gateway_gone :
        {r : Result (Unit {0})} {ws : List Call} (w : env.World) (e : Error)
        → (env.get_tool_gateway key w).0 ≡ err e
        → is_not_found e ≡ true
        → r ≡ ok tt
        → ws ≡ gateway_not_found_patch route (missing_text key) ∷ []
        → IsReconcileFor route key r ws
    gateway_unread :
        (w : env.World) (e : Error)
        → (env.get_tool_gateway key w).0 ≡ err e
        → is_not_found e ≡ false
        → IsReconcileFor route key (err e) []
    unclassified :
        (w : env.World) (tg : ToolGateway) (e : Error)
        → (env.get_tool_gateway key w).0 ≡ ok tg
        → IsAnswer env tg (err e)
        → IsReconcileFor route key (err e) []
    foreign :
        (w : env.World) (tg : ToolGateway)
        → (env.get_tool_gateway key w).0 ≡ ok tg
        → IsAnswer env tg (ok false)
        → IsReconcileFor route key (ok tt) []
    owned :
        {r : Result (Unit {0})} {ws : List Call} (w : env.World) (tg : ToolGateway)
        → (env.get_tool_gateway key w).0 ≡ ok tg
        → IsAnswer env tg (ok true)
        → IsRun env parse_url route tg r ws
        → IsReconcileFor route key r ws

  report_gateway_not_found-Performs :
      (route : ToolRoute) (text : String)
      → Performs env
          (report_gateway_not_found env parse_url route text)
          (λ r ws. (r ≡ ok tt) × (ws ≡ gateway_not_found_patch route text ∷ []))
  unfolding report_gateway_not_found
  report_gateway_not_found-Performs route text =
      Performs-then (update_status_not_ready-Performs env parse_url route "GatewayNotFound" text)
        (λ _. Performs-pure _ (refl, refl))

  reconcile_for-IsReconcileFor :
      (route : ToolRoute) (key : Key)
      → Performs env (reconcile_for env parse_url route key) (IsReconcileFor route key)
  unfolding reconcile_for
  reconcile_for-IsReconcileFor route key = Performs-ask _ λ r w h.
      Performs-check
        (λ e h'.
          Performs-if (is_not_found e)
            (λ gone.
              Performs-weaken (report_gateway_not_found-Performs route (missing_text key))
                (λ r ws p. gateway_gone w e (h ∙ h') gone p.0 p.1))
            (λ other. Performs-pure _ (gateway_unread w e (h ∙ h') other)))
        λ tg h'. Performs-read (is_tool_gateway_owned_by_controller-Performs env tg) λ a answer.
          Performs-check
            (λ e h''.
              Performs-pure _ (unclassified w tg e (h ∙ h') (subst (IsAnswer env tg) h'' answer)))
            λ mine h''.
              Performs-if mine
                (λ yes_mine.
                  Performs-weaken (reconcile_owned-Performs env parse_url route tg) (λ r ws run.
                    owned w tg (h ∙ h') (subst (IsAnswer env tg) (h'' ∙ ap ok yes_mine) answer)
                      run))
                (λ not_mine.
                  Performs-pure _
                    (foreign w tg (h ∙ h') (subst (IsAnswer env tg) (h'' ∙ ap ok not_mine) answer)))

  -- How `Reconcile` of a route may end.
  pub data IsRouteReconcile (req : Key) : Result (Unit {0}) → List Call → Type 0 where
    gone :
        (w : env.World) (e : Error)
        → (env.get_tool_route req w).0 ≡ err e
        → is_not_found e ≡ true
        → IsRouteReconcile req (ok tt) []
    unread :
        (w : env.World) (e : Error)
        → (env.get_tool_route req w).0 ≡ err e
        → is_not_found e ≡ false
        → IsRouteReconcile req (err e) []
    no_default :
        {r : Result (Unit {0})} {ws : List Call} (w : env.World) (route : ToolRoute) (e : Error)
        → (env.get_tool_route req w).0 ≡ ok route
        → IsResolution env route (err e)
        → errors_is e no_default_tool_gateway ≡ true
        → r ≡ ok tt
        → ws ≡ gateway_not_found_patch route (message e) ∷ []
        → IsRouteReconcile req r ws
    unresolved :
        (w : env.World) (route : ToolRoute) (e : Error)
        → (env.get_tool_route req w).0 ≡ ok route
        → IsResolution env route (err e)
        → errors_is e no_default_tool_gateway ≡ false
        → IsRouteReconcile req (err e) []
    resolved :
        {r : Result (Unit {0})} {ws : List Call} (w : env.World) (route : ToolRoute) (key : Key)
        → (env.get_tool_route req w).0 ≡ ok route
        → IsResolution env route (ok key)
        → IsReconcileFor route key r ws
        → IsRouteReconcile req r ws

  -- Whatever the cluster answers, `Reconcile` of a ToolRoute ends in one of the ways of `IsRouteReconcile`:
  -- nothing is written, and the result is a success, where the route is gone or its gateway is another
  -- controller's; a missing gateway, or no default one, is no error, and costs one patch of the status;
  -- each other failure to read is returned, and nothing is written; and the run of a route under a
  -- gateway of ours is one of `IsRun`. There the backend, the HTTPRoute, the policy, and the patch of the
  -- status come in this order. The status becomes ready only where the upstream is resolved and the
  -- client has answered each call, with the mutation of this route, by a success (for the removal of a
  -- policy also that there is none), and the result is then that of the patch. Else the first failure
  -- ends the sequence: it is returned, and the status names its phase and its text.
  pub reconcile-IsRouteReconcile :
      (req : Key) → Performs env (reconcile env parse_url req) (IsRouteReconcile req)
  unfolding reconcile
  reconcile-IsRouteReconcile req = Performs-ask _ λ r w h.
      Performs-check
        (λ e h'.
          Performs-if (is_not_found e) (λ gone_e. Performs-pure _ (gone w e (h ∙ h') gone_e))
            (λ other. Performs-pure _ (unread w e (h ∙ h') other)))
        λ route h'. Performs-read (resolve_tool_gateway_key-Performs env route) λ a res.
          Performs-check
            (λ e h''.
              Performs-if (errors_is e no_default_tool_gateway)
                (λ none_e.
                  Performs-weaken (report_gateway_not_found-Performs route (message e)) (λ r ws p.
                    no_default w route e (h ∙ h') (subst (IsResolution env route) h'' res) none_e
                      p.0 p.1))
                (λ other.
                  Performs-pure _
                    (unresolved w route e (h ∙ h') (subst (IsResolution env route) h'' res) other)))
            λ key h''. Performs-weaken (reconcile_for-IsReconcileFor route key) (λ r ws run.
              resolved w route key (h ∙ h') (subst (IsResolution env route) h'' res) run)
