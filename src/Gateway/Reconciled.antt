-- ===== src/Gateway/Reconciled.antt =====
-- `Reconcile` of the ToolGateway, as a whole.
use mathlib.Core.Path.{subst}
use tool_gateway_agentgatewa.Prelude.{String, ◌≡◌, ap, ◌∙◌, true, false, List, [], Option}
use tool_gateway_agentgatewa.Kube.Errors.{Error, is_not_found, Result, ok, err}
use tool_gateway_agentgatewa.Kube.Types.{Key, ToolGateway}
use tool_gateway_agentgatewa.Kube.Client.{Env, Call}
use tool_gateway_agentgatewa.Kube.Client.Logic.{
  Performs, Performs-pure, Performs-if, Performs-weaken, Performs-read, Performs-ask,
  Performs-check,
}
use tool_gateway_agentgatewa.Otel.Headers.{HeaderMap}
use tool_gateway_agentgatewa.Ownership.Answers.{
  IsAnswer, is_tool_gateway_owned_by_controller-Performs,
}
use tool_gateway_agentgatewa.Gateway.Reconcile.{reconcile}
use tool_gateway_agentgatewa.Gateway.Runs.{IsRun, reconcile_owned-Performs}

module _ (env : Env) (unmarshal : String → Option HeaderMap) (req : Key) where
  -- How `Reconcile` may end: the gateway is gone, cannot be read, cannot be classified, or belongs to
  -- another controller, and nothing is written; or it is owned, and a run follows.
  pub data IsGatewayReconcile : Result (Unit {0}) → List Call → Type 0 where
    gone :
        (w : env.World) (e : Error)
        → (env.get_tool_gateway req w).0 ≡ err e
        → is_not_found e ≡ true
        → IsGatewayReconcile (ok tt) []
    unread :
        (w : env.World) (e : Error)
        → (env.get_tool_gateway req w).0 ≡ err e
        → is_not_found e ≡ false
        → IsGatewayReconcile (err e) []
    unclassified :
        (w : env.World) (tg : ToolGateway) (e : Error)
        → (env.get_tool_gateway req w).0 ≡ ok tg
        → IsAnswer env tg (err e)
        → IsGatewayReconcile (err e) []
    foreign :
        (w : env.World) (tg : ToolGateway)
        → (env.get_tool_gateway req w).0 ≡ ok tg
        → IsAnswer env tg (ok false)
        → IsGatewayReconcile (ok tt) []
    owned :
        {r : Result (Unit {0})} {ws : List Call} (w : env.World) (tg : ToolGateway)
        → (env.get_tool_gateway req w).0 ≡ ok tg
        → IsAnswer env tg (ok true)
        → IsRun env unmarshal tg r ws
        → IsGatewayReconcile r ws

  -- Whatever the cluster answers, `Reconcile` of a ToolGateway writes only where the gateway is read and
  -- one of this controller's classes claims it; then it is one of the runs of `IsRun`. There the parameters,
  -- the Gateway, the guardrail policy and the patch of this gateway's status come in this order. The status
  -- becomes ready only where the client has answered each call by a success, and the one guard is read
  -- and its Ready condition is true, or there is no guard; a failed call, a guard that is missing or not
  -- ready, or several guards end the sequence, and the failure is returned and named in the status.
  -- Where the gateway is not claimed the result is a success if it is gone or another's, and else the
  -- error that was met.
  pub reconcile-IsGatewayReconcile : Performs env (reconcile env unmarshal req) IsGatewayReconcile
  unfolding reconcile
  reconcile-IsGatewayReconcile = Performs-ask _ λ r w h.
      Performs-check
        (λ e h'.
          Performs-if (is_not_found e) (λ gone_e. Performs-pure _ (gone w e (h ∙ h') gone_e))
            (λ other. Performs-pure _ (unread w e (h ∙ h') other)))
        λ tg h'. Performs-read (is_tool_gateway_owned_by_controller-Performs env tg) λ a answer.
          Performs-check
            (λ e h''.
              Performs-pure _ (unclassified w tg e (h ∙ h') (subst (IsAnswer env tg) h'' answer)))
            λ mine h''.
              Performs-if mine
                (λ yes_mine.
                  Performs-weaken (reconcile_owned-Performs env unmarshal tg) (λ r ws run.
                    owned w tg (h ∙ h') (subst (IsAnswer env tg) (h'' ∙ ap ok yes_mine) answer)
                      run))
                (λ not_mine.
                  Performs-pure _
                    (foreign w tg (h ∙ h') (subst (IsAnswer env tg) (h'' ∙ ap ok not_mine) answer)))
