-- ===== src/Gateway/Watches.antt =====
-- internal/controller/toolgateway_reconciler.go: which gateways a changed Guard, or a changed
-- GuardrailProvider, sends back to the reconciler.
use tool_gateway_agentgatewa.Prelude.{String, Bool, List, [], ◌∷◌, any, str_eq, if◌then◌else◌}
use tool_gateway_agentgatewa.Prelude.Text.{concat}
use tool_gateway_agentgatewa.Kube.Types.{
  Key, same_key, resolve_ref, ToolGateway, Guard, GuardrailProvider,
}
use tool_gateway_agentgatewa.Kube.Client.{Env, Act, pure, ◌>>=◌, check, query}

-- The outer loop: the requests for the gateways that pass the test, each of them once.
unfoldable pub requests_where : (ToolGateway → Bool) → List ToolGateway → List Key
requests_where test [] = []
requests_where test (tg ∷ tgs) =
    let rest = requests_where test tgs in if test tg then tg.key ∷ rest else rest

unfoldable pub references_guard : Key → ToolGateway → Bool
references_guard guard tg =
    any (λ ref. same_key (resolve_ref ref tg.key.namespace) guard) tg.guardrails

-- `affectedGuards`: the keys of the map that are true.
unfoldable pub affected_guards : Key → List Guard → List String
affected_guards provider [] = []
affected_guards provider (g ∷ gs) =
    let rest = affected_guards provider gs in
    if same_key (resolve_ref g.provider_ref g.key.namespace) provider
    then concat (g.key.namespace ∷ "/" ∷ g.key.name ∷ []) ∷ rest
    else rest

unfoldable pub references_affected : List String → ToolGateway → Bool
references_affected affected tg =
    any
      (λ ref.
        let k = resolve_ref ref tg.key.namespace in
        any (λ a. str_eq a (concat (k.namespace ∷ "/" ∷ k.name ∷ []))) affected)
      tg.guardrails

module _ (env : Env) where
  unfoldable pub find_tool_gateway_for_guard : Guard → Act env (List Key)
  find_tool_gateway_for_guard guard = do
    items ← query env.list_tool_gateways
    check items (λ e. pure []) (λ tgs. pure (requests_where (references_guard guard.key) tgs))

  unfoldable pub find_tool_gateway_for_guardrail_provider : GuardrailProvider → Act env (List Key)
  find_tool_gateway_for_guardrail_provider provider = do
    guards ← query env.list_guards
    check guards (λ e. pure [])
        (λ gs. do
          items ← query env.list_tool_gateways
          check items (λ e. pure [])
              (λ tgs.
                pure (requests_where (references_affected (affected_guards provider.key gs)) tgs)))
