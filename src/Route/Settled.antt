-- ===== src/Route/Settled.antt =====
-- A second reconciliation finds the tool-filter policy as the first one left it.
use mathlib.Core.Path.{subst}
use tool_gateway_agentgatewa.Prelude.{◌≡◌, refl, List, [], ◌∷◌}
use tool_gateway_agentgatewa.Prelude.Text.{Text}
use tool_gateway_agentgatewa.Kube.Json.{slice}
use tool_gateway_agentgatewa.Kube.Errors.{ok}
use tool_gateway_agentgatewa.Kube.Results.{bind-ok, ok-injective}
use tool_gateway_agentgatewa.Kube.Types.{ToolGateway, ToolRoute}
use tool_gateway_agentgatewa.Kube.Objects.{Kind, OwnerKind, Object}
use tool_gateway_agentgatewa.Kube.Client.{Env}
use tool_gateway_agentgatewa.Kube.Settled.{KeepsOwner, KeepsField, KeepsOthers}
use tool_gateway_agentgatewa.Route.Ensure.{policy_target_ref, authorization, mutate_policy}

module _ (env : Env) (keeps : KeepsOwner env) (route : ToolRoute) where
  -- Where `SetControllerReference` keeps an owner that it has set, and `SetNestedField` keeps a field that
  -- it has set and leaves the fields alone whose paths part from its own, the mutation of the tool-filter
  -- policy leaves the policy as it is that the same mutation has made.
  pub tool_filter_policy-settled :
      (keeps_field : KeepsField env) (keeps_others : KeepsOthers env) (tg : ToolGateway)
      (rules : List Text) (o o' : Object Kind.policy)
      → mutate_policy env route tg rules o ≡ ok o'
      → mutate_policy env route tg rules o' ≡ ok o'
  unfolding mutate_policy
  tool_filter_policy-settled keeps_field keeps_others tg rules o o' h =
      let (owner, owned, h1) =
        bind-ok (env.set_controller_reference (OwnerKind.tool_route, route.key) o.owner) h in
      let (targeted, target_set, h2) =
        bind-ok
          (env.set_nested o.content (slice (policy_target_ref tg route ∷ []))
            ("spec" ∷ "targetRefs" ∷ []))
          h1 in
      let (content, rules_set, e) =
        bind-ok
          (env.set_nested targeted (authorization rules)
            ("spec" ∷ "backend" ∷ "mcp" ∷ "authorization" ∷ []))
          h2 in
      subst (λ o'. mutate_policy env route tg rules o' ≡ ok o') (ok-injective e)
        (rw (
          keeps _ _ _ owned,
          keeps_others.keeps_set _ _ _ _ _ _ refl (keeps_field _ _ _ _ target_set) rules_set,
          keeps_field _ _ _ _ rules_set,
        ))
