-- ===== src/Route/EnsureRuns.antt =====
-- What the ensured objects of a ToolRoute write.
use tool_gateway_agentgatewa.Prelude.{String, ◌≡◌, refl, ◌∙◌, List, [], ◌∷◌, Option, none, some}
use tool_gateway_agentgatewa.Prelude.Text.{Text, concat}
use tool_gateway_agentgatewa.Authz.Rules.{build_mcp_authorization_rules}
use tool_gateway_agentgatewa.Kube.Errors.{Error, failure, wrapped, is_not_found, Result, ok, err}
use tool_gateway_agentgatewa.Kube.Types.{Key, resolve_ref, ToolGateway, ToolRoute, ToolServer}
use tool_gateway_agentgatewa.Kube.Objects.{Kind}
use tool_gateway_agentgatewa.Kube.Client.{Env, Call, upsert, remove}
use tool_gateway_agentgatewa.Kube.Client.Logic.{
  Answered, Performs, Performs-pure, Performs-upsert, Performs-remove, Performs-if, Performs-event,
  Performs-then, Performs-told, Performs-ask, Performs-check,
}
use tool_gateway_agentgatewa.Kube.Client.Passed.{
  IsPassed, IsRemoved, removed, absent, unremoved, Performs-passed, Performs-noted,
}
use tool_gateway_agentgatewa.Resources.{new_agentgateway_backend, new_agentgateway_policy}
use tool_gateway_agentgatewa.Route.Upstream.{
  Target, Url, external_target, tool_server_target, tool_server_upstream, resolve_upstream,
  resolve_route_upstream,
}
use tool_gateway_agentgatewa.Route.Ensure.{
  child_key, tool_filter_policy_key, mutate_backend, mutate_http_route, mutate_policy,
  ensure_backend, ensure_http_route, delete_policy, apply_policy, ensure_policy_for, ensure_policy,
}

-- The one call on the tool-filter policy: removed where there is no rule.
abbrev pub policy_call : ToolRoute → ToolGateway → List Text → Call
policy_call route tg [] = remove Kind.policy (tool_filter_policy_key tg route)
policy_call route tg (_ ∷ _) = upsert Kind.policy (tool_filter_policy_key tg route)

-- What the client is asked for, and what the result says of its answer.
module _ (env : Env) (route : ToolRoute) (tg : ToolGateway) where
  abbrev pub IsBackendPassed : Target → Result (Unit {0}) → Type 0
  IsBackendPassed target =
      IsPassed env
        (env.create_or_patch Kind.backend (child_key tg route)
          (new_agentgateway_backend (child_key tg route)) (mutate_backend env route target))
        "failed to ensure AgentgatewayBackend: "

  abbrev pub IsHttpRoutePassed : String → Result (Unit {0}) → Type 0
  IsHttpRoutePassed path =
      IsPassed env
        (env.create_or_patch Kind.http_route (child_key tg route)
          (record { owner = none; content = none }) (mutate_http_route env route tg path))
        "failed to ensure HTTPRoute: "

  abbrev pub IsPolicyPassed : List Text → Result (Unit {0}) → Type 0
  IsPolicyPassed [] =
      IsRemoved env (env.delete Kind.policy (tool_filter_policy_key tg route))
        "failed to delete stale tool-filter policy: "
  IsPolicyPassed (r ∷ rs) =
      IsPassed env
        (env.create_or_patch Kind.policy (tool_filter_policy_key tg route)
          (new_agentgateway_policy (tool_filter_policy_key tg route))
          (mutate_policy env route tg (r ∷ rs)))
        "failed to ensure AgentgatewayPolicy: "

  pub ensure_backend-Performs :
      (target : Target)
      → Performs env
          (ensure_backend env route tg target)
          (λ r ws. (ws ≡ upsert Kind.backend (child_key tg route) ∷ []) × IsBackendPassed target r)
  unfolding ensure_backend
  ensure_backend-Performs target =
      Performs-passed (Performs-upsert _ _ _) (λ op. Performs-noted _ _ _ _ op)

  pub ensure_http_route-Performs :
      (path : String)
      → Performs env (ensure_http_route env route tg path) (λ r ws.
        (ws ≡ upsert Kind.http_route (child_key tg route) ∷ []) × IsHttpRoutePassed path r)
  unfolding ensure_http_route
  ensure_http_route-Performs path =
      Performs-passed (Performs-upsert _ _ _) (λ op. Performs-noted _ _ _ _ op)

  ensure_policy_for-Performs :
      (rules : List Text)
      → Performs env
          (ensure_policy_for env route tg rules)
          (λ r ws. (ws ≡ policy_call route tg rules ∷ []) × IsPolicyPassed rules r)
  unfolding ensure_policy_for delete_policy apply_policy
  ensure_policy_for-Performs [] = Performs-told (Performs-remove _ _ _) λ r told.
      Performs-check
        (λ e same.
          Performs-if (is_not_found e)
            (λ gone. Performs-pure _ (refl, absent e (told.0, told.1 ∙ same) gone refl))
            (λ other. Performs-pure _ (refl, unremoved e (told.0, told.1 ∙ same) other refl)))
        (λ _ same.
          Performs-then (Performs-event _ _ _ _)
            (λ _. Performs-pure _ (refl, removed (told.0, told.1 ∙ same) refl)))
  ensure_policy_for-Performs (r ∷ rs) =
      Performs-passed (Performs-upsert _ _ _) (λ op. Performs-noted _ _ _ _ op)

  pub ensure_policy-Performs : Performs env (ensure_policy env route tg) (λ r ws.
      (ws ≡ policy_call route tg (build_mcp_authorization_rules route.tool_filter) ∷ [])
      × IsPolicyPassed (build_mcp_authorization_rules route.tool_filter) r)
  unfolding ensure_policy
  ensure_policy-Performs =
      ensure_policy_for-Performs (build_mcp_authorization_rules route.tool_filter)

abbrev unresolved_text : Key → String
unresolved_text ref =
    concat ("failed to resolve ToolServer " ∷ ref.namespace ∷ "/" ∷ ref.name ∷ ": " ∷ [])

module _ (env : Env) (parse_url : String → Result Url) where
  -- What the resolution of an upstream may answer: the ToolServer that is referenced, where it is
  -- read; or else what becomes of the URL; or else an error.
  pub data IsUpstream (namespace : String)
      : Option Key → Option String → Result Target → Type 0 where
    by_server :
        (ref : Key) (external : Option String) (ts : ToolServer)
        → Answered env (env.get_tool_server (resolve_ref ref namespace)) (ok ts)
        → IsUpstream namespace (some ref) external (ok (tool_server_target ts))
    server_unread :
        (ref : Key) (external : Option String) (e : Error)
        → Answered env (env.get_tool_server (resolve_ref ref namespace)) (err e)
        → IsUpstream namespace
            (some ref)
            external
            (err (wrapped (unresolved_text (resolve_ref ref namespace)) e ""))
    by_url : (url : String) → IsUpstream namespace none (some url) (external_target parse_url url)
    no_upstream :
        IsUpstream namespace none none
          (err (failure "upstream has neither toolServerRef nor external set"))

  resolve_upstream-Performs :
      (namespace : String) (ref : Option Key) (external : Option String)
      → Performs env
          (resolve_upstream parse_url env namespace ref external)
          (λ r ws. (ws ≡ []) × IsUpstream namespace ref external r)
  unfolding resolve_upstream tool_server_upstream
  resolve_upstream-Performs namespace (some ref) external = Performs-ask _ λ r w h.
      Performs-check (λ e same. Performs-pure _ (refl, server_unread ref external e (w, h ∙ same)))
        (λ ts same. Performs-pure _ (refl, by_server ref external ts (w, h ∙ same)))
  resolve_upstream-Performs namespace none (some url) = Performs-pure _ (refl, by_url url)
  resolve_upstream-Performs namespace none none = Performs-pure _ (refl, no_upstream)

  abbrev pub IsRouteUpstream : ToolRoute → Result Target → Type 0
  IsRouteUpstream route =
      IsUpstream route.key.namespace route.upstream.tool_server_ref route.upstream.external

  pub resolve_route_upstream-Performs :
      (route : ToolRoute)
      → Performs env
          (resolve_route_upstream parse_url env route)
          (λ r ws. (ws ≡ []) × IsRouteUpstream route r)
  unfolding resolve_route_upstream
  resolve_route_upstream-Performs route =
      resolve_upstream-Performs route.key.namespace route.upstream.tool_server_ref
        route.upstream.external
