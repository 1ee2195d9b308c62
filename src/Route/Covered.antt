-- ===== src/Route/Covered.antt =====
-- The watch on ToolGateways covers the resolution of a route's gateway.
use tool_gateway_agentgatewa.Prelude.{
  ◌≡◌, refl, sym, ◌∙◌, ap, Bool, true, List, [], ◌∷◌, All, eq_iff, eq_refl, Member, here, there,
  if-holds,
}
use mathlib.Core.Path.{subst}
use tool_gateway_agentgatewa.Kube.Errors.{Result, ok}
use tool_gateway_agentgatewa.Kube.Results.{ok-injective, true_not_false}
use tool_gateway_agentgatewa.Kube.Types.{Key, same_key, resolve_ref, ToolGateway, ToolRoute}
use tool_gateway_agentgatewa.Kube.Client.{Env}
use tool_gateway_agentgatewa.Ownership.{default_tool_gateway_namespace, first_tool_gateway}
use tool_gateway_agentgatewa.Ownership.Answers.{IsResolution, explicit, by_default, unlisted}
use tool_gateway_agentgatewa.Route.Watches.{ref_targets, targets_gateway, requests_where}

pub same_key_refl : (k : Key) → same_key k k ≡ true
same_key_refl k = rw (eq_refl k.name, eq_refl k.namespace)

-- The API server lists only what is in the namespace.
abbrev pub IsListing : List ToolGateway → Type 0
IsListing tgs = All (λ tg. tg.key.namespace ≡ default_tool_gateway_namespace) tgs

first-namespace :
    (tgs : List ToolGateway) (key : Key)
    → IsListing tgs
    → first_tool_gateway tgs ≡ ok key
    → key.namespace ≡ default_tool_gateway_namespace
unfolding first_tool_gateway
first-namespace [] key h e = cc
first-namespace (tg ∷ tgs) key h e =
    subst (λ k. k.namespace ≡ default_tool_gateway_namespace) (ok-injective e) h.0

targets :
    (env : Env) (route : ToolRoute) (key : Key) {r : Result Key}
    → ((w : env.World) (tgs : List ToolGateway)
        → (env.list_tool_gateways_in default_tool_gateway_namespace w).0 ≡ ok tgs
        → IsListing tgs)
    → IsResolution env route r
    → r ≡ ok key
    → targets_gateway key route ≡ true
unfolding targets_gateway
targets env route key h (explicit ref e) same =
    ap (λ o. ref_targets key route.key.namespace o) e
    ∙ ap (same_key (resolve_ref ref route.key.namespace)) (sym (ok-injective same))
    ∙ same_key_refl (resolve_ref ref route.key.namespace)
targets env route key h (by_default w tgs e l) same =
    ap (λ o. ref_targets key route.key.namespace o) e
    ∙ (eq_iff key.namespace default_tool_gateway_namespace).1
        (first-namespace tgs key (h w tgs l) same)
targets env route key h (unlisted w e n l) same = cc

pub requests_where-Member :
    (test : ToolRoute → Bool) (route : ToolRoute) {routes : List ToolRoute}
    → Member route routes
    → test route ≡ true
    → Member route.key (requests_where test routes)
unfolding requests_where
requests_where-Member test route here h =
    if-holds (Member route.key) (test route) (λ _. here)
      (λ n. elim (true_not_false (sym h ∙ n)) [ ])
requests_where-Member test route (there {y} m) h =
    if-holds (Member route.key) (test y) (λ _. there (requests_where-Member test route m h))
      (λ _. requests_where-Member test route m h)

-- Where a listing of the default namespace holds only gateways of that namespace, a change of the
-- gateway that a listed route resolves to, with a reference or without, sends that route back to the
-- reconciler.
pub targets_gateway-covers :
    (env : Env) (route : ToolRoute) (routes : List ToolRoute) (key : Key)
    → ((w : env.World) (tgs : List ToolGateway)
        → (env.list_tool_gateways_in default_tool_gateway_namespace w).0 ≡ ok tgs
        → IsListing tgs)
    → IsResolution env route (ok key)
    → Member route routes
    → Member route.key (requests_where (targets_gateway key) routes)
targets_gateway-covers env route routes key h res m =
    requests_where-Member (targets_gateway key) route m (targets env route key h res refl)
