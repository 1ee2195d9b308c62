-- ===== src/Route/InPlace.antt =====
-- What is in the cluster behind a run for a ToolRoute: its backend, its HTTPRoute and its policy.
pub mod Runs
use mathlib.Core.Path.{subst}
use tool_gateway_agentgatewa.Prelude.{
  String, ◌≡◌, refl, not, ◌∙◌, List, [], ◌∷◌, Option, none, some, Bool-cases, inl, inr,
}
use tool_gateway_agentgatewa.Prelude.Text.{Text}
use tool_gateway_agentgatewa.Authz.Rules.{build_mcp_authorization_rules}
use tool_gateway_agentgatewa.Kube.Errors.{Error, is_not_found, Result, ok, err}
use tool_gateway_agentgatewa.Kube.Results.{bind-ok, ok-injective}
use tool_gateway_agentgatewa.Kube.Types.{
  Key, resolve_ref, Status, ToolGateway, ToolServer, ToolRoute,
}
use tool_gateway_agentgatewa.Kube.Json.{Json, slice}
use tool_gateway_agentgatewa.Kube.Objects.{Kind, OwnerKind, Owner, Object, Operation}
use tool_gateway_agentgatewa.Kube.Client.{Env, Act, query, ◌>>=◌}
use tool_gateway_agentgatewa.Kube.Client.Effect.{
  Store, Ends, Ends-pure, Ends-if, Ends-bind, Ends-check, Ends-weaken, Ends-operation, Ends-event,
}
use tool_gateway_agentgatewa.Kube.Client.Stored.{
  Stored, IsOfObjects, IsKept, Stored-IsKept, absent-IsKept, both-IsKept, IsKept-IsOfObjects,
  Stored-IsOfObjects, absent-IsOfObjects, both-IsOfObjects, Gains, IsControlled, Ends-upsert,
  Ends-remove, Ends-removed, Ends-gains, Ends-ask, Ends-patch,
}
use tool_gateway_agentgatewa.Resources.{build_mcp_target, set_mcp_targets, build_http_route_spec}
use tool_gateway_agentgatewa.Route.Upstream.{
  Url, Target, tool_server_target, external_target, tool_server_upstream, resolve_upstream,
  resolve_route_upstream,
}
use tool_gateway_agentgatewa.Route.Ensure.{
  child_key, tool_filter_policy_key, policy_target_ref, authorization, mutate_backend,
  ensure_backend, mutate_http_route, ensure_http_route, mutate_policy, delete_policy, apply_policy,
  ensure_policy_for, ensure_policy,
}
use tool_gateway_agentgatewa.Route.Reconcile.{
  route_path_of, found_true, reconcile_tool_route, patch_tool_route_status, ready_status,
  not_ready_status, update_status_ready, update_status_not_ready, mirror, reconcile_owned,
}

module _ {env : Env} (store : Store env) (parse_url : String → Result Url) (route : ToolRoute) where
  -- The object is controlled by the ToolRoute.
  abbrev OfRoute : Option Owner → Type 0
  OfRoute = IsControlled env (OwnerKind.tool_route, route.key)

  -- The target is that of the ToolServer, as it was read, or else that of the external URL.
  pub data IsTargetOf (t : Target) : Option Key → Option String → Type 0 where
    of_server :
        (ref : Key) (external : Option String) (v : env.World) (server : ToolServer)
        → (env.get_tool_server (resolve_ref ref route.key.namespace) v).0 ≡ ok server
        → t ≡ tool_server_target server
        → IsTargetOf t (some ref) external
    of_external :
        (url : String) → external_target parse_url url ≡ ok t → IsTargetOf t none (some url)

  -- What a route asks for.
  abbrev pub IsTarget : Target → Type 0
  IsTarget t = IsTargetOf t route.upstream.tool_server_ref route.upstream.external

  server_upstream-IsTargetOf :
      {F : env.World → Type 0} (ref : Key) (external : Option String)
      → IsOfObjects store F
      → Ends env F
          (tool_server_upstream parse_url env (resolve_ref ref route.key.namespace))
          (Gains store F (λ t w. IsTargetOf t (some ref) external))
  unfolding tool_server_upstream
  server_upstream-IsTargetOf ref external keeps =
      Ends-ask store _ (λ w k' key'. store.gets_no_server _ w k' key') keeps
        λ r v got.
          Ends-check (λ e _. Ends-pure _ (λ w f. f))
            λ ts same. Ends-pure _ (λ w f. (f, of_server ref external v ts (got ∙ same) refl))

  upstream-IsTargetOf :
      {F : env.World → Type 0} (ref : Option Key) (external : Option String)
      → IsOfObjects store F
      → Ends env F
          (resolve_upstream parse_url env route.key.namespace ref external)
          (Gains store F (λ t w. IsTargetOf t ref external))
  unfolding resolve_upstream
  upstream-IsTargetOf (some ref) external keeps = server_upstream-IsTargetOf ref external keeps
  upstream-IsTargetOf {F} none (some url) keeps =
      Ends-pure _ λ w f. found (external_target parse_url url) refl w f
    where
      found :
          (r : Result Target)
          → external_target parse_url url ≡ r
          → (w : env.World) → F w
          → Gains store F (λ t w. IsTargetOf t none (some url)) r w
      found (ok t) e w f = (f, of_external url e)
      found (err x) e w f = f
  upstream-IsTargetOf none none keeps = Ends-pure _ (λ w f. f)

  -- The backend has the target at its place in the spec.
  abbrev Reaches : Target → Object Kind.backend → Type 0
  Reaches t o =
      OfRoute o.owner
      × (before : Json) × (set_mcp_targets env before
            (build_mcp_target "mcp-target" t.host t.port t.path ∷ [])
          ≡ ok o.content)

  backend-Reaches :
      (t : Target) (o o' : Object Kind.backend)
      → mutate_backend env route t o ≡ ok o'
      → Reaches t o'
  unfolding mutate_backend
  backend-Reaches t o o' h =
      let (owner, set, e) =
        bind-ok (env.set_controller_reference (OwnerKind.tool_route, route.key) o.owner) h in
      let (content, made, e') = bind-ok (set_mcp_targets env o.content _) e in
      subst (Reaches t) (ok-injective e') ((o.owner, set), o.content, made)

  module _ (tg : ToolGateway) where
    abbrev Routes : Object Kind.http_route → Type 0
    Routes o =
        OfRoute o.owner
        × (o.content
            ≡ some (build_http_route_spec tg.key (child_key tg route) (route_path_of route)))

    -- The policy has the HTTPRoute as its target and the rules as its authorization.
    abbrev Authorizes : List Text → Object Kind.policy → Type 0
    Authorizes rules o =
        OfRoute o.owner
        × (before targeted : Json) × (env.set_nested before
              (slice (policy_target_ref tg route ∷ [])) ("spec" ∷ "targetRefs" ∷ [])
            ≡ ok targeted)
        × (env.set_nested targeted (authorization rules)
              ("spec" ∷ "backend" ∷ "mcp" ∷ "authorization" ∷ [])
            ≡ ok o.content)

    http_route-Routes :
        (o o' : Object Kind.http_route)
        → mutate_http_route env route tg (route_path_of route) o ≡ ok o'
        → Routes o'
    unfolding mutate_http_route
    http_route-Routes o o' h =
        let (owner, set, e) =
          bind-ok (env.set_controller_reference (OwnerKind.tool_route, route.key) o.owner) h in
        subst Routes (ok-injective e) ((o.owner, set), refl)

    policy-Authorizes :
        (rules : List Text) (o o' : Object Kind.policy)
        → mutate_policy env route tg rules o ≡ ok o'
        → Authorizes rules o'
    unfolding mutate_policy
    policy-Authorizes rules o o' h =
        let (owner, set, e) =
          bind-ok (env.set_controller_reference (OwnerKind.tool_route, route.key) o.owner) h in
        let (mid, targeted, e') =
          bind-ok
            (env.set_nested o.content (slice (policy_target_ref tg route ∷ []))
              ("spec" ∷ "targetRefs" ∷ []))
            e in
        let (content, made, e'') =
          bind-ok
            (env.set_nested mid (authorization rules)
              ("spec" ∷ "backend" ∷ "mcp" ∷ "authorization" ∷ []))
            e' in
        subst (Authorizes rules) (ok-injective e'') ((o.owner, set), o.content, mid, targeted, made)

    abbrev pub HasBackend : Target → env.World → Type 0
    HasBackend t = Stored store Kind.backend (child_key tg route) (Reaches t)

    abbrev pub HasHttpRoute : env.World → Type 0
    HasHttpRoute = Stored store Kind.http_route (child_key tg route) Routes

    -- Without rules there is no policy.
    abbrev pub HasPolicy : List Text → env.World → Type 0
    HasPolicy [] w = store.look Kind.policy (tool_filter_policy_key tg route) w ≡ none
    HasPolicy (r ∷ rs) w =
        Stored store Kind.policy (tool_filter_policy_key tg route) (Authorizes (r ∷ rs)) w

    pub HasPolicy-IsOfObjects : (rules : List Text) → IsOfObjects store (HasPolicy rules)
    HasPolicy-IsOfObjects [] = absent-IsOfObjects store _ _
    HasPolicy-IsOfObjects (r ∷ rs) = Stored-IsOfObjects store _ _ _

    pub ensure_backend-HasBackend :
        {F : env.World → Type 0} (t : Target)
        → IsKept store Kind.backend (child_key tg route) F
        → Ends env F (ensure_backend env route tg t) (Gains store F (λ _. HasBackend t))
    unfolding ensure_backend
    ensure_backend-HasBackend t keeps =
        Ends-gains store (Ends-upsert store _ _ _ _ (Reaches t) keeps (backend-Reaches t))
          (λ e. Ends-pure _ (λ w f. f))
          λ op. Ends-bind (Ends-operation _ _ _ _ op) (λ _. Ends-pure _ (λ w f. f))

    pub ensure_http_route-HasHttpRoute :
        {F : env.World → Type 0}
        → IsKept store Kind.http_route (child_key tg route) F
        → Ends env F
            (ensure_http_route env route tg (route_path_of route))
            (Gains store F (λ _. HasHttpRoute))
    unfolding ensure_http_route
    ensure_http_route-HasHttpRoute keeps =
        Ends-gains store (Ends-upsert store _ _ _ _ Routes keeps http_route-Routes)
          (λ e. Ends-pure _ (λ w f. f))
          λ op. Ends-bind (Ends-operation _ _ _ _ op) (λ _. Ends-pure _ (λ w f. f))

    delete_policy-HasPolicy :
        {F : env.World → Type 0}
        → IsKept store Kind.policy (tool_filter_policy_key tg route) F
        → Ends env F (delete_policy env route tg) (Gains store F (λ _. HasPolicy []))
    unfolding delete_policy
    delete_policy-HasPolicy keeps =
        Ends-removed store (Ends-remove store _ _ keeps)
          (λ e.
            Ends-if (is_not_found e) (λ gone. Ends-pure _ (λ w f. (f.0, f.1 gone)))
              (λ _. Ends-pure _ (λ w f. f.0)))
          λ _. Ends-bind (Ends-event _ _ _ _) (λ _. Ends-pure _ (λ w f. f))

    apply_policy-HasPolicy :
        {F : env.World → Type 0} (r : Text) (rs : List Text)
        → IsKept store Kind.policy (tool_filter_policy_key tg route) F
        → Ends env F (apply_policy env route tg (r ∷ rs)) (Gains store F (λ _. HasPolicy (r ∷ rs)))
    unfolding apply_policy
    apply_policy-HasPolicy r rs keeps =
        Ends-gains store
          (Ends-upsert store _ _ _ _ (Authorizes (r ∷ rs)) keeps (policy-Authorizes (r ∷ rs)))
          (λ e. Ends-pure _ (λ w f. f))
          λ op. Ends-bind (Ends-operation _ _ _ _ op) (λ _. Ends-pure _ (λ w f. f))

    pub ensure_policy_for-HasPolicy :
        {F : env.World → Type 0} (rules : List Text)
        → IsKept store Kind.policy (tool_filter_policy_key tg route) F
        → Ends env F (ensure_policy_for env route tg rules) (Gains store F (λ _. HasPolicy rules))
    unfolding ensure_policy_for
    ensure_policy_for-HasPolicy [] keeps = delete_policy-HasPolicy keeps
    ensure_policy_for-HasPolicy (r ∷ rs) keeps = apply_policy-HasPolicy r rs keeps
