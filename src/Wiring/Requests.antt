-- ===== src/Wiring/Requests.antt =====
-- Which requests the watches on ToolServers and on GuardrailProviders make.
use mathlib.Core.Path.{subst}
use tool_gateway_agentgatewa.Prelude.{
  ◌≡◌, refl, sym, ◌∙◌, ap, Bool, true, false, ◌⊎◌, inl, inr, ◌↔◌, List, [], ◌∷◌, some, Option-cases,
  str_eq, eq_iff, if◌then◌else◌, Member, here, there, if-holds,
}
use tool_gateway_agentgatewa.Kube.Errors.{Error, ok, err}
use tool_gateway_agentgatewa.Kube.Results.{and-true, true_not_false}
use tool_gateway_agentgatewa.Kube.Types.{
  Key, same_key, resolve_ref, ToolRoute, ToolServer, Guard, GuardrailProvider,
}
use tool_gateway_agentgatewa.Kube.Client.{Env}
use tool_gateway_agentgatewa.Kube.Client.Logic.{
  Performs, Performs-pure, Performs-ask, Performs-check,
}
use tool_gateway_agentgatewa.Route.Watches.{
  ref_uses, uses_tool_server, requests_where, find_tool_routes_for_tool_server,
}
use tool_gateway_agentgatewa.Route.Covered.{same_key_refl, requests_where-Member}
use tool_gateway_agentgatewa.Adapter.Reconcile.{guards_of_provider, find_guards_for_provider}
use tool_gateway_agentgatewa.Wiring.{
  a_tool_server, a_guardrail_provider, map_tool_server_to_tool_routes, map_provider_to_guards,
}

pub same_key-equal : (a b : Key) → same_key a b ≡ true → a ≡ b
same_key-equal a b h =
    let (n, ns) = and-true (str_eq a.name b.name) (str_eq a.namespace b.namespace) h in
    let e = (eq_iff a.namespace b.namespace).0 ns in let f = (eq_iff a.name b.name).0 n in cc

-- Go's `append` under a test.
requested :
    (b : Bool) (x k : Key) (rest : List Key)
    → Member k (if b then x ∷ rest else rest)
    → ((b ≡ true) × (x ≡ k)) ⊎ Member k rest
requested true x k rest here = inl (refl, refl)
requested true x k rest (there m) = inr m
requested false x k rest m = inr m

Member-requests_where :
    (test : ToolRoute → Bool) (routes : List ToolRoute) (k : Key)
    → Member k (requests_where test routes)
    → (r : ToolRoute) × Member r routes × (r.key ≡ k) × (test r ≡ true)
unfolding requests_where
Member-requests_where test [] k m = elim m [ ]
Member-requests_where test (r ∷ routes) k m =
    elim (requested (test r) r.key k (requests_where test routes) m) [
      | inl (t, e) ↦ (r, here, e, t)
      | inr m' ↦
          let (r', in_routes, e, t) = Member-requests_where test routes k m' in
          (r', there in_routes, e, t)
    ]

-- The route takes its upstream from the ToolServer.
abbrev pub Uses : ToolServer → ToolRoute → Type 0
Uses ts r =
    (ref : Key) × (r.upstream.tool_server_ref ≡ some ref)
    × (resolve_ref ref r.key.namespace ≡ ts.key)

uses_tool_server-Uses :
    (ts : ToolServer) (r : ToolRoute) → uses_tool_server ts.key r ≡ true → Uses ts r
unfolding uses_tool_server
uses_tool_server-Uses ts r h = elim (Option-cases r.upstream.tool_server_ref) [
  | inl e ↦ elim (true_not_false (sym h ∙ ap (ref_uses ts.key r.key.namespace) e)) [ ]
  | inr (ref, e) ↦ (ref, e, same_key-equal _ _ (sym (ap (ref_uses ts.key r.key.namespace) e) ∙ h))
]

Uses-uses_tool_server :
    (ts : ToolServer) (r : ToolRoute) → Uses ts r → uses_tool_server ts.key r ≡ true
unfolding uses_tool_server
Uses-uses_tool_server ts r (ref, e, same) =
    ap (ref_uses ts.key r.key.namespace) e ∙ ap (λ k. same_key k ts.key) same ∙ same_key_refl ts.key

module _ (env : Env) where
  -- The requests are those of the listed routes that use the ToolServer; without a listing there are none.
  pub data IsRouteRequests (ts : ToolServer) (keys : List Key) : Type 0 where
    listed :
        (v : env.World) (routes : List ToolRoute)
        → (env.list_tool_routes v).0 ≡ ok routes
        → ((k : Key)
            → Member k keys ↔ ((r : ToolRoute) × Member r routes × (r.key ≡ k) × Uses ts r))
        → IsRouteRequests ts keys
    unlisted :
        (v : env.World) (e : Error)
        → (env.list_tool_routes v).0 ≡ err e
        → keys ≡ []
        → IsRouteRequests ts keys

  exactly :
      (ts : ToolServer) (routes : List ToolRoute) (k : Key)
      → Member k (requests_where (uses_tool_server ts.key) routes)
        ↔ ((r : ToolRoute) × Member r routes × (r.key ≡ k) × Uses ts r)
  exactly ts routes k = (
    λ m.
        let (r, in_routes, e, t) = Member-requests_where (uses_tool_server ts.key) routes k m in
        (r, in_routes, e, uses_tool_server-Uses ts r t),
    λ (r, in_routes, e, uses).
        subst (λ k. Member k (requests_where (uses_tool_server ts.key) routes)) e
          (requests_where-Member (uses_tool_server ts.key) r in_routes
            (Uses-uses_tool_server ts r uses)),
  )

  -- A change of a ToolServer sends back exactly the listed routes that take their upstream from it, and
  -- none where the listing fails; and the watch writes nothing.
  pub map_tool_server-IsRouteRequests :
      (ts : ToolServer)
      → Performs env
          (map_tool_server_to_tool_routes env (a_tool_server ts))
          (λ keys ws. (ws ≡ []) × IsRouteRequests ts keys)
  unfolding map_tool_server_to_tool_routes find_tool_routes_for_tool_server
  map_tool_server-IsRouteRequests ts = Performs-ask _ λ r v got.
      Performs-check (λ e same. Performs-pure _ (refl, unlisted v e (got ∙ same) refl))
        λ routes same. Performs-pure _ (refl, listed v routes (got ∙ same) (exactly ts routes))

-- The Guard is served by the GuardrailProvider.
abbrev pub IsOfProvider : GuardrailProvider → Guard → Type 0
IsOfProvider p g = resolve_ref g.provider_ref g.key.namespace ≡ p.key

Member-guards_of_provider :
    (p : Key) (gs : List Guard) (k : Key)
    → Member k (guards_of_provider p gs)
    → (g : Guard) × Member g gs × (g.key ≡ k) × (resolve_ref g.provider_ref g.key.namespace ≡ p)
unfolding guards_of_provider
Member-guards_of_provider p [] k m = elim m [ ]
Member-guards_of_provider p (g ∷ gs) k m =
    let found = resolve_ref g.provider_ref g.key.namespace in
    elim (requested (same_key found p) g.key k (guards_of_provider p gs) m) [
      | inl (t, e) ↦ (g, here, e, same_key-equal found p t)
      | inr m' ↦
          let (g', in_gs, e, same) = Member-guards_of_provider p gs k m' in
          (g', there in_gs, e, same)
    ]

guards_of_provider-Member :
    (p : Key) (g : Guard) {gs : List Guard}
    → Member g gs
    → resolve_ref g.provider_ref g.key.namespace ≡ p
    → Member g.key (guards_of_provider p gs)
unfolding guards_of_provider
guards_of_provider-Member p g here same =
    let found = resolve_ref g.provider_ref g.key.namespace in
    let t = ap (λ k. same_key k p) same ∙ same_key_refl p in
    if-holds (Member g.key) (same_key found p) (λ _. here)
      (λ n. elim (true_not_false (sym t ∙ n)) [ ])
guards_of_provider-Member p g (there {y} m) same =
    if-holds (Member g.key) (same_key (resolve_ref y.provider_ref y.key.namespace) p)
      (λ _. there (guards_of_provider-Member p g m same))
      (λ _. guards_of_provider-Member p g m same)

module _ (env : Env) where
  -- The requests are those of the listed Guards of the provider; without a listing there are none.
  pub data IsGuardRequests (p : GuardrailProvider) (keys : List Key) : Type 0 where
    guards_listed :
        (v : env.World) (gs : List Guard)
        → (env.list_guards v).0 ≡ ok gs
        → ((k : Key) → Member k keys ↔ ((g : Guard) × Member g gs × (g.key ≡ k) × IsOfProvider p g))
        → IsGuardRequests p keys
    guards_unlisted :
        (v : env.World) (e : Error)
        → (env.list_guards v).0 ≡ err e
        → keys ≡ []
        → IsGuardRequests p keys

  -- A change of a GuardrailProvider sends back exactly the listed Guards that refer to it, and none where
  -- the listing fails; and the watch writes nothing.
  pub map_provider-IsGuardRequests :
      (p : GuardrailProvider)
      → Performs env
          (map_provider_to_guards env (a_guardrail_provider p))
          (λ keys ws. (ws ≡ []) × IsGuardRequests p keys)
  unfolding map_provider_to_guards find_guards_for_provider
  map_provider-IsGuardRequests p = Performs-ask _ λ r v got.
      Performs-check (λ e same. Performs-pure _ (refl, guards_unlisted v e (got ∙ same) refl))
        λ gs same. Performs-pure _ (
          refl,
          guards_listed v gs (got ∙ same) λ k. (
            λ m. Member-guards_of_provider p.key gs k m,
            λ (g, in_gs, e, same).
                subst (λ k. Member k (guards_of_provider p.key gs)) e
                  (guards_of_provider-Member p.key g in_gs same),
          ),
        )
