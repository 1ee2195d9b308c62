-- ===== src/Adapter/InPlace/Runs.antt =====
-- What a reconciliation of a Guard without fault says of the cluster.
use tool_gateway_agentgatewa.Prelude.{String, ◌≡◌, Option, none, some, str_eq, ◌∙◌}
use tool_gateway_agentgatewa.Kube.Errors.{ok}
use tool_gateway_agentgatewa.Kube.Types.{resolve_ref, Guard, GuardrailProvider}
use tool_gateway_agentgatewa.Kube.Objects.{Kind}
use tool_gateway_agentgatewa.Kube.Client.{Env}
use tool_gateway_agentgatewa.Kube.Client.Effect.{
  Store, Ends, Ends-pure, Ends-if, Ends-check, Ends-weaken,
}
use tool_gateway_agentgatewa.Kube.Client.Stored.{
  IsKept, Stored-IsKept, IsKept-IsOfObjects, both-IsKept, Ends-gains, Ends-ask,
}
use tool_gateway_agentgatewa.Adapter.StaticConfig.{Rendering, render_static_config}
use tool_gateway_agentgatewa.Adapter.Ensure.{adapter_key}
use tool_gateway_agentgatewa.Adapter.Reconcile.{
  Fault, fetch_provider, ensure_adapter, reconcile_guard,
}
use tool_gateway_agentgatewa.Adapter.InPlace.{
  HasConfigMap, HasDeployment, HasService, ensure_config_map-HasConfigMap,
  ensure_deployment-HasDeployment, ensure_service-HasService,
}

module _ {env : Env} (store : Store env) (guard : Guard) where
  abbrev HasAdapter : String → String → String → env.World → Type 0
  HasAdapter image body hash w =
      HasConfigMap store guard body w
      × HasDeployment store guard image hash w
      × HasService store guard w

  -- What no call on the three objects of the adapter takes away.
  abbrev pub IsSpared : (env.World → Type 0) → Type 0
  IsSpared F =
      IsKept store Kind.config_map (adapter_key guard) F
      × IsKept store Kind.deployment (adapter_key guard) F
      × IsKept store Kind.service (adapter_key guard) F

  -- What held is kept, and no fault gives more.
  abbrev pub Reaches :
      (env.World → Type 0) → (env.World → Type 0) → Option Fault → env.World → Type 0
  Reaches F S none w = F w × S w
  Reaches F S (some f) w = F w

  module _ (rendering : Rendering) (image : String) where
    -- The ConfigMap holds what the provider of the Guard renders to, as it was read; the Deployment runs
    -- the adapter with the image and carries the hash of that text; and there is its Service.
    pub record IsAdapterInPlace (w : env.World) : Type 0 where
      pub provider : GuardrailProvider
      pub body : String
      pub hash : String
      pub was_read :
          (v : env.World) × ((env.get_guardrail_provider
              (resolve_ref guard.provider_ref guard.key.namespace)
              v).0
            ≡ ok provider)
      pub rendered : render_static_config rendering guard provider ≡ ok (body, hash)
      pub config_map : HasConfigMap store guard body w
      pub deployment : HasDeployment store guard image hash w
      pub service : HasService store guard w

    ensure_adapter-HasAdapter :
        {F : env.World → Type 0} (body hash : String)
        → IsSpared F
        → Ends env F
            (ensure_adapter env rendering image guard (body, hash))
            (Reaches F (HasAdapter image body hash))
    unfolding ensure_adapter
    ensure_adapter-HasAdapter body hash keeps =
        Ends-gains store (ensure_config_map-HasConfigMap store guard body keeps.0)
          (λ e. Ends-pure _ (λ w f. f))
          λ _.
            Ends-gains store
              (ensure_deployment-HasDeployment store guard image hash
                (both-IsKept store keeps.1 (Stored-IsKept store _ _ _ _ _ (λ e. cc))))
              (λ e. Ends-pure _ (λ w f. f.0))
              λ _.
                Ends-gains store
                  (ensure_service-HasService store guard (
                    both-IsKept store
                      (both-IsKept store keeps.2 (Stored-IsKept store _ _ _ _ _ (λ e. cc)))
                      (Stored-IsKept store _ _ _ _ _ (λ e. cc))))
                  (λ e. Ends-pure _ (λ w f. f.0.0))
                  λ _. Ends-pure _ (λ w f. (f.0.0.0, (f.0.0.1, f.0.1, f.1)))

    in_place :
        (F : env.World → Type 0) (p : GuardrailProvider) (body hash : String) (v : env.World)
        → (env.get_guardrail_provider (resolve_ref guard.provider_ref guard.key.namespace) v).0
          ≡ ok p
        → render_static_config rendering guard p ≡ ok (body, hash)
        → (o : Option Fault) (w : env.World) → Reaches F (HasAdapter image body hash) o w
        → Reaches F IsAdapterInPlace o w
    in_place F p body hash v got made none w (f, (c, d, s)) = (
      f,
      record {
        provider = p;
        body = body;
        hash = hash;
        was_read = (v, got);
        rendered = made;
        config_map = c;
        deployment = d;
        service = s;
      },
    )
    in_place F p body hash v got made (some fault) w f = f

    -- Behind a reconciliation of a Guard without fault, where the calls of the client do what is documented,
    -- its ConfigMap, its Deployment and its Service are in the cluster, controlled by the Guard, with what
    -- the provider as it was read renders to. What no call on these three objects takes away is kept, also
    -- where there is a fault.
    pub reconcile_guard-IsAdapterInPlace :
        {F : env.World → Type 0}
        → IsSpared F
        → Ends env F (reconcile_guard env rendering image guard) (Reaches F IsAdapterInPlace)
    unfolding reconcile_guard fetch_provider
    reconcile_guard-IsAdapterInPlace {F} keeps =
        Ends-if (str_eq image "") (λ _. Ends-pure _ (λ w f. f))
          λ _.
            Ends-ask store _ (λ w k' key'. store.gets_no_provider _ w k' key')
              (IsKept-IsOfObjects store _ _ keeps.2)
              λ r v got.
                Ends-check (λ e _. Ends-pure _ (λ w f. f))
                  λ p same.
                    Ends-check (λ e _. Ends-pure _ (λ w f. f))
                      λ (body, hash) made.
                        Ends-weaken (ensure_adapter-HasAdapter body hash keeps)
                          (in_place F p body hash v (got ∙ same) made)
