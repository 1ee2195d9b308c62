-- ===== src/Adapter/InPlace.antt =====
-- What is in the cluster behind a run for a Guard: the objects of its adapter.
pub mod Runs
use mathlib.Core.Path.{subst}
use tool_gateway_agentgatewa.Prelude.{
  String, ◌≡◌, refl, List, [], ◌∷◌, Option, none, some, str_eq, eq_refl, Bool-cases, inl, inr, ◌∙◌,
}
use tool_gateway_agentgatewa.Kube.Errors.{ok}
use tool_gateway_agentgatewa.Kube.Results.{bind-ok, ok-injective}
use tool_gateway_agentgatewa.Kube.Types.{resolve_ref, Guard, GuardrailProvider}
use tool_gateway_agentgatewa.Kube.Objects.{Kind, OwnerKind, Owner, Object, DeploymentSpec}
use tool_gateway_agentgatewa.Kube.Client.{Env}
use tool_gateway_agentgatewa.Kube.Client.Effect.{
  Store, Ends, Ends-pure, Ends-if, Ends-check, Ends-weaken,
}
use tool_gateway_agentgatewa.Kube.Client.Stored.{
  Stored, IsKept, Stored-IsKept, IsKept-IsOfObjects, both-IsKept, Gains, IsControlled, Ends-upsert,
  Ends-gains, Ends-ask,
}
use tool_gateway_agentgatewa.Ownership.{annotation}
use tool_gateway_agentgatewa.Adapter.StaticConfig.{
  Rendering, static_config_key, render_static_config,
}
use tool_gateway_agentgatewa.Adapter.Ensure.{
  adapter_key, set_entry, config_hash_annotation, deployment_spec, service_spec, mutate_config_map,
  mutate_deployment, mutate_service, ensure_config_map, ensure_deployment, ensure_service,
}
use tool_gateway_agentgatewa.Adapter.Reconcile.{
  Fault, fetch_provider, ensure_adapter, reconcile_guard,
}

pub annotation-set_entry :
    (k v : String) (m : List (String × String)) → annotation k (set_entry k v m) ≡ v
unfolding annotation set_entry
annotation-set_entry k v [] = rw (eq_refl k)
annotation-set_entry k v ((j, w) ∷ m) = elim (Bool-cases (str_eq j k)) [
  | inl e ↦ rw (e, e)
  | inr e ↦ rw (e, e, annotation-set_entry k v m)
]

module _ {env : Env} (store : Store env) (guard : Guard) where
  -- The object is controlled by the Guard.
  abbrev OfGuard : Option Owner → Type 0
  OfGuard = IsControlled env (OwnerKind.guard, guard.key)

  abbrev HoldsBody : String → Object Kind.config_map → Type 0
  HoldsBody body o = OfGuard o.owner × (annotation static_config_key o.content ≡ body)

  -- The spec is that of the adapter, up to other annotations, and the hash is among the annotations.
  abbrev RunsAdapter : String → String → Object Kind.deployment → Type 0
  RunsAdapter image hash o =
      OfGuard o.owner
      × ((before : DeploymentSpec) × (o.content ≡ deployment_spec image guard hash before))
      × (annotation config_hash_annotation o.content.template_annotations ≡ hash)

  abbrev ServesAdapter : Object Kind.service → Type 0
  ServesAdapter o = OfGuard o.owner × (o.content ≡ service_spec guard)

  config_map-HoldsBody :
      (body : String) (o o' : Object Kind.config_map)
      → mutate_config_map env guard body o ≡ ok o'
      → HoldsBody body o'
  unfolding mutate_config_map
  config_map-HoldsBody body o o' h =
      let (owner, set, e) =
        bind-ok (env.set_controller_reference (OwnerKind.guard, guard.key) o.owner) h in
      subst (HoldsBody body) (ok-injective e)
        ((o.owner, set), annotation-set_entry static_config_key body o.content)

  deployment-RunsAdapter :
      (image hash : String) (o o' : Object Kind.deployment)
      → mutate_deployment env image guard hash o ≡ ok o'
      → RunsAdapter image hash o'
  unfolding mutate_deployment deployment_spec
  deployment-RunsAdapter image hash o o' h =
      let (owner, set, e) =
        bind-ok (env.set_controller_reference (OwnerKind.guard, guard.key) o.owner) h in
      subst (RunsAdapter image hash) (ok-injective e) (
        (o.owner, set),
        (o.content, refl),
        annotation-set_entry config_hash_annotation hash o.content.template_annotations,
      )

  service-ServesAdapter :
      (o o' : Object Kind.service) → mutate_service env guard o ≡ ok o' → ServesAdapter o'
  unfolding mutate_service
  service-ServesAdapter o o' h =
      let (owner, set, e) =
        bind-ok (env.set_controller_reference (OwnerKind.guard, guard.key) o.owner) h in
      subst ServesAdapter (ok-injective e) ((o.owner, set), refl)

  abbrev pub HasConfigMap : String → env.World → Type 0
  HasConfigMap body = Stored store Kind.config_map (adapter_key guard) (HoldsBody body)

  abbrev pub HasDeployment : String → String → env.World → Type 0
  HasDeployment image hash =
      Stored store Kind.deployment (adapter_key guard) (RunsAdapter image hash)

  abbrev pub HasService : env.World → Type 0
  HasService = Stored store Kind.service (adapter_key guard) ServesAdapter

  pub ensure_config_map-HasConfigMap :
      {F : env.World → Type 0} (body : String)
      → IsKept store Kind.config_map (adapter_key guard) F
      → Ends env F (ensure_config_map env guard body) (Gains store F (λ _. HasConfigMap body))
  unfolding ensure_config_map
  ensure_config_map-HasConfigMap body keeps =
      Ends-gains store
        (Ends-upsert store _ _ _ _ (HoldsBody body) keeps (config_map-HoldsBody body))
        (λ e. Ends-pure _ (λ w f. f)) (λ a. Ends-pure _ (λ w f. f))

  pub ensure_deployment-HasDeployment :
      {F : env.World → Type 0} (image hash : String)
      → IsKept store Kind.deployment (adapter_key guard) F
      → Ends env F
          (ensure_deployment env image guard hash)
          (Gains store F (λ _. HasDeployment image hash))
  unfolding ensure_deployment
  ensure_deployment-HasDeployment image hash keeps =
      Ends-gains store
        (Ends-upsert store _ _ _ _ (RunsAdapter image hash) keeps
          (deployment-RunsAdapter image hash))
        (λ e. Ends-pure _ (λ w f. f)) (λ a. Ends-pure _ (λ w f. f))

  pub ensure_service-HasService :
      {F : env.World → Type 0}
      → IsKept store Kind.service (adapter_key guard) F
      → Ends env F (ensure_service env guard) (Gains store F (λ _. HasService))
  unfolding ensure_service
  ensure_service-HasService keeps =
      Ends-gains store (Ends-upsert store _ _ _ _ ServesAdapter keeps service-ServesAdapter)
        (λ e. Ends-pure _ (λ w f. f)) (λ a. Ends-pure _ (λ w f. f))
