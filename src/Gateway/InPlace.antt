-- ===== src/Gateway/InPlace.antt =====
-- What is in the cluster behind a run for a ToolGateway: its parameters, its Gateway and its policy.
pub mod Runs
use mathlib.Core.Path.{subst}
use tool_gateway_agentgatewa.Prelude.{String, ◌≡◌, refl, ◌∙◌, List, [], ◌∷◌, Option, none, some}
use tool_gateway_agentgatewa.Kube.Errors.{is_not_found, Result, ok, err}
use tool_gateway_agentgatewa.Kube.Results.{bind-ok, ok-injective}
use tool_gateway_agentgatewa.Kube.Types.{Key, resolve_ref, ToolGateway, Guard}
use tool_gateway_agentgatewa.Kube.Json.{Json}
use tool_gateway_agentgatewa.Kube.Objects.{Kind, OwnerKind, Owner, Object}
use tool_gateway_agentgatewa.Kube.Client.{Env}
use tool_gateway_agentgatewa.Kube.Client.Effect.{
  Store, Ends, Ends-pure, Ends-if, Ends-bind, Ends-check, Ends-weaken, Ends-operation,
}
use tool_gateway_agentgatewa.Kube.Client.Stored.{
  Stored, IsOfObjects, IsKept, Stored-IsOfObjects, absent-IsOfObjects, IsKept-IsOfObjects, Gains,
  IsControlled, Ends-upsert, Ends-remove, Ends-removed, Ends-gains, Ends-ask,
}
use tool_gateway_agentgatewa.Otel.Headers.{HeaderMap}
use tool_gateway_agentgatewa.Resources.{set_agentgateway_parameters_spec}
use tool_gateway_agentgatewa.Gateway.Guardrails.{
  build_guardrail_policy_spec, guardrail_policy_key, guard_readiness, mutate_guardrail_policy,
  Outcome, delete_guardrail_policy, apply_guardrail_policy, ensure_one_guard, ensure_guardrails_for,
  ensure_guardrails,
}
use tool_gateway_agentgatewa.Gateway.Reconcile.{
  gateway_spec, mutate_gateway, mutate_parameters, ensure_agentgateway_parameters, ensure_gateway,
}

module _ {env : Env} (store : Store env) (unmarshal : String → Option HeaderMap)
    (tg : ToolGateway) where
  -- The object is controlled by the ToolGateway.
  abbrev OfGateway : Option Owner → Type 0
  OfGateway = IsControlled env (OwnerKind.tool_gateway, tg.key)

  abbrev IsListening : Object Kind.gateway → Type 0
  IsListening o = OfGateway o.owner × (o.content ≡ some (gateway_spec tg))

  abbrev IsParameterized : Object Kind.parameters → Type 0
  IsParameterized o =
      OfGateway o.owner
      × (before : Json) × (set_agentgateway_parameters_spec env unmarshal before tg ≡ ok o.content)

  abbrev Guards : Key → Object Kind.policy → Type 0
  Guards ref o =
      OfGateway o.owner
      × (before : Json) × (env.set_nested before (build_guardrail_policy_spec tg.key.name ref)
            ("spec" ∷ [])
          ≡ ok o.content)

  gateway-IsListening :
      (o o' : Object Kind.gateway) → mutate_gateway env unmarshal tg o ≡ ok o' → IsListening o'
  unfolding mutate_gateway
  gateway-IsListening o o' h =
      let (owner, set, e) =
        bind-ok (env.set_controller_reference (OwnerKind.tool_gateway, tg.key) o.owner) h in
      subst IsListening (ok-injective e) ((o.owner, set), refl)

  parameters-IsParameterized :
      (o o' : Object Kind.parameters)
      → mutate_parameters env unmarshal tg o ≡ ok o'
      → IsParameterized o'
  unfolding mutate_parameters
  parameters-IsParameterized o o' h =
      let (owner, set, e) =
        bind-ok (env.set_controller_reference (OwnerKind.tool_gateway, tg.key) o.owner) h in
      let (content, made, e') =
        bind-ok (set_agentgateway_parameters_spec env unmarshal o.content tg) e in
      subst IsParameterized (ok-injective e') ((o.owner, set), o.content, made)

  policy-Guards :
      (ref : Key) (o o' : Object Kind.policy)
      → mutate_guardrail_policy env tg ref o ≡ ok o'
      → Guards ref o'
  unfolding mutate_guardrail_policy
  policy-Guards ref o o' h =
      let (owner, set, e) =
        bind-ok (env.set_controller_reference (OwnerKind.tool_gateway, tg.key) o.owner) h in
      let (content, made, e') =
        bind-ok
          (env.set_nested o.content (build_guardrail_policy_spec tg.key.name ref) ("spec" ∷ []))
          e in
      subst (Guards ref) (ok-injective e') ((o.owner, set), o.content, made)

  abbrev pub HasGateway : env.World → Type 0
  HasGateway = Stored store Kind.gateway tg.key IsListening

  abbrev pub HasParameters : env.World → Type 0
  HasParameters = Stored store Kind.parameters tg.key IsParameterized

  abbrev pub HasGuardPolicy : Key → env.World → Type 0
  HasGuardPolicy ref = Stored store Kind.policy (guardrail_policy_key tg) (Guards ref)

  -- The Guard was read, and was ready.
  abbrev pub WasReady : Key → Type 0
  WasReady ref =
      (v : env.World) × (guard : Guard) × ((env.get_guard ref v).0 ≡ ok guard)
      × (guard_readiness ref (env.find_status_condition guard.conditions "Ready") ≡ ok tt)

  -- No policy without a guard, the policy of the one guard, and never more than one.
  abbrev pub HasGuardrails : List Key → env.World → Type 0
  HasGuardrails [] w = store.look Kind.policy (guardrail_policy_key tg) w ≡ none
  HasGuardrails (ref ∷ []) w =
      WasReady (resolve_ref ref tg.key.namespace)
      × HasGuardPolicy (resolve_ref ref tg.key.namespace) w
  HasGuardrails (_ ∷ _ ∷ _) w = ⊥

  pub HasGuardrails-IsOfObjects : (refs : List Key) → IsOfObjects store (HasGuardrails refs)
  HasGuardrails-IsOfObjects [] w w' same gone = absent-IsOfObjects store _ _ w w' same gone
  HasGuardrails-IsOfObjects (ref ∷ []) w w' same (ready, there) =
      (ready, Stored-IsOfObjects store _ _ _ w w' same there)
  HasGuardrails-IsOfObjects (_ ∷ _ ∷ _) w w' same never = never

  pub ensure_parameters-HasParameters :
      {F : env.World → Type 0}
      → IsKept store Kind.parameters tg.key F
      → Ends env F
          (ensure_agentgateway_parameters env unmarshal tg)
          (Gains store F (λ _. HasParameters))
  unfolding ensure_agentgateway_parameters
  ensure_parameters-HasParameters keeps =
      Ends-gains store (Ends-upsert store _ _ _ _ IsParameterized keeps parameters-IsParameterized)
        (λ e. Ends-pure _ (λ w f. f))
        λ op. Ends-bind (Ends-operation _ _ _ _ op) (λ _. Ends-pure _ (λ w f. f))

  pub ensure_gateway-HasGateway :
      {F : env.World → Type 0}
      → IsKept store Kind.gateway tg.key F
      → Ends env F (ensure_gateway env unmarshal tg) (Gains store F (λ _. HasGateway))
  unfolding ensure_gateway
  ensure_gateway-HasGateway keeps =
      Ends-gains store (Ends-upsert store _ _ _ _ IsListening keeps gateway-IsListening)
        (λ e. Ends-pure _ (λ w f. f))
        λ op. Ends-bind (Ends-operation _ _ _ _ op) (λ _. Ends-pure _ (λ w f. f))

  -- The same, beside the object in memory.
  abbrev GainsBeside :
      (env.World → Type 0) → (env.World → Type 0) → Outcome env → env.World → Type 0
  GainsBeside F S (r, next) w = Gains store F (λ _. S) r w

  delete_policy-HasGuardrails :
      {F : env.World → Type 0}
      → IsKept store Kind.policy (guardrail_policy_key tg) F
      → Ends env F (delete_guardrail_policy env tg) (GainsBeside F (HasGuardrails []))
  unfolding delete_guardrail_policy
  delete_policy-HasGuardrails keeps =
      Ends-removed store (Ends-remove store _ _ keeps)
        (λ e.
          Ends-if (is_not_found e) (λ gone. Ends-pure _ (λ w f. (f.0, f.1 gone)))
            (λ _. Ends-pure _ (λ w f. f.0)))
        λ _. Ends-pure _ (λ w f. f)

  apply_policy-HasGuardPolicy :
      {F : env.World → Type 0} (ref : Key)
      → IsKept store Kind.policy (guardrail_policy_key tg) F
      → Ends env F (apply_guardrail_policy env tg ref) (GainsBeside F (HasGuardPolicy ref))
  unfolding apply_guardrail_policy
  apply_policy-HasGuardPolicy ref keeps =
      Ends-gains store (Ends-upsert store _ _ _ _ (Guards ref) keeps (policy-Guards ref))
        (λ e. Ends-pure _ (λ w f. f))
        λ op. Ends-bind (Ends-operation _ _ _ _ op) (λ _. Ends-pure _ (λ w f. f))

  with_guard :
      (F : env.World → Type 0) (ref : Key)
      → WasReady ref
      → (o : Outcome env) (w : env.World) → GainsBeside F (HasGuardPolicy ref) o w
      → GainsBeside F (λ w. WasReady ref × HasGuardPolicy ref w) o w
  with_guard F ref ready (ok a, next) w (f, there) = (f, (ready, there))
  with_guard F ref ready (err e, next) w f = f

  ensure_one_guard-HasGuardPolicy :
      {F : env.World → Type 0} (ref : Key)
      → IsKept store Kind.policy (guardrail_policy_key tg) F
      → Ends env F
          (ensure_one_guard env tg ref)
          (GainsBeside F (λ w. WasReady ref × HasGuardPolicy ref w))
  unfolding ensure_one_guard
  ensure_one_guard-HasGuardPolicy ref keeps =
      Ends-ask store _ (λ w k' key'. store.gets_no_guard _ w k' key')
        (IsKept-IsOfObjects store _ _ keeps)
        λ r v got.
          Ends-check (λ e _. Ends-pure _ (λ w f. f))
            λ guard same.
              Ends-check (λ e _. Ends-pure _ (λ w f. f))
                λ _ ready.
                  Ends-weaken (apply_policy-HasGuardPolicy ref keeps)
                    (with_guard _ ref (v, guard, got ∙ same, ready))

  ensure_for-HasGuardrails :
      {F : env.World → Type 0} (refs : List Key)
      → IsKept store Kind.policy (guardrail_policy_key tg) F
      → Ends env F (ensure_guardrails_for env tg refs) (GainsBeside F (HasGuardrails refs))
  unfolding ensure_guardrails_for
  ensure_for-HasGuardrails [] keeps = delete_policy-HasGuardrails keeps
  ensure_for-HasGuardrails (ref ∷ []) keeps =
      ensure_one_guard-HasGuardPolicy (resolve_ref ref tg.key.namespace) keeps
  ensure_for-HasGuardrails (_ ∷ _ ∷ _) keeps = Ends-pure _ (λ w f. f)

  pub ensure_guardrails-HasGuardrails :
      {F : env.World → Type 0}
      → IsKept store Kind.policy (guardrail_policy_key tg) F
      → Ends env F (ensure_guardrails env tg) (GainsBeside F (HasGuardrails tg.guardrails))
  unfolding ensure_guardrails
  ensure_guardrails-HasGuardrails keeps = ensure_for-HasGuardrails tg.guardrails keeps
