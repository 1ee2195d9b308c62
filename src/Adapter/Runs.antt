-- ===== src/Adapter/Runs.antt =====
-- The runs of the Guard reconciler: what it returns, beside what it writes and what the client has
-- answered.
use mathlib.Core.Path.{subst}
use tool_gateway_agentgatewa.Prelude.{
  String, ◌≡◌, ◌≢◌, ◌∙◌, true, false, List, [], ◌∷◌, Option, none, some, str_eq, eq_iff, if-holds,
}
use tool_gateway_agentgatewa.Kube.Errors.{
  Error, unsupported_provider, invalid_config, is_not_found, errors_is, Result, ok, err,
}
use tool_gateway_agentgatewa.Kube.Results.{str_eq-false}
use tool_gateway_agentgatewa.Kube.Types.{resolve_ref, Guard, GuardrailProvider}
use tool_gateway_agentgatewa.Kube.Objects.{Kind}
use tool_gateway_agentgatewa.Kube.Client.{Env, Call, upsert}
use tool_gateway_agentgatewa.Kube.Client.Logic.{
  Answered, Performs, Performs-pure, Performs-upsert, Performs-if, Performs-told, Performs-ask,
  Performs-check,
}
use tool_gateway_agentgatewa.Kube.Client.Passed.{IsPassed, Performs-passed, Performs-done}
use tool_gateway_agentgatewa.Adapter.StaticConfig.{Rendering, render_static_config}
use tool_gateway_agentgatewa.Adapter.Ensure.{
  adapter_key, blank_deployment, mutate_config_map, mutate_deployment, mutate_service,
  ensure_config_map, ensure_deployment, ensure_service,
}
use tool_gateway_agentgatewa.Adapter.Reconcile.{
  Reason, Fault, fault, not_configured, provider_fault, config_fault, fetch_provider,
  ensure_adapter, reconcile_guard,
}

-- What the client is asked for, and what the result says of its answer.
module _ (env : Env) where
  abbrev pub IsConfigMapPassed : Guard → String → Result (Unit {0}) → Type 0
  IsConfigMapPassed guard body =
      IsPassed env
        (env.create_or_patch Kind.config_map (adapter_key guard)
          (record { owner = none; content = [] }) (mutate_config_map env guard body))
        "failed to ensure ConfigMap: "

  abbrev pub IsDeploymentPassed : String → Guard → String → Result (Unit {0}) → Type 0
  IsDeploymentPassed image guard hash =
      IsPassed env
        (env.create_or_patch Kind.deployment (adapter_key guard)
          (record { owner = none; content = blank_deployment })
          (mutate_deployment env image guard hash))
        "failed to ensure Deployment: "

  abbrev pub IsServicePassed : Guard → Result (Unit {0}) → Type 0
  IsServicePassed guard =
      IsPassed env
        (env.create_or_patch Kind.service (adapter_key guard)
          (record { owner = none; content = record { selector = []; ports = [] } })
          (mutate_service env guard))
        "failed to ensure Service: "

  ensure_config_map-Performs :
      (guard : Guard) (body : String)
      → Performs env (ensure_config_map env guard body) (λ r ws.
        (ws ≡ upsert Kind.config_map (adapter_key guard) ∷ []) × IsConfigMapPassed guard body r)
  unfolding ensure_config_map
  ensure_config_map-Performs guard body =
      Performs-passed (Performs-upsert _ _ _) (λ _. Performs-done)

  ensure_deployment-Performs :
      (image : String) (guard : Guard) (hash : String)
      → Performs env (ensure_deployment env image guard hash) (λ r ws.
        (ws ≡ upsert Kind.deployment (adapter_key guard) ∷ [])
        × IsDeploymentPassed image guard hash r)
  unfolding ensure_deployment
  ensure_deployment-Performs image guard hash =
      Performs-passed (Performs-upsert _ _ _) (λ _. Performs-done)

  ensure_service-Performs :
      (guard : Guard)
      → Performs env
          (ensure_service env guard)
          (λ r ws. (ws ≡ upsert Kind.service (adapter_key guard) ∷ []) × IsServicePassed guard r)
  unfolding ensure_service
  ensure_service-Performs guard = Performs-passed (Performs-upsert _ _ _) (λ _. Performs-done)

module _ (env : Env) (rendering : Rendering) (adapter_image : String) where
  -- The calls of a whole adapter.
  abbrev pub all_calls : Guard → List Call
  all_calls guard =
      upsert Kind.config_map (adapter_key guard)
      ∷ upsert Kind.deployment (adapter_key guard)
      ∷ upsert Kind.service (adapter_key guard)
      ∷ []

  -- What the client answers about the provider of the guard.
  abbrev pub ProviderIs : Guard → Result GuardrailProvider → Type 0
  ProviderIs guard =
      Answered env (env.get_guardrail_provider (resolve_ref guard.provider_ref guard.key.namespace))

  -- The provider is read, and rendered to a text and its hash.
  pub data IsRendered (guard : Guard) (body hash : String) : Type 0 where
    rendered :
        (p : GuardrailProvider)
        → ProviderIs guard (ok p)
        → render_static_config rendering guard p ≡ ok (body, hash)
        → IsRendered guard body hash

  -- The calls up to one that fails: the calls behind it are not made, and those before are successes.
  pub data IsCutOff (guard : Guard) (body hash : String) (e : Error) : List Call → Type 0 where
    at_config_map :
        IsConfigMapPassed env guard body (err e)
        → IsCutOff guard body hash e (upsert Kind.config_map (adapter_key guard) ∷ [])
    at_deployment :
        IsConfigMapPassed env guard body (ok tt)
        → IsDeploymentPassed env adapter_image guard hash (err e)
        → IsCutOff guard body hash e (
            upsert Kind.config_map (adapter_key guard)
            ∷ upsert Kind.deployment (adapter_key guard)
            ∷ [])
    at_service :
        IsConfigMapPassed env guard body (ok tt)
        → IsDeploymentPassed env adapter_image guard hash (ok tt)
        → IsServicePassed env guard (err e)
        → IsCutOff guard body hash e (all_calls guard)

  -- Why the work on a guard stops where an image is set: the reason and the error, beside what is
  -- written by then.
  pub data IsLateFault (guard : Guard) : Fault → List Call → Type 0 where
    provider_missing :
        (e : Error)
        → ProviderIs guard (err e)
        → is_not_found e ≡ true
        → IsLateFault guard (fault Reason.provider_not_found e) []
    provider_unread :
        (e : Error)
        → ProviderIs guard (err e)
        → is_not_found e ≡ false
        → IsLateFault guard (fault Reason.reconcile_failed e) []
    unsupported :
        (p : GuardrailProvider) (e : Error)
        → ProviderIs guard (ok p)
        → render_static_config rendering guard p ≡ err e
        → errors_is e unsupported_provider ≡ true
        → IsLateFault guard (fault Reason.unsupported_provider_type e) []
    invalid :
        (p : GuardrailProvider) (e : Error)
        → ProviderIs guard (ok p)
        → render_static_config rendering guard p ≡ err e
        → errors_is e unsupported_provider ≡ false
        → errors_is e invalid_config ≡ true
        → IsLateFault guard (fault Reason.invalid_configuration e) []
    unrendered :
        (p : GuardrailProvider) (e : Error)
        → ProviderIs guard (ok p)
        → render_static_config rendering guard p ≡ err e
        → errors_is e unsupported_provider ≡ false
        → errors_is e invalid_config ≡ false
        → IsLateFault guard (fault Reason.reconcile_failed e) []
    call_failed :
        {body hash : String} {e : Error} {ws : List Call}
        → IsRendered guard body hash
        → IsCutOff guard body hash e ws
        → IsLateFault guard (fault Reason.reconcile_failed e) ws

  pub data IsFault (guard : Guard) : Fault → List Call → Type 0 where
    no_image : adapter_image ≡ "" → IsFault guard not_configured []
    with_image :
        {f : Fault} {ws : List Call}
        → adapter_image ≢ ""
        → IsLateFault guard f ws
        → IsFault guard f ws

  -- An image is set, the provider is read and rendered, and each of the three calls is a success.
  pub data IsMade (guard : Guard) : Type 0 where
    made_all :
        {body hash : String}
        → adapter_image ≢ ""
        → IsRendered guard body hash
        → IsConfigMapPassed env guard body (ok tt)
        → IsDeploymentPassed env adapter_image guard hash (ok tt)
        → IsServicePassed env guard (ok tt)
        → IsMade guard

  -- The outcome of the core, beside what it has written.
  pub data IsCoreRun (guard : Guard) : Option Fault → List Call → Type 0 where
    all_done : IsMade guard → IsCoreRun guard none (all_calls guard)
    stopped : {f : Fault} {ws : List Call} → IsFault guard f ws → IsCoreRun guard (some f) ws

  module _ (guard : Guard) (image : adapter_image ≢ "") where
    ensure_adapter-Performs :
        (body hash : String)
        → IsRendered guard body hash
        → Performs env
            (ensure_adapter env rendering adapter_image guard (body, hash))
            (IsCoreRun guard)
    unfolding ensure_adapter
    ensure_adapter-Performs body hash r =
        Performs-told (ensure_config_map-Performs env guard body) λ c told_c.
          Performs-check
            (λ e same. Performs-pure _ (
              stopped (
                with_image image (
                  call_failed r
                    (at_config_map (subst (IsConfigMapPassed env guard body) same told_c))))))
            λ _ ok_c.
              Performs-told (ensure_deployment-Performs env adapter_image guard hash) λ d told_d.
                Performs-check
                  (λ e same. Performs-pure _ (
                    stopped (
                      with_image image (
                        call_failed r (
                          at_deployment (subst (IsConfigMapPassed env guard body) ok_c told_c)
                            (subst IsDeployed same told_d))))))
                  λ _ ok_d. Performs-told (ensure_service-Performs env guard) λ s told_s.
                    Performs-check
                      (λ e same. Performs-pure _ (
                        stopped (
                          with_image image (
                            call_failed r (
                              at_service (subst (IsConfigMapPassed env guard body) ok_c told_c)
                                (subst IsDeployed ok_d told_d)
                                (subst (IsServicePassed env guard) same told_s))))))
                      (λ _ ok_s. Performs-pure _ (
                        all_done (
                          made_all image r (subst (IsConfigMapPassed env guard body) ok_c told_c)
                            (subst IsDeployed ok_d told_d)
                            (subst (IsServicePassed env guard) ok_s told_s))))
      where
        IsDeployed : Result (Unit {0}) → Type 0
        IsDeployed = IsDeploymentPassed env adapter_image guard hash

    provider_fault-IsCoreRun :
        (e : Error) → ProviderIs guard (err e) → IsCoreRun guard (some (provider_fault e)) []
    unfolding provider_fault
    provider_fault-IsCoreRun e told =
        if-holds (λ f. IsCoreRun guard (some f) []) (is_not_found e)
          (λ gone. stopped (with_image image (provider_missing e told gone)))
          (λ other. stopped (with_image image (provider_unread e told other)))

    config_fault-IsCoreRun :
        (p : GuardrailProvider) (e : Error)
        → ProviderIs guard (ok p)
        → render_static_config rendering guard p ≡ err e
        → IsCoreRun guard (some (config_fault e)) []
    unfolding config_fault
    config_fault-IsCoreRun p e got h =
        if-holds (λ f. IsCoreRun guard (some f) []) (errors_is e unsupported_provider)
          (λ yes. stopped (with_image image (unsupported p e got h yes)))
          λ no.
            if-holds (λ f. IsCoreRun guard (some f) []) (errors_is e invalid_config)
              (λ yes. stopped (with_image image (invalid p e got h no yes)))
              (λ no'. stopped (with_image image (unrendered p e got h no no')))

  pub reconcile_guard-Performs :
      (guard : Guard)
      → Performs env (reconcile_guard env rendering adapter_image guard) (IsCoreRun guard)
  unfolding reconcile_guard fetch_provider
  reconcile_guard-Performs guard =
      Performs-if (str_eq adapter_image "")
        (λ empty. Performs-pure _ (stopped (no_image ((eq_iff adapter_image "").0 empty))))
        λ set.
          let image = str_eq-false adapter_image "" set in
          Performs-ask _ λ r w h.
            Performs-check
              (λ e h'. Performs-pure _ (provider_fault-IsCoreRun guard image e (w, h ∙ h')))
              λ p got.
                Performs-check
                  (λ e h'. Performs-pure _ (config_fault-IsCoreRun guard image p e (w, h ∙ got) h'))
                  (λ out h'.
                    ensure_adapter-Performs guard image out.0 out.1 (rendered p (w, h ∙ got) h'))
