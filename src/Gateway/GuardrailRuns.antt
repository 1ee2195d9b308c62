-- ===== src/Gateway/GuardrailRuns.antt =====
-- The runs of `ensureGuardrails`: what it returns, beside what it writes and what the client has answered.
use tool_gateway_agentgatewa.Prelude.{
  String, ◌≡◌, refl, ◌∙◌, true, false, List, [], ◌∷◌, none, some, if-holds, Bool-cases, inl, inr,
}
use tool_gateway_agentgatewa.Prelude.Text.{concat}
use tool_gateway_agentgatewa.Kube.Errors.{
  Error, sentinel, failure, wrapped, guard_not_found, guard_not_ready, is_not_found, errors_is,
  Result, ok, err,
}
use tool_gateway_agentgatewa.Kube.Types.{Key, resolve_ref, Condition, is_true, Guard, ToolGateway}
use tool_gateway_agentgatewa.Kube.Objects.{Kind}
use tool_gateway_agentgatewa.Kube.Client.{Env, Call, upsert, remove, pure, check}
use tool_gateway_agentgatewa.Kube.Client.Logic.{
  Answered, Performs, Performs-pure, Performs-upsert, Performs-remove, Performs-if,
  Performs-operation, Performs-then, Performs-told, Performs-ask, Performs-check,
}
use tool_gateway_agentgatewa.Kube.Client.Passed.{
  IsPassed, made, IsRemoved, removed, absent, unremoved,
}
use tool_gateway_agentgatewa.Kube.Client.Passed
use tool_gateway_agentgatewa.Resources.{new_agentgateway_policy}
use tool_gateway_agentgatewa.Gateway.Guardrails.{
  guardrail_policy_key, slash_key, multiple_guards, with_conditions, guard_readiness, guard_error,
  mutate_guardrail_policy, clear_unsupported, Outcome, delete_guardrail_policy,
  apply_guardrail_policy, ensure_one_guard, ensure_guardrails_for, ensure_guardrails,
}
use tool_gateway_agentgatewa.Gateway.Reconcile.{guardrail_reason}

-- The one call on the guardrail policy that the gateway asks for.
abbrev pub policy_call : ToolGateway → List Key → Call
policy_call tg [] = remove Kind.policy (guardrail_policy_key tg)
policy_call tg (_ ∷ _) = upsert Kind.policy (guardrail_policy_key tg)

module _ (env : Env) (tg : ToolGateway) where
  -- The key of a Guard, with the namespace of the gateway where the reference names none.
  abbrev pub guard_key : Key → Key
  guard_key ref = resolve_ref ref tg.key.namespace

  -- The guard is read, and its Ready condition is true.
  pub data IsGuardReady (ref : Key) : Type 0 where
    ready_guard :
        (g : Guard) (c : Condition)
        → Answered env (env.get_guard ref) (ok g)
        → env.find_status_condition g.conditions "Ready" ≡ some c
        → is_true c.status ≡ true
        → IsGuardReady ref

  -- What the result says of the client's answer to the one call: the removal where there is no guard,
  -- and the policy for the one guard, which is ready.
  pub data IsServed : List Key → Result (Unit {0}) → Type 0 where
    without_guard :
        {r : Result (Unit {0})}
        → IsRemoved env
            (env.delete Kind.policy (guardrail_policy_key tg))
            "failed to delete guardrail policy: "
            r
        → IsServed [] r
    with_guard :
        {ref : Key} {r : Result (Unit {0})}
        → IsGuardReady (guard_key ref)
        → IsPassed env
            (env.create_or_patch Kind.policy
              (guardrail_policy_key tg)
              (new_agentgateway_policy (guardrail_policy_key tg))
              (mutate_guardrail_policy env tg (guard_key ref)))
            "failed to create or update guardrail policy: "
            r
        → IsServed (ref ∷ []) r

  -- Why the guards are refused before any call: the reason, the error, and the gateway in memory. The
  -- guard is not there, cannot be read, has no Ready condition or one that is not true; or there are
  -- several, which alone changes the conditions in memory.
  pub data IsRefusal : List Key → String → Error → ToolGateway → Type 0 where
    missing :
        (ref : Key) (e : Error)
        → Answered env (env.get_guard (guard_key ref)) (err e)
        → is_not_found e ≡ true
        → IsRefusal
            (ref ∷ [])
            "GuardNotFound"
            (wrapped "" (sentinel guard_not_found) (concat (": " ∷ slash_key (guard_key ref) ∷ [])))
            tg
    unread :
        (ref : Key) (e e' : Error)
        → Answered env (env.get_guard (guard_key ref)) (err e)
        → is_not_found e ≡ false
        → e'
          ≡ wrapped (concat ("failed to get guard " ∷ slash_key (guard_key ref) ∷ ": " ∷ [])) e ""
        → IsRefusal (ref ∷ []) (guardrail_reason e') e' tg
    unconditioned :
        (ref : Key) (g : Guard)
        → Answered env (env.get_guard (guard_key ref)) (ok g)
        → env.find_status_condition g.conditions "Ready" ≡ none
        → IsRefusal
            (ref ∷ [])
            "GuardNotReady"
            (wrapped ""
              (sentinel guard_not_ready)
              (concat (": " ∷ slash_key (guard_key ref) ∷ " has no Ready condition yet" ∷ [])))
            tg
    not_ready :
        (ref : Key) (g : Guard) (c : Condition)
        → Answered env (env.get_guard (guard_key ref)) (ok g)
        → env.find_status_condition g.conditions "Ready" ≡ some c
        → is_true c.status ≡ false
        → IsRefusal
            (ref ∷ [])
            "GuardNotReady"
            (wrapped "" (sentinel guard_not_ready) (
              concat (": " ∷ slash_key (guard_key ref) ∷ ": " ∷ c.reason ∷ " — " ∷ c.message ∷ [])))
            tg
    several :
        (a b : Key) (refs : List Key)
        → IsRefusal
            (a ∷ b ∷ refs)
            "GuardrailsReconciliationFailed"
            (failure "multiple guards not supported")
            (with_conditions tg
              (env.set_status_condition tg.status.conditions (multiple_guards tg)))

  pub IsRefusal-guardrail_reason :
      {refs : List Key} {reason : String} {e : Error} {t : ToolGateway}
      → IsRefusal refs reason e t
      → guardrail_reason e ≡ reason
  unfolding guardrail_reason errors_is
  IsRefusal-guardrail_reason (missing _ _ _ _) = refl
  IsRefusal-guardrail_reason (unread _ _ _ _ _ _) = refl
  IsRefusal-guardrail_reason (unconditioned _ _ _ _) = refl
  IsRefusal-guardrail_reason (not_ready _ _ _ _ _ _) = refl
  IsRefusal-guardrail_reason (several _ _ _) = refl

  -- How `ensureGuardrails` may end: the policy is as the gateway asks for; the one call on it fails;
  -- or the guards are refused before any call.
  pub data IsGuardrailRun (refs : List Key) : Outcome env → List Call → Type 0 where
    done :
        IsServed refs (ok tt)
        → IsGuardrailRun refs (ok tt, clear_unsupported env tg) (policy_call tg refs ∷ [])
    call_failed :
        (e : Error)
        → IsServed refs (err e)
        → IsGuardrailRun refs (err e, tg) (policy_call tg refs ∷ [])
    refused :
        {reason : String} {e : Error} {t : ToolGateway}
        → IsRefusal refs reason e t
        → IsGuardrailRun refs (err e, t) []

  delete_guardrail_policy-Performs :
      Performs env (delete_guardrail_policy env tg) (IsGuardrailRun [])
  unfolding delete_guardrail_policy
  delete_guardrail_policy-Performs = Performs-told (Performs-remove _ _ _) λ r told.
      Performs-check
        (λ e same.
          Performs-if (is_not_found e)
            (λ gone.
              Performs-pure _ (done (without_guard (absent e (told.0, told.1 ∙ same) gone refl))))
            (λ other.
              Performs-pure _
                (call_failed _ (without_guard (unremoved e (told.0, told.1 ∙ same) other refl)))))
        (λ _ same. Performs-pure _ (done (without_guard (removed (told.0, told.1 ∙ same) refl))))

  apply_guardrail_policy-Performs :
      (ref : Key)
      → IsGuardReady (guard_key ref)
      → Performs env (apply_guardrail_policy env tg (guard_key ref)) (IsGuardrailRun (ref ∷ []))
  unfolding apply_guardrail_policy
  apply_guardrail_policy-Performs ref is_ready = Performs-told (Performs-upsert _ _ _) λ r told.
      Performs-check
        (λ e same.
          Performs-pure _
            (call_failed _ (with_guard is_ready (Passed.refused e (told.0, told.1 ∙ same) refl))))
        (λ op same. Performs-then (Performs-operation _ _ _ _ op) (λ _.
          Performs-pure _ (done (with_guard is_ready (made op (told.0, told.1 ∙ same) refl)))))

  guard_error-IsGuardrailRun :
      (ref : Key) (e : Error)
      → Answered env (env.get_guard (guard_key ref)) (err e)
      → IsGuardrailRun (ref ∷ []) (err (guard_error (guard_key ref) e), tg) []
  unfolding guard_error
  guard_error-IsGuardrailRun ref e told =
      if-holds (λ x. IsGuardrailRun (ref ∷ []) (err x, tg) []) (is_not_found e)
        (λ gone. refused (missing ref e told gone))
        (λ other. refused (unread ref e _ told other refl))

  -- The guard is read: its condition decides.
  ready_guard-Performs :
      (ref : Key) (g : Guard) (found : _)
      → Answered env (env.get_guard (guard_key ref)) (ok g)
      → env.find_status_condition g.conditions "Ready" ≡ found
      → Performs env
          (check
            (guard_readiness (guard_key ref) found)
            (λ e. pure (err e, tg))
            (λ _. apply_guardrail_policy env tg (guard_key ref)))
          (IsGuardrailRun (ref ∷ []))
  unfolding guard_readiness check
  ready_guard-Performs ref g none told h = Performs-pure _ (refused (unconditioned ref g told h))
  ready_guard-Performs ref g (some c) told h = elim (Bool-cases (is_true c.status)) [
    | inl e ↦ rw e (apply_guardrail_policy-Performs ref (ready_guard g c told h e))
    | inr e ↦ rw e (Performs-pure _ (refused (not_ready ref g c told h e)))
  ]

  ensure_one_guard-Performs :
      (ref : Key)
      → Performs env (ensure_one_guard env tg (guard_key ref)) (IsGuardrailRun (ref ∷ []))
  unfolding ensure_one_guard
  ensure_one_guard-Performs ref = Performs-ask _ λ r w h.
      Performs-check (λ e same. Performs-pure _ (guard_error-IsGuardrailRun ref e (w, h ∙ same)))
        (λ g same. ready_guard-Performs ref g _ (w, h ∙ same) refl)

  ensure_guardrails_for-Performs :
      (refs : List Key) → Performs env (ensure_guardrails_for env tg refs) (IsGuardrailRun refs)
  unfolding ensure_guardrails_for
  ensure_guardrails_for-Performs [] = delete_guardrail_policy-Performs
  ensure_guardrails_for-Performs (ref ∷ []) = ensure_one_guard-Performs ref
  ensure_guardrails_for-Performs (a ∷ b ∷ refs) = Performs-pure _ (refused (several a b refs))

  pub ensure_guardrails-Performs :
      Performs env (ensure_guardrails env tg) (IsGuardrailRun tg.guardrails)
  unfolding ensure_guardrails
  ensure_guardrails-Performs = ensure_guardrails_for-Performs tg.guardrails
