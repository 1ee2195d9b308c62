-- ===== src/Adapter/Reconciled.antt =====
-- `Reconcile` of the Guard, as a whole.
use tool_gateway_agentgatewa.Prelude.{
  String, ◌≡◌, refl, sym, ◌∙◌, Bool, true, false, List, [], ◌∷◌, ◌++◌, Option, some, if◌then◌else◌,
}
use tool_gateway_agentgatewa.Kube.Errors.{Error, is_not_found, Result, ok, err}
use tool_gateway_agentgatewa.Kube.Types.{
  Key, ConditionStatus, condition_true, condition_false, Guard,
}
use tool_gateway_agentgatewa.Kube.Objects.{OwnerKind}
use tool_gateway_agentgatewa.Kube.Client.{Env, Call, patch}
use tool_gateway_agentgatewa.Kube.Client.Logic.{
  Performs, Performs-pure, Performs-patch, Performs-if, Performs-weaken, Performs-bind,
  Performs-then, Performs-ask, Performs-check,
}
use tool_gateway_agentgatewa.Kube.Client.Passed.{IsPassed, Performs-passed, Performs-done}
use tool_gateway_agentgatewa.Adapter.StaticConfig.{Rendering}
use tool_gateway_agentgatewa.Adapter.Reconcile.{
  Reason, reason_text, is_terminal_reason, Fault, guard_status, ready_condition,
  set_ready_condition, mirror, reconcile,
}
use tool_gateway_agentgatewa.Adapter.Runs.{
  all_calls, IsFault, IsMade, IsCoreRun, all_done, stopped, reconcile_guard-Performs,
}

-- Whether a reason waits for the user to change something, and not for another attempt.
abbrev pub waits_for_user : Reason → Bool
waits_for_user Reason.adapter_not_configured = true
waits_for_user Reason.provider_not_found = true
waits_for_user Reason.unsupported_provider_type = true
waits_for_user Reason.invalid_configuration = true
waits_for_user Reason.reconcile_failed = false

waits_for_user-is_terminal_reason :
    (reason : Reason) → is_terminal_reason (reason_text reason) ≡ waits_for_user reason
unfolding is_terminal_reason reason_text
waits_for_user-is_terminal_reason Reason.adapter_not_configured = refl
waits_for_user-is_terminal_reason Reason.provider_not_found = refl
waits_for_user-is_terminal_reason Reason.unsupported_provider_type = refl
waits_for_user-is_terminal_reason Reason.invalid_configuration = refl
waits_for_user-is_terminal_reason Reason.reconcile_failed = refl

-- What a fault becomes: an error only where it does not wait for the user.
abbrev pub verdict : Fault → Result (Unit {0})
verdict f = if waits_for_user f.reason then ok tt else err f.error

module _ (env : Env) (rendering : Rendering) (adapter_image : String) where
  abbrev pub status_patch : Guard → ConditionStatus → String → String → Call
  status_patch guard status reason text =
      patch OwnerKind.guard guard.key (guard_status guard.conditions) (
        guard_status
          (env.set_status_condition guard.conditions (ready_condition guard status reason text)))

  -- What the result of the patch says of the client's answer.
  abbrev pub IsPatchPassed : Guard → ConditionStatus → String → String → Result (Unit {0}) → Type 0
  IsPatchPassed guard status reason text =
      IsPassed env
        (env.patch_status OwnerKind.guard guard.key (guard_status guard.conditions) (
          guard_status
            (env.set_status_condition guard.conditions (ready_condition guard status reason text))))
        "failed to patch Guard status: "

  set_ready_condition-Performs :
      (guard : Guard) (status : ConditionStatus) (reason text : String)
      → Performs env
          (set_ready_condition env rendering adapter_image guard status reason text)
          (λ r ws.
            (ws ≡ status_patch guard status reason text ∷ [])
            × IsPatchPassed guard status reason text r)
  unfolding set_ready_condition
  set_ready_condition-Performs guard status reason text =
      Performs-passed (Performs-patch _ _ _ _ _) (λ _. Performs-done)

  -- How `Reconcile` of a guard may end.
  pub data IsGuardReconcile (req : Key) (r : Result (Unit {0})) (ws : List Call) : Type 0 where
    gone :
        (w : env.World) (e : Error)
        → (env.get_guard req w).0 ≡ err e
        → is_not_found e ≡ true
        → r ≡ ok tt
        → ws ≡ []
        → IsGuardReconcile req r ws
    unread :
        (w : env.World) (e : Error)
        → (env.get_guard req w).0 ≡ err e
        → is_not_found e ≡ false
        → r ≡ err e
        → ws ≡ []
        → IsGuardReconcile req r ws
    ready :
        (w : env.World) (guard : Guard)
        → (env.get_guard req w).0 ≡ ok guard
        → IsMade env rendering adapter_image guard
        → IsPatchPassed guard condition_true "Reconciled" "Adapter resources reconciled" r
        → ws
          ≡ all_calls env rendering adapter_image guard
            ++ status_patch guard condition_true "Reconciled" "Adapter resources reconciled" ∷ []
        → IsGuardReconcile req r ws
    faulty :
        (w : env.World) (guard : Guard) (f : Fault) (before : List Call)
        → (env.get_guard req w).0 ≡ ok guard
        → IsFault env rendering adapter_image guard f before
        → r ≡ verdict f
        → ws ≡ before ++ status_patch guard condition_false (reason_text f.reason) f.text ∷ []
        → IsGuardReconcile req r ws

  fault-Performs :
      (guard : Guard) (f : Fault)
      → Performs env (mirror env rendering adapter_image guard (some f)) (λ r ws.
        (r ≡ verdict f)
        × (ws ≡ status_patch guard condition_false (reason_text f.reason) f.text ∷ []))
  unfolding mirror
  fault-Performs guard f =
      Performs-then
        (Performs-weaken
          (set_ready_condition-Performs guard condition_false (reason_text f.reason) f.text)
          (λ r ws h. h.0))
        λ _.
          Performs-if (is_terminal_reason (reason_text f.reason))
            (λ yes.
              Performs-pure _ (rw (sym (waits_for_user-is_terminal_reason f.reason), yes), refl))
            (λ no.
              Performs-pure _ (rw (sym (waits_for_user-is_terminal_reason f.reason), no), refl))

  mirror-IsGuardReconcile :
      {req : Key} (w : env.World) (guard : Guard) {o : Option Fault} {ws : List Call}
      → (env.get_guard req w).0 ≡ ok guard
      → IsCoreRun env rendering adapter_image guard o ws
      → Performs env
          (mirror env rendering adapter_image guard o)
          (λ r vs. IsGuardReconcile req r (ws ++ vs))
  mirror-IsGuardReconcile w guard h (all_done all) =
      unfold mirror in
      Performs-weaken
        (set_ready_condition-Performs guard condition_true "Reconciled"
          "Adapter resources reconciled")
        (λ r vs p. ready w guard h all p.1 (rw p.0))
  mirror-IsGuardReconcile w guard h (stopped {f} {ws} cause) =
      Performs-weaken (fault-Performs guard f) (λ r vs p. faulty w guard f ws h cause p.0 (rw p.1))

  -- Whatever the cluster answers, `Reconcile` of a Guard ends in one of the ways of `IsGuardReconcile`: the
  -- guard is gone or cannot be read, and nothing is written; or an image is set, the provider is read
  -- and rendered, the client answers the calls for the ConfigMap, the Deployment and the Service, in this
  -- order, each by a success, and the status becomes Ready; or the work stops with a cause of `IsFault`,
  -- and the patch of the status, with the reason of that cause, is the last call. The causes that wait
  -- for the user (no image, no provider, one of another type, an invalid configuration) write nothing
  -- else and give a success; each other cause is returned as the error, so that the guard is tried again.
  pub reconcile-IsGuardReconcile :
      (req : Key) → Performs env (reconcile env rendering adapter_image req) (IsGuardReconcile req)
  unfolding reconcile
  reconcile-IsGuardReconcile req = Performs-ask _ λ r w h.
      Performs-check
        (λ e h'.
          Performs-if (is_not_found e)
            (λ gone_e. Performs-pure _ (gone w e (h ∙ h') gone_e refl refl))
            (λ other. Performs-pure _ (unread w e (h ∙ h') other refl refl)))
        λ guard h'.
          Performs-bind (reconcile_guard-Performs env rendering adapter_image guard)
            (λ o ws run. mirror-IsGuardReconcile w guard (h ∙ h') run)
