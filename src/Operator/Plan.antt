-- ===== src/Operator/Plan.antt =====
-- `main` as a list of calls that is made up to the first that fails.
use mathlib.Core.Path.{subst}
use tool_gateway_agentgatewa.Prelude.{
  String, ◌≡◌, refl, sym, ap, ◌∙◌, true, false, List, [], ◌∷◌, ◌++◌, append-nil, append_assoc,
  Option, none, some, str_eq, if◌then◌else◌, Bool-cases, inl, inr,
}
use tool_gateway_agentgatewa.Operator.Options.{Flags, CertWatcher, manager_options}
use tool_gateway_agentgatewa.Operator.Startup.{
  Step, tool_gateway, tool_route, guard, new_cert_watcher, get_config, new_manager, setup,
  add_watcher, add_healthz_check, add_readyz_check, start, Exit, returned, exited, Answers, call,
  watcher_of, open_watcher, add_to_manager, serve, run_manager, main,
}

module _ (answers : Answers) where
  -- Calls in their order, up to the first that fails.
  run : List Step → List Step → List Step × Exit
  run [] log = (log, returned)
  run (step ∷ steps) log =
      let rest = run steps (log ++ step ∷ []) in
      if answers.fails log step then (log ++ step ∷ [], exited) else rest

  -- None of the calls fails, each behind those before it.
  abbrev pub AllSucceed : List Step → List Step → Type 0
  AllSucceed log [] = Unit
  AllSucceed log (step ∷ steps) =
      (answers.fails log step ≡ false) × AllSucceed (log ++ step ∷ []) steps

  -- How a plan may end behind a log: all its calls are made and none fails; or one fails, none before
  -- it does, and none behind it is made.
  pub data IsStartup (log steps : List Step) (out : List Step × Exit) : Type 0 where
    completed : AllSucceed log steps → out ≡ (log ++ steps, returned) → IsStartup log steps out
    died :
        (before : List Step) (step : Step) (after : List Step)
        → steps ≡ before ++ step ∷ after
        → AllSucceed log before
        → answers.fails (log ++ before) step ≡ true
        → out ≡ ((log ++ before) ++ step ∷ [], exited)
        → IsStartup log steps out

  -- A first call that succeeds.
  IsStartup-cons :
      (log : List Step) (step : Step) (steps : List Step) {out : List Step × Exit}
      → answers.fails log step ≡ false
      → IsStartup (log ++ step ∷ []) steps out
      → IsStartup log (step ∷ steps) out
  IsStartup-cons log step steps fine (completed all e) =
      completed (fine, all) (e ∙ ap (λ l. (l, returned)) (append_assoc log (step ∷ []) steps))
  IsStartup-cons log step steps fine (died before bad after split all fails e) =
      let regroup = append_assoc log (step ∷ []) before in
      died (step ∷ before) bad after (ap (λ l. step ∷ l) split) (fine, all)
        (ap (λ l. answers.fails l bad) (sym regroup) ∙ fails)
        (e ∙ ap (λ l. (l ++ bad ∷ [], exited)) regroup)

  run-IsStartup : (steps log : List Step) → IsStartup log steps (run steps log)
  unfolding run
  run-IsStartup [] log = completed tt (ap (λ l. (l, returned)) (sym (append-nil log)))
  run-IsStartup (step ∷ steps) log = elim (Bool-cases (answers.fails log step)) [
    | inl e ↦ rw e (
        died [] step steps refl tt (ap (λ l. answers.fails l step) (append-nil log) ∙ e)
          (ap (λ l. (l ++ step ∷ [], exited)) (sym (append-nil log))))
    | inr e ↦ rw e (IsStartup-cons log step steps e (run-IsStartup steps (log ++ step ∷ [])))
  ]

  -- The watcher that the flags ask for: `none` for an empty path.
  abbrev pub asked : String → String → String → Option CertWatcher
  asked path name key = if str_eq path "" then none else some (watcher_of answers path name key)

  abbrev pub each : (CertWatcher → Step) → Option CertWatcher → List Step
  each step none = []
  each step (some w) = step w ∷ []

  abbrev pub plan_with : Flags → Option CertWatcher → Option CertWatcher → List Step
  plan_with flags webhook metrics =
      each new_cert_watcher webhook
      ++ (each new_cert_watcher metrics
          ++ (get_config
              ∷ new_manager (manager_options flags webhook metrics)
              ∷ setup (tool_gateway "tool-gateway-agentgateway-controller")
              ∷ setup (tool_route "toolroute-agentgateway-controller")
              ∷ setup (guard "guard-adapter-controller" flags.guardrail_adapter_image)
              ∷ (each add_watcher metrics
                  ++ (each add_watcher webhook
                      ++ add_healthz_check "healthz" ∷ add_readyz_check "readyz" ∷ start ∷ []))))

  -- The calls that the flags ask for.
  pub plan : Flags → List Step
  plan flags =
      plan_with flags (asked flags.webhook_cert_path flags.webhook_cert_name flags.webhook_cert_key)
        (asked flags.metrics_cert_path flags.metrics_cert_name flags.metrics_cert_key)

  run_manager-run :
      (flags : Flags) (webhook metrics : Option CertWatcher) (log : List Step)
      → run_manager answers flags webhook metrics log
        ≡ run
            (get_config
              ∷ new_manager (manager_options flags webhook metrics)
              ∷ setup (tool_gateway "tool-gateway-agentgateway-controller")
              ∷ setup (tool_route "toolroute-agentgateway-controller")
              ∷ setup (guard "guard-adapter-controller" flags.guardrail_adapter_image)
              ∷ (each add_watcher metrics
                  ++ (each add_watcher webhook
                      ++ add_healthz_check "healthz" ∷ add_readyz_check "readyz" ∷ start ∷ [])))
            log
  unfolding run_manager run add_to_manager serve call
  run_manager-run flags none none log = refl
  run_manager-run flags none (some m) log = refl
  run_manager-run flags (some w) none log = refl
  run_manager-run flags (some w) (some m) log = refl

  -- What follows the opening of a watcher, once the flag is read.
  opened :
      Option CertWatcher
      → (Option CertWatcher → List Step → List Step × Exit)
      → List Step
      → List Step × Exit
  opened none next log = next none log
  opened (some w) next log = call answers (new_cert_watcher w) (next (some w)) log

  open_watcher-opened :
      (path name key : String) (next : Option CertWatcher → List Step → List Step × Exit)
      (log : List Step)
      → open_watcher answers path name key next log ≡ opened (asked path name key) next log
  unfolding open_watcher opened
  open_watcher-opened path name key next log = elim (Bool-cases (str_eq path "")) [
    | inl e ↦ rw e refl
    | inr e ↦ rw e refl
  ]

  opened-run :
      (flags : Flags) (webhook metrics : Option CertWatcher)
      → opened webhook (λ w. opened metrics (run_manager answers flags w)) []
        ≡ run (plan_with flags webhook metrics) []
  unfolding opened call run
  opened-run flags none none = run_manager-run flags none none []
  opened-run flags none (some m) =
      rw (run_manager-run flags none (some m) (new_cert_watcher m ∷ [])) refl
  opened-run flags (some w) none =
      rw (run_manager-run flags (some w) none (new_cert_watcher w ∷ [])) refl
  opened-run flags (some w) (some m) =
      rw (run_manager-run flags (some w) (some m) (new_cert_watcher w ∷ new_cert_watcher m ∷ []))
        refl

  main-run : (flags : Flags) → main answers flags ≡ run (plan flags) []
  unfolding main plan
  main-run flags =
      let webhook = asked flags.webhook_cert_path flags.webhook_cert_name flags.webhook_cert_key in
      open_watcher-opened flags.webhook_cert_path flags.webhook_cert_name flags.webhook_cert_key _
        []
      ∙ ap (λ f. opened webhook f [])
          (λ i w log.
            open_watcher-opened flags.metrics_cert_path flags.metrics_cert_name
              flags.metrics_cert_key (run_manager answers flags w) log i)
      ∙ opened-run flags webhook
          (asked flags.metrics_cert_path flags.metrics_cert_name flags.metrics_cert_key)

  -- `main` makes the calls of the plan that its flags give, in that order: all of them, and none fails,
  -- and then it returns; or up to one that fails, behind calls that do not, and then the process exits.
  pub main-IsStartup : (flags : Flags) → IsStartup [] (plan flags) (main answers flags)
  main-IsStartup flags =
      subst (IsStartup [] (plan flags)) (sym (main-run flags)) (run-IsStartup (plan flags) [])
