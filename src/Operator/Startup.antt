-- ===== src/Operator/Startup.antt =====
-- cmd/main.go: the calls of `main` that may fail, in their order. `filepath.Join` is a parameter, and so
-- is the answer to each call, which may depend on the calls before it.
use tool_gateway_agentgatewa.Prelude.{
  String, Bool, List, [], ◌∷◌, ◌++◌, Option, none, some, str_eq, if◌then◌else◌,
}
use tool_gateway_agentgatewa.Operator.Options.{Flags, CertWatcher, ManagerOptions, manager_options}

-- The three reconcilers, with the name of their event recorder.
pub data Reconciler : Type 0 where
  tool_gateway : String → Reconciler
  tool_route : String → Reconciler
  guard : String → String → Reconciler

pub data Step : Type 0 where
  new_cert_watcher : CertWatcher → Step
  -- `ctrl.GetConfigOrDie()`, which exits by itself where there is no configuration
  get_config : Step
  new_manager : ManagerOptions → Step
  setup : Reconciler → Step
  add_watcher : CertWatcher → Step
  add_healthz_check : String → Step
  add_readyz_check : String → Step
  start : Step

-- How the process ends: `main` returns, or `os.Exit(1)`.
pub data Exit : Type 0 where
  returned exited : Exit

-- What the packages answer.
pub record Answers : Type 0 where
  pub join : String → String → String
  -- whether a call fails, given the calls before it
  pub fails : List Step → Step → Bool

module _ (answers : Answers) where
  -- `if err != nil { os.Exit(1) }` behind a call.
  unfoldable pub call : Step → (List Step → List Step × Exit) → List Step → List Step × Exit
  call step next log =
      if answers.fails log step then (log ++ step ∷ [], exited) else next (log ++ step ∷ [])

  unfoldable pub watcher_of : String → String → String → CertWatcher
  watcher_of path name key = record {
    cert_file = answers.join path name;
    key_file = answers.join path key;
  }

  -- `if len(path) > 0 { ... }`
  unfoldable pub open_watcher :
      String
      → String
      → String
      → (Option CertWatcher → List Step → List Step × Exit)
      → List Step
      → List Step × Exit
  open_watcher path name key next log =
      if str_eq path ""
      then next none log
      else let w = watcher_of path name key in call (new_cert_watcher w) (next (some w)) log

  -- `if watcher != nil { mgr.Add(watcher) }`
  unfoldable pub add_to_manager :
      Option CertWatcher → (List Step → List Step × Exit) → List Step → List Step × Exit
  add_to_manager none next log = next log
  add_to_manager (some w) next log = call (add_watcher w) next log

  unfoldable pub serve : List Step → List Step × Exit
  serve =
      call (add_healthz_check "healthz")
        (call (add_readyz_check "readyz") (call start (λ log. (log, returned))))

  unfoldable pub run_manager :
      Flags → Option CertWatcher → Option CertWatcher → List Step → List Step × Exit
  run_manager flags webhook_watcher metrics_watcher = call get_config (
      call (new_manager (manager_options flags webhook_watcher metrics_watcher)) (
        call (setup (tool_gateway "tool-gateway-agentgateway-controller")) (
          call (setup (tool_route "toolroute-agentgateway-controller")) (
            call (setup (guard "guard-adapter-controller" flags.guardrail_adapter_image))
              (add_to_manager metrics_watcher (add_to_manager webhook_watcher serve))))))

  unfoldable pub main : Flags → List Step × Exit
  main flags =
      open_watcher flags.webhook_cert_path flags.webhook_cert_name flags.webhook_cert_key
        (λ webhook_watcher.
          open_watcher flags.metrics_cert_path flags.metrics_cert_name flags.metrics_cert_key
            (λ metrics_watcher. run_manager flags webhook_watcher metrics_watcher))
        []
