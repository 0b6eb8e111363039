-- ===== src/Platform/Laws.antt =====
-- Every way in which `Setup` ends.
use go_platform_kit.Common.{
  ◌≡◌, inl, inr, Option, none, some, List, [], ◌∷◌, Text, Unicode, arith, Option-cases,
}
use go_platform_kit.Broker.Publish.{Reply, ok, failed}
use go_platform_kit.Broker.Dispatch.Branches.{Reply-cases}
use go_platform_kit.Config.{Telemetry, BaseConfiguration}
use go_platform_kit.Correlation.{middleware}
use go_platform_kit.Errors.Taxonomy.{Framework}
use go_platform_kit.Errors.Render.{Body, handler}
use go_platform_kit.Observability.Redaction.{RedactCore, redacting, enable_redaction}
use go_platform_kit.Observability.Tracing.{
  TracingError, use_tracing, add_task, TracingOps, telemetry_for, telemetry_left, enable_tracing,
}
use go_platform_kit.Platform.{
  Options, SetupError, SetupCall, traced, replace_logger, use_middleware, set_error_handler,
  hooks_of, telemetry_of, install, setup,
}

module _ (F : Framework) (u : Unicode) (marshal : Body → Option Text)
    {C Core Rest TracingOption Task : Type 0} (ops : TracingOps Rest TracingOption Task)
    (replace : (C → RedactCore C) → Reply (Unit {0})) (app : Option Text)
    (opts : Options Core Rest TracingOption) where
  pub data Ends
      (r : Option SetupError
        × List (SetupCall F C Rest TracingOption Task)
        × Option (Telemetry Rest))
      : Type 0 where
    without_app : app ≡ none → r ≡ (some SetupError.nil_app, [], telemetry_of opts) → Ends r
    without_config :
        (name : Text)
        → app ≡ some name
        → opts.config ≡ none
        → r ≡ (some SetupError.nil_config, [], none)
        → Ends r
    no_tracing :
        (name : Text) (config : BaseConfiguration Core Rest) (e : Text)
        → app ≡ some name
        → opts.config ≡ some config
        → ops.use_otel (telemetry_for ops name config.telemetry) opts.tracing_options ≡ failed e
        → r ≡ (
          some (SetupError.tracing (TracingError.use_failed e)),
          traced (use_tracing (telemetry_for ops name config.telemetry) opts.tracing_options) ∷ [],
          telemetry_left ops name config.telemetry,
        )
        → Ends r
    no_task :
        (name : Text) (config : BaseConfiguration Core Rest) (task : Task) (e : Text)
        → app ≡ some name
        → opts.config ≡ some config
        → ops.use_otel (telemetry_for ops name config.telemetry) opts.tracing_options ≡ ok task
        → ops.add_task task ≡ failed e
        → r ≡ (
          some (SetupError.tracing (TracingError.add_task_failed e)),
          traced (use_tracing (telemetry_for ops name config.telemetry) opts.tracing_options)
              ∷ traced (add_task task)
              ∷ [],
          telemetry_left ops name config.telemetry,
        )
        → Ends r
    ready :
        (name : Text) (config : BaseConfiguration Core Rest) (task : Task)
        → app ≡ some name
        → opts.config ≡ some config
        → ops.use_otel (telemetry_for ops name config.telemetry) opts.tracing_options ≡ ok task
        → ops.add_task task ≡ ok tt
        → r ≡ (
          none,
          traced (use_tracing (telemetry_for ops name config.telemetry) opts.tracing_options)
              ∷ traced (add_task task)
              ∷ replace_logger (redacting opts.redaction) (replace (redacting opts.redaction))
              ∷ use_middleware (middleware u)
              ∷ set_error_handler (λ registry req now err.
                handler F u registry marshal name opts.public_errors
                  (hooks_of opts.on_failure)
                  req
                  now
                  err)
              ∷ [],
          telemetry_left ops name config.telemetry,
        )
        → Ends r

  -- How `Setup` ends. A nil application or configuration is refused before anything is called, and
  -- a failure of the tracing or of its task before anything else is installed. Else it installs the
  -- tracing, the redaction, the correlation middleware and the error handler, in this order.
  pub setup-Ends : Ends (setup F u marshal ops replace app opts)
  unfolding setup install enable_tracing enable_redaction
  setup-Ends = elim (Option-cases app) [
    | inl no_app ↦ without_app no_app (ground arith)
    | inr (name, named) ↦ elim (Option-cases opts.config) [
      | inl no_config ↦ without_config name named no_config (ground arith)
      | inr (config, configured) ↦
          elim (Reply-cases
            (ops.use_otel (telemetry_for ops name config.telemetry) opts.tracing_options)) [
              | inl (e, bad) ↦ no_tracing name config e named configured bad (ground arith)
              | inr (task, good) ↦ elim (Reply-cases (ops.add_task task)) [
                | inl (e, bad) ↦ no_task name config task e named configured good bad (ground arith)
                | inr (_, added) ↦ ready name config task named configured good added (ground arith)
              ]
            ]
    ]
  ]
