-- ===== src/Platform.antt =====
-- platform/platform.go: `Setup`, as the calls that it makes of the application, in order. The
-- application, OpenTelemetry and the JSON encoder are parameters.
pub mod Laws
pub mod Thread
pub mod Logging
mod Tests
use go_platform_kit.Common.{
  ℕ, Bool, true, false, Option, none, some, List, [], ◌∷◌, ◌++◌, map, Text, Unicode,
}
use go_platform_kit.Broker.Publish.{Reply}
use go_platform_kit.Config.{Telemetry, BaseConfiguration}
use go_platform_kit.Correlation.{Inbound, Bound, middleware}
use go_platform_kit.Errors.Registry.{Registry}
use go_platform_kit.Errors.Taxonomy.{Framework, GoError}
use go_platform_kit.Errors.Render.{Request, FailureHook, Body, Effect, handler}
use go_platform_kit.Observability.Redaction.{RedactionPolicy, RedactCore, enable_redaction}
use go_platform_kit.Observability.Tracing.{
  TracingError, TracingCall, use_tracing, add_task, TracingOps, enable_tracing,
}

pub record Options (Core Rest TracingOption : Type 0) : Type 0 where
  pub config : Option (BaseConfiguration Core Rest)
  pub redaction : Option RedactionPolicy
  pub public_errors : Bool
  pub tracing_options : List TracingOption
  pub on_failure : Option FailureHook

pub data SetupError : Type 0 where
  nil_app nil_config : SetupError
  tracing : TracingError → SetupError

-- A handler of errors, with the registry, the request and the time that it finds.
abbrev pub ErrorHandler : Framework → Type 0
ErrorHandler F = Registry → Request → (now : ℕ) → Option (GoError F) → List Effect × Bool

abbrev pub Middleware : Type 0
Middleware = (new_id : Text) → Inbound → Bound → Bound

-- A call of the application, whose logger has cores `C`; `ReplaceLogger` has a reply.
pub data SetupCall (F : Framework) (C Rest TracingOption Task : Type 0) : Type 0 where
  traced : TracingCall Rest TracingOption Task → SetupCall F C Rest TracingOption Task
  replace_logger : (C → RedactCore C) → Reply (Unit {0}) → SetupCall F C Rest TracingOption Task
  use_middleware : Middleware → SetupCall F C Rest TracingOption Task
  set_error_handler : ErrorHandler F → SetupCall F C Rest TracingOption Task

-- The hooks that the error handler is given.
unfoldable pub hooks_of : Option FailureHook → List (Option FailureHook)
hooks_of none = []
hooks_of (some hook) = some hook ∷ []

-- The telemetry configuration of the options.
abbrev pub telemetry_of :
    {Core Rest TracingOption : Type 0} → Options Core Rest TracingOption → Option (Telemetry Rest)
telemetry_of opts = elim opts.config [ none ↦ none | some config ↦ config.telemetry ]

module _ (F : Framework) (u : Unicode) (marshal : Body → Option Text)
    {C Core Rest TracingOption Task : Type 0} (ops : TracingOps Rest TracingOption Task)
    (replace : (C → RedactCore C) → Reply (Unit {0})) where
  -- What `Setup` installs once tracing is on.
  unfoldable pub install :
      (app_name : Text)
      → Options Core Rest TracingOption
      → List (SetupCall F C Rest TracingOption Task)
  install app_name opts =
      let done = enable_redaction replace opts.redaction in
      replace_logger done.0 done.1
      ∷ use_middleware (middleware u)
      ∷ set_error_handler (λ registry r now err.
        handler F u registry marshal app_name opts.public_errors (hooks_of opts.on_failure) r now
          err)
      ∷ []

  -- `Setup` of the application of a name; a nil application is `none`. The error, the calls, and the
  -- telemetry configuration as it is left.
  unfoldable pub setup :
      (app : Option Text)
      → Options Core Rest TracingOption
      → Option SetupError × List (SetupCall F C Rest TracingOption Task) × Option (Telemetry Rest)
  setup none opts = (some SetupError.nil_app, [], telemetry_of opts)
  setup (some app_name) opts = elim opts.config [
    | none ↦ (some SetupError.nil_config, [], none)
    | some config ↦
        let done = enable_tracing ops app_name config.telemetry opts.tracing_options in
        elim done.0 [
          | some e ↦ (some (SetupError.tracing e), map traced done.1, done.2)
          | none ↦ (none, map traced done.1 ++ install app_name opts, done.2)
        ]
  ]
