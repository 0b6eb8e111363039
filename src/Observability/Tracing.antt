-- ===== src/Observability/Tracing.antt =====
-- observability/otel.go and observability/httpclient.go. `opentelemetry.Use`, the task list of the
-- application and the wrapper of a transport are parameters. A result records what is called.
use go_platform_kit.Common.{
  Option, none, some, List, [], ◌∷◌, Text, is_empty, if◌then◌else◌, option_or,
}
use go_platform_kit.Broker.Publish.{Reply}
use go_platform_kit.Config.{Telemetry}

pub data TracingError : Type 0 where
  use_failed : Text → TracingError
  add_task_failed : Text → TracingError

pub data TracingCall (Rest TracingOption Task : Type 0) : Type 0 where
  use_tracing : Telemetry Rest → List TracingOption → TracingCall Rest TracingOption Task
  add_task : Task → TracingCall Rest TracingOption Task

-- What is called of OpenTelemetry and of the application, and the rest of a new configuration.
pub record TracingOps (Rest TracingOption Task : Type 0) : Type 0 where
  pub use_otel : Telemetry Rest → List TracingOption → Reply Task
  pub add_task : Task → Reply (Unit {0})
  pub new_rest : Rest

module _ {Rest TracingOption Task : Type 0} (ops : TracingOps Rest TracingOption Task) where
  -- The configuration that is used: a new one for nil, and the application's name where no service
  -- name is set.
  unfoldable pub telemetry_for : (app_name : Text) → Option (Telemetry Rest) → Telemetry Rest
  telemetry_for app_name cfg =
      let c = option_or cfg (record { service_name = []; rest = ops.new_rest }) in
      record c { service_name = if is_empty c.service_name then app_name else c.service_name }

  -- A configuration that is given is changed in place; nil stays nil.
  unfoldable pub telemetry_left :
      (app_name : Text) → Option (Telemetry Rest) → Option (Telemetry Rest)
  telemetry_left app_name none = none
  telemetry_left app_name (some cfg) = some (telemetry_for app_name (some cfg))

  -- `EnableTracing`: the error, the calls, and the configuration as it is left.
  unfoldable pub enable_tracing :
      (app_name : Text)
      → Option (Telemetry Rest)
      → List TracingOption
      → Option TracingError × List (TracingCall Rest TracingOption Task) × Option (Telemetry Rest)
  enable_tracing app_name cfg opts =
      let c = telemetry_for app_name cfg in
      let left = telemetry_left app_name cfg in
      elim (ops.use_otel c opts) [
        | Reply.failed e ↦
            (some (TracingError.use_failed e), TracingCall.use_tracing c opts ∷ [], left)
        | Reply.ok t ↦ elim (ops.add_task t) [
          | Reply.failed e ↦ (
            some (TracingError.add_task_failed e),
            TracingCall.use_tracing c opts ∷ TracingCall.add_task t ∷ [],
            left,
          )
          | Reply.ok _ ↦ (none, TracingCall.use_tracing c opts ∷ TracingCall.add_task t ∷ [], left)
        ]
      ]

-- `InstrumentedTransport`: the default transport stands for nil.
unfoldable pub instrumented_transport :
    {T : Type 0} → (wrap : T → T) (default_transport : T) → Option T → T
instrumented_transport wrap default_transport base = wrap (option_or base default_transport)

-- A client's transport, which may be nil, and the rest of it.
pub record HttpClient (T Rest : Type 0) : Type 0 where
  pub transport : Option T
  pub rest : Rest

-- `InstrumentHTTPClient`: the client that it returns, which is the one that is given, changed.
unfoldable pub instrument_http_client :
    {T Rest : Type 0}
    → (wrap : T → T) (default_transport : T) (new_rest : Rest) → Option (HttpClient T Rest)
    → HttpClient T Rest
instrument_http_client wrap default_transport new_rest c =
    let client : HttpClient _ _ = option_or c (record { transport = none; rest = new_rest }) in
    record client {
      transport = some (instrumented_transport wrap default_transport client.transport);
    }
