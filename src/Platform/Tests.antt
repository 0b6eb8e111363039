-- ===== src/Platform/Tests.antt =====
-- `Setup` of a service, and one failed request.
use go_platform_kit.Common.{
  ℕ, ◌≡◌, refl, true, Option, none, some, List, [], ◌∷◌, Text, bytes, is_empty, if◌then◌else◌, All,
}
use go_platform_kit.Config.{new}
use go_platform_kit.Broker.Publish.{Reply, ok, failed}
use go_platform_kit.Correlation.{valid_id}
use go_platform_kit.Correlation.Tests.{
  azugo_request, azugo_request-RequestContextLaws, inbound, nothing, own_valid,
}
use go_platform_kit.Errors.Taxonomy.{GoError, internal, foreign, as_interface}
use go_platform_kit.Errors.ToProblem.{own_problem}
use go_platform_kit.Errors.Render.{Body, done}
use go_platform_kit.Errors.Tests.{ascii, azugo, registry}
use go_platform_kit.Observability.Tracing.{
  TracingOps, enable_tracing, telemetry_for, telemetry_left,
}
use go_platform_kit.Observability.Redaction.{
  Field, other, RedactCore, effective_policy, redacting, redact_log, redact_withs,
}
use go_platform_kit.Observability.Redaction.Laws.{IsSafe}
use go_platform_kit.Observability.Tests.{policy, core_ops, core_ops-CoreLaws, fields, kept, logged}
use go_platform_kit.Platform.Logging.{logger_of, setup-logger, setup-IsSafe}
use go_platform_kit.Platform.{Options, setup, ErrorHandler}
use go_platform_kit.Platform.Thread.{result, handler_of, Served, setup-Served}

-- A tracer that wants a service name.
abbrev tracer : TracingOps (Unit {0}) (Unit {0}) Text
tracer = record {
  use_otel =
      λ c opts. if is_empty c.service_name then failed (bytes "no name") else ok c.service_name;
  add_task = λ t. ok tt;
  new_rest = tt;
}

abbrev options : Options (Unit {0}) (Unit {0}) (Unit {0})
options = record {
  config = some (new tt);
  redaction = none;
  public_errors = true;
  tracing_options = [];
  on_failure = some (λ _. done);
}

abbrev encode : Body → Option Text
encode (Body.full_body p) = some p.code
encode (Body.public_body p) = some p.title

abbrev accepts : (Unit {0} → RedactCore (Unit {0})) → Reply (Unit {0})
accepts wrap = ok tt

is_set_up : (result azugo ascii encode (Unit {0}) tracer accepts (bytes "bff") options).0 ≡ none
unfolding setup enable_tracing telemetry_for telemetry_left new bytes
is_set_up = refl

abbrev broken : GoError azugo
broken = internal (foreign (bytes "disk", 507))

broken_own : as_interface azugo (own_problem azugo) broken ≡ none
unfolding as_interface own_problem
broken_own = refl

setup-Served_example :
    (h : ErrorHandler azugo) × (handler_of
        (result azugo ascii encode (Unit {0}) tracer accepts (bytes "bff") options).1
      ≡ some h)
    × ((cid : Text) × (valid_id cid ≡ true)
        × Served azugo ascii encode
            (Unit {0})
            tracer
            accepts
            (bytes "bff")
            options
            azugo_request
            azugo_request-RequestContextLaws
            registry
            (bytes "fresh")
            inbound
            nothing
            (bytes "/sign")
            (bytes "POST")
            7
            broken
            cid
            h)
setup-Served_example =
    setup-Served azugo ascii encode (Unit {0}) tracer accepts (bytes "bff") options azugo_request
      azugo_request-RequestContextLaws registry (bytes "fresh") inbound nothing (bytes "/sign")
      (bytes "POST") 7 broken is_set_up own_valid broken_own

-- An application that takes the logger, and one that does not.
abbrev takes : (List (Field ℕ) → RedactCore (List (Field ℕ))) → Reply (Unit {0})
takes wrap = ok tt

abbrev refuses : (List (Field ℕ) → RedactCore (List (Field ℕ))) → Reply (Unit {0})
refuses wrap = failed (bytes "closed")

-- The same service with a policy of its own.
abbrev strict : Options (Unit {0}) (Unit {0}) (Unit {0})
strict = record options { redaction = some policy }

strict_set_up : (setup azugo ascii encode tracer takes (some (bytes "bff")) strict).0 ≡ none
unfolding setup enable_tracing telemetry_for telemetry_left new bytes
strict_set_up = refl

setup-logger_example :
    ((setup azugo ascii encode tracer refuses (some (bytes "bff")) strict).0 ≡ none)
    × (logger_of (setup azugo ascii encode tracer takes (some (bytes "bff")) strict).1 []
        ≡ some (redacting (some policy) []))
setup-logger_example =
    setup-logger azugo ascii encode tracer takes (some (bytes "bff")) strict core_ops
      core_ops-CoreLaws [] refuses strict_set_up

safely_logged :
    redact_log ascii core_ops
      (redact_withs ascii core_ops
        (redacting (some policy) [])
        ((record { key = bytes "status"; value = other 200 } ∷ []) ∷ []))
      1
      fields
    ≡ some kept
unfolding redacting effective_policy
safely_logged = logged

put_in :
    logger_of (setup azugo ascii encode tracer takes (some (bytes "bff")) strict).1 []
    ≡ some (redacting (some policy) [])
put_in =
    (setup-logger azugo ascii encode tracer takes (some (bytes "bff")) strict core_ops
      core_ops-CoreLaws [] takes strict_set_up).1

setup-IsSafe_example :
    (takes (redacting (some policy)) ≡ ok tt)
    × All (IsSafe ascii (effective_policy (some policy))) kept
setup-IsSafe_example =
    setup-IsSafe azugo ascii encode tracer takes (some (bytes "bff")) strict core_ops
      core_ops-CoreLaws [] (redacting (some policy) [])
      ((record { key = bytes "status"; value = other 200 } ∷ []) ∷ []) 1 fields kept strict_set_up
      put_in (λ gs h. h) safely_logged
