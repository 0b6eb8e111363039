-- ===== src/Platform/Thread.antt =====
-- One failed request behind what `Setup` installed: the middleware, and then the error handler.
use go_platform_kit.Common.{
  ℕ, ◌≡◌, inl, inr, refl, ◌∙◌, true, Option, none, some, List, [], ◌∷◌, Text, text_eq, Unicode,
  is_empty, lookup, arith, if◌then◌else◌, Option-cases,
}
use go_platform_kit.Broker.Publish.{Reply}
use go_platform_kit.Config.{Telemetry}
use go_platform_kit.Propagation.{AnyValue, header_correlation_id}
use go_platform_kit.Correlation.{
  valid_id, Inbound, Bound, middleware, from_context, id, RequestContext, request_app_instance_id,
}
use go_platform_kit.Correlation.Thread.{RequestContextLaws, own_id, Threaded, middleware-Threaded}
use go_platform_kit.Errors.Registry.{Registry}
use go_platform_kit.Errors.Problem.{Problem}
use go_platform_kit.Errors.Taxonomy.{Framework, GoError, as_interface}
use go_platform_kit.Errors.ToProblem.{own_problem}
use go_platform_kit.Errors.Render.{
  Request, FailureEvent, Body, body_of, failure_event, trace_thread, rendered, handler,
}
use go_platform_kit.Errors.Render.Laws.{audits, written, per_hook}
use go_platform_kit.Errors.Render.Handling.{handler_lem, audit_of_own, rendered_own}
use go_platform_kit.Observability.Redaction.{RedactCore}
use go_platform_kit.Observability.Tracing.{TracingOps}
use go_platform_kit.Platform.{
  Options, SetupError, SetupCall, traced, replace_logger, use_middleware, set_error_handler,
  ErrorHandler, hooks_of, setup,
}
use go_platform_kit.Platform.Laws.{
  Ends, without_app, without_config, no_tracing, no_task, ready, setup-Ends,
}

module _ {F : Framework} {C Rest TracingOption Task : Type 0} where
  -- The middlewares that the calls install, run in their order.
  unfoldable pub bound_by :
      List (SetupCall F C Rest TracingOption Task) → Text → Inbound → Bound → Bound
  bound_by [] new_id r before = before
  bound_by (use_middleware m ∷ calls) new_id r before = bound_by calls new_id r (m new_id r before)
  bound_by (traced _ ∷ calls) new_id r before = bound_by calls new_id r before
  bound_by (replace_logger _ _ ∷ calls) new_id r before = bound_by calls new_id r before
  bound_by (set_error_handler _ ∷ calls) new_id r before = bound_by calls new_id r before

  -- The handler that was installed last.
  unfoldable pub handler_of : List (SetupCall F C Rest TracingOption Task) → Option (ErrorHandler F)
  handler_of [] = none
  handler_of (set_error_handler h ∷ calls) = elim (handler_of calls) [
    | none ↦ some h
    | some later ↦ some later
  ]
  handler_of (traced _ ∷ calls) = handler_of calls
  handler_of (replace_logger _ _ ∷ calls) = handler_of calls
  handler_of (use_middleware _ ∷ calls) = handler_of calls

-- What the error handler reads of a request: the ids through the accessors, and the route.
unfoldable pub request_of :
    RequestContext → Inbound → List (Text × AnyValue) → (path method : Text) → Request
request_of framework r values path method =
    let ids = from_context (some values) r.trace in
    record {
      correlation_id = ids.correlation_id;
      trace_id = ids.trace_id;
      app_instance_id = request_app_instance_id framework (some values);
      router_path = path;
      method = method;
    }

-- The trace id of a request, where it has one that is not empty, or else its correlation id.
abbrev pub thread_of : Inbound → Text → Text
thread_of r cid = elim r.trace [ none ↦ cid | some ids ↦ if is_empty ids.0 then cid else ids.0 ]

module _ (F : Framework) (u : Unicode) (marshal : Body → Option Text) (C : Type 0)
    {Core Rest TracingOption Task : Type 0} (ops : TracingOps Rest TracingOption Task)
    (replace : (C → RedactCore C) → Reply (Unit {0})) (name : Text)
    (opts : Options Core Rest TracingOption) where
  abbrev pub result :
      Option SetupError × List (SetupCall F C Rest TracingOption Task) × Option (Telemetry Rest)
  result = setup F u marshal ops replace (some name) opts

  abbrev installed : ErrorHandler F
  installed registry r now err =
      handler F u registry marshal name opts.public_errors (hooks_of opts.on_failure) r now err

  -- The middleware and the handler are in place.
  record IsInstalled (calls : List (SetupCall F C Rest TracingOption Task)) : Type 0 where
    binds :
        (new_id : Text) (r : Inbound) (before : Bound)
        → bound_by calls new_id r before ≡ middleware u new_id r before
    handles : handler_of calls ≡ some installed

  Ends-IsInstalled :
      (r : Option SetupError
        × List (SetupCall F C Rest TracingOption Task)
        × Option (Telemetry Rest))
      → Ends F u marshal ops replace (some name) opts r
      → r.0 ≡ none
      → IsInstalled r.1
  unfolding bound_by handler_of
  Ends-IsInstalled r (without_app e same) done = absurd (ground arith)
  Ends-IsInstalled r (without_config n e c same) done = absurd (ground arith)
  Ends-IsInstalled r (no_tracing n config e named configured bad same) done = absurd (ground arith)
  Ends-IsInstalled r (no_task n config t e named configured good bad same) done =
      absurd (ground arith)
  Ends-IsInstalled r (ready n config t named configured good added same) done =
      let this : n ≡ name = ground arith in
      rw (same, this) (record { binds = λ new_id q before. refl; handles = refl })

  module _ (framework : RequestContext) (context : RequestContextLaws framework)
      (registry : Registry) (new_id : Text) (r : Inbound) (before : Bound) (path method : Text)
      (now : ℕ) (err : GoError F) where
    -- The request after the middleware, and as the error handler reads it.
    abbrev pub after : Bound
    after = bound_by result.1 new_id r before

    abbrev pub request : Request
    request = request_of framework r after.user_values path method

    -- What the handler `h` does, if the request has the correlation id `cid`: the body is that of a
    -- problem whose source is this service, and each hook gets one event.
    pub record Served (cid : Text) (h : ErrorHandler F) : Type 0 where
      pub echoed : lookup header_correlation_id after.response_header ≡ some cid
      pub problem : Problem
      pub from_here : problem.source ≡ name
      pub thread : problem.trace_id ≡ thread_of r cid
      pub body :
          written (h registry request now (some err)).0
          ≡ marshal (body_of F u registry opts.public_errors problem)
      pub event : FailureEvent
      pub service : event.service ≡ name
      pub correlation_id : event.correlation_id ≡ cid
      pub audited :
          audits (h registry request now (some err)).0 ≡ per_hook event (hooks_of opts.on_failure)

    request-thread :
        (values : List (Text × AnyValue)) (cid : Text)
        → id (some values) ≡ cid
        → ((request_of framework r values path method).correlation_id ≡ cid)
          × (trace_thread F u registry (request_of framework r values path method)
              ≡ thread_of r cid)
    unfolding request_of from_context trace_thread
    request-thread values cid bound = elim (Option-cases r.trace) [
      | inl untraced ↦ ground arith
      | inr (ids, traced_as) ↦ ground arith
    ]

    installed-Served :
        (cid : Text)
        → after ≡ middleware u new_id r before
        → Threaded framework context u new_id r before cid
        → as_interface F (own_problem F) err ≡ none
        → Served cid installed
    unfolding failure_event
    installed-Served cid same threaded own =
        let (source, found_by) = rendered_own F u registry name request err own in
        let here : id (some after.user_values) ≡ cid = rw same threaded.bound in
        let (correlated, thread) = request-thread after.user_values cid here in
        let p = rendered F u registry name request err in
        record {
          echoed = rw same threaded.echoed;
          problem = p;
          from_here = source;
          thread = found_by ∙ thread;
          body =
              (handler_lem F u registry marshal name opts.public_errors (hooks_of opts.on_failure)
                request now err).0;
          event = failure_event F u registry request now p;
          service = source;
          correlation_id = correlated;
          audited =
              audit_of_own F u registry marshal name opts.public_errors (hooks_of opts.on_failure)
                request now err own;
        }

    -- With a framework whose request, as a context, reads its user values: once `Setup` of a named
    -- application has succeeded, an error handler is installed, and for each request with a usable id
    -- of its own that then fails with an error that holds no problem, there is one valid correlation
    -- id that the response's header echoes and each failure hook gets, and the body is that of a
    -- problem of this service whose trace id is the request's trace id or else this correlation id.
    pub setup-Served :
        result.0 ≡ none
        → valid_id (own_id new_id r) ≡ true
        → as_interface F (own_problem F) err ≡ none
        → (h : ErrorHandler F) × (handler_of result.1 ≡ some h)
          × ((cid : Text) × (valid_id cid ≡ true) × Served cid h)
    setup-Served done own_valid own =
        let there =
          Ends-IsInstalled result (setup-Ends F u marshal ops replace (some name) opts) done in
        let (cid, threaded, valid, _) =
          middleware-Threaded framework context u new_id r before own_valid in
        (
          installed,
          there.handles,
          (cid, valid, installed-Served cid (there.binds new_id r before) threaded own),
        )
