-- ===== src/Platform/Logging.antt =====
-- What the logger that `Setup` leaves may write.
use go_platform_kit.Common.{
  ℕ, ◌≡◌, inl, inr, Option-cases, refl, ◌∙◌, sym, Option, none, some, List, [], ◌∷◌, Text, Unicode,
  arith, All,
}
use go_platform_kit.Broker.Publish.{Reply, ok, failed}
use go_platform_kit.Config.{Telemetry}
use go_platform_kit.Errors.Taxonomy.{Framework}
use go_platform_kit.Errors.Render.{Body}
use go_platform_kit.Observability.Redaction.{
  Field, Core, RedactCore, effective_policy, redacting, redact_log, redact_withs,
}
use go_platform_kit.Observability.Redaction.Laws.{CoreLaws, IsSafe, IsSafeCore, redact_log-IsSafe}
use go_platform_kit.Observability.Tracing.{TracingOps, enable_tracing}
use go_platform_kit.Platform.{
  Options, SetupError, SetupCall, traced, replace_logger, use_middleware, set_error_handler,
  install, setup,
}
use go_platform_kit.Platform.Laws.{
  Ends, without_app, without_config, no_tracing, no_task, ready, setup-Ends,
}

-- The wrapping over a core, if the application has taken it.
abbrev pub taken : {C : Type 0} → (C → RedactCore C) → Reply (Unit {0}) → C → Option (RedactCore C)
taken wrap (ok _) c = some (wrap c)
taken wrap (failed e) c = none

-- The logger that was last put in with a nil error, over the core that the logger had; `none` if there
-- is none.
unfoldable pub logger_of :
    {F : Framework} {C Rest TracingOption Task : Type 0}
    → List (SetupCall F C Rest TracingOption Task)
    → C
    → Option (RedactCore C)
logger_of [] c = none
logger_of (replace_logger wrap reply ∷ calls) c = elim (logger_of calls c) [
  | none ↦ taken wrap reply c
  | some later ↦ some later
]
logger_of (traced _ ∷ calls) c = logger_of calls c
logger_of (use_middleware _ ∷ calls) c = logger_of calls c
logger_of (set_error_handler _ ∷ calls) c = logger_of calls c

module _ (F : Framework) (u : Unicode) (marshal : Body → Option Text)
    {C Core' Rest TracingOption Task Value : Type 0} (tracing : TracingOps Rest TracingOption Task)
    (replace : (C → RedactCore C) → Reply (Unit {0})) (app : Option Text)
    (opts : Options Core' Rest TracingOption) (zap : Core Value C) (laws : CoreLaws zap) where
  abbrev pub result :
      Option SetupError × List (SetupCall F C Rest TracingOption Task) × Option (Telemetry Rest)
  result = setup F u marshal tracing replace app opts

  -- What the application made of the redacting logger.
  abbrev pub reply : Reply (Unit {0})
  reply = replace (redacting opts.redaction)

  Ends-logger :
      (c : C)
      (r : Option SetupError
        × List (SetupCall F C Rest TracingOption Task)
        × Option (Telemetry Rest))
      → Ends F u marshal tracing replace app opts r
      → r.0 ≡ none
      → logger_of r.1 c ≡ taken (redacting opts.redaction) reply c
  unfolding logger_of
  Ends-logger c r (without_app e same) done = absurd (ground arith)
  Ends-logger c r (without_config n e d same) done = absurd (ground arith)
  Ends-logger c r (no_tracing n config e named configured bad same) done = absurd (ground arith)
  Ends-logger c r (no_task n config t e named configured good bad same) done = absurd (ground arith)
  Ends-logger c r (ready n config t named configured good added same) done = rw same refl

  taken_only :
      (reply : Reply (Unit {0})) (c : C) (logger : RedactCore C)
      → taken (redacting opts.redaction) reply c ≡ some logger
      → (reply ≡ ok tt) × (redacting opts.redaction c ≡ logger)
  taken_only (ok tt) c logger e = (refl, cc)
  taken_only (failed x) c logger e = absurd (ground arith)

  -- What `ReplaceLogger` returns makes no difference to the error of `Setup`.
  setup-unaware :
      (replace' : (C → RedactCore C) → Reply (Unit {0}))
      → (setup F u marshal tracing replace' app opts).0 ≡ result.0
  unfolding setup install enable_tracing
  setup-unaware replace' = elim (Option-cases app) [
    | inl no_app ↦ ground arith
    | inr (name, named) ↦ elim (Option-cases opts.config) [
      | inl no_config ↦ ground arith
      | inr (config, configured) ↦ ground arith
    ]
  ]

  -- Once `Setup` has succeeded, it would have succeeded with any other reply of `ReplaceLogger` too;
  -- and the logger that it has put in is the redacting one over the former core if `ReplaceLogger`
  -- returned nil for it, and none if it returned an error.
  pub setup-logger :
      (c : C) (replace' : (C → RedactCore C) → Reply (Unit {0}))
      → result.0 ≡ none
      → ((setup F u marshal tracing replace' app opts).0 ≡ none)
        × (logger_of result.1 c ≡ taken (redacting opts.redaction) reply c)
  setup-logger c replace' done = (
    setup-unaware replace' ∙ done,
    Ends-logger c result (setup-Ends F u marshal tracing replace app opts) done,
  )

  -- Where `Setup` has succeeded and a logger was put in, `ReplaceLogger` returned nil; and over a
  -- core that adds the fields of `With` to every entry and whose own fields are safe: however a
  -- logger is derived from the one put in and whatever it is given, each field of a line that it
  -- writes is safe. Safe is by the policy of the options, or by the default one where they name
  -- none: the key holds no forbidden part, and the value is masked if the key holds a part to mask.
  pub setup-IsSafe :
      (c : C) (logger : RedactCore C) (baked : List (List (Field Value))) (level : ℕ)
      (fs out : List (Field Value))
      → result.0 ≡ none
      → logger_of result.1 c ≡ some logger
      → IsSafeCore u zap laws (effective_policy opts.redaction) c
      → redact_log u zap (redact_withs u zap logger baked) level fs ≡ some out
      → (reply ≡ ok tt) × All (IsSafe u (effective_policy opts.redaction)) out
  unfolding redacting
  setup-IsSafe c logger baked level fs out done put safe written =
      let (took, here) = taken_only reply c logger (sym (setup-logger c replace done).1 ∙ put) in
      (
        took,
        redact_log-IsSafe u zap laws (redacting opts.redaction c) baked level fs out safe
            (rw here written),
      )
