-- ===== src/Errors/Render/Handling.antt =====
-- The handler as a whole: what it writes, audits and hides, and the envelopes that it renders.
use go_platform_kit.Common.{
  ℕ, ◌≡◌, ◌≢◌, ap, sym, ◌∙◌, Bool, true, false, Option, none, some, List, [], Text, text_eq,
  text_beq_iff, text_beq_refl, nat_eq, ◌==◌, arith, Unicode, is_empty, if◌then◌else◌, option_or,
  is_some,
}
use go_platform_kit.Errors.Registry.{Registry}
use go_platform_kit.Errors.Problem.{Problem, Hop, public, with_status}
use go_platform_kit.Errors.Taxonomy.{Framework, GoError, problem, error_code, as_interface}
use go_platform_kit.Errors.Envelope.{new_problem}
use go_platform_kit.Errors.ToProblem.{
  own_problem, normalized, coded_problem, bare_problem, to_problem,
}
use go_platform_kit.Errors.Render.{
  Request, FailureHook, Body, own_headers, trace_thread, rendered, failure_event, body_of, handler,
}
use go_platform_kit.Errors.Render.Laws.{audits, written, per_hook, respond_lem}

module _ (F : Framework) (u : Unicode) (registry : Registry) where
  module _ (marshal : Body → Option Text) (source : Text) (is_public : Bool)
      (hooks : List (Option FailureHook)) (r : Request) (now : ℕ) (err : GoError F) where
    abbrev shown : Problem
    shown = rendered F u registry source r err

    -- For every error the handler writes the encoded envelope, full or public, of the problem that
    -- it renders, and reports success exactly when the encoder does. It calls each hook that is not
    -- nil once, with one event and whether or not another hook panics, if the problem's source is
    -- this service, and else none.
    pub handler_lem :
        (written (handler F u registry marshal source is_public hooks r now (some err)).0
          ≡ marshal (body_of F u registry is_public shown))
        × ((handler F u registry marshal source is_public hooks r now (some err)).1
            ≡ is_some (marshal (body_of F u registry is_public shown)))
        × (audits (handler F u registry marshal source is_public hooks r now (some err)).0 ≡ (
            if shown.source == source
            then per_hook (failure_event F u registry r now shown) hooks
            else []))
    unfolding handler
    handler_lem =
        let (audit, body, done) =
          respond_lem F u registry marshal source is_public hooks r now
            (option_or (as_interface F (own_headers F) err) []) shown in
        (body, done, audit)

  -- The status and title options of a coded error set no source.
  coded_problem-source :
      (err : GoError F) (code : Text) → (coded_problem F u registry err code).source ≡ []
  unfolding coded_problem new_problem with_status
  coded_problem-source err code = ground arith

  own_source :
      (source : Text) (r : Request) (err : GoError F)
      → as_interface F (own_problem F) err ≡ none
      → (rendered F u registry source r err).source ≡ source
  unfolding rendered to_problem bare_problem
  own_source source r err own =
      ground (arith, coded_problem-source err (option_or (as_interface F (error_code F) err) []))

  coded_problem-trace_id :
      (err : GoError F) (code : Text) → (coded_problem F u registry err code).trace_id ≡ []
  unfolding coded_problem new_problem with_status
  coded_problem-trace_id err code = ground arith

  -- An error that holds no problem is rendered with this service as its source, and with the id
  -- that the request is found by.
  pub rendered_own :
      (source : Text) (r : Request) (err : GoError F)
      → as_interface F (own_problem F) err ≡ none
      → ((rendered F u registry source r err).source ≡ source)
        × ((rendered F u registry source r err).trace_id ≡ trace_thread F u registry r)
  unfolding rendered to_problem bare_problem
  rendered_own source r err own =
      let code = option_or (as_interface F (error_code F) err) [] in
      (own_source source r err own, ground (arith, coded_problem-trace_id err code))

  relayed_source :
      (source : Text) (r : Request) (err : GoError F) (p : Problem)
      → as_interface F (own_problem F) err ≡ some p
      → is_empty p.source ≡ false
      → (rendered F u registry source r err).source ≡ p.source
  unfolding rendered to_problem normalized
  relayed_source source r err p down full = ground arith

  -- An error that holds no problem is audited by the service that handles it: each hook that is not
  -- nil gets the event of the problem that is rendered, once.
  pub audit_of_own :
      (marshal : Body → Option Text) (source : Text) (is_public : Bool)
      (hooks : List (Option FailureHook)) (r : Request) (now : ℕ) (err : GoError F)
      → as_interface F (own_problem F) err ≡ none
      → audits (handler F u registry marshal source is_public hooks r now (some err)).0
        ≡ per_hook (failure_event F u registry r now (rendered F u registry source r err)) hooks
  audit_of_own marshal source is_public hooks r now err own =
      let (_, _, audit) = handler_lem marshal source is_public hooks r now err in
      let e = own_source source r err own in audit ∙ ground (arith, text_beq_refl source)

  -- An error that holds a problem which names another service as its source, wherever the problem
  -- stands in the error, is audited by no hook.
  pub audit_of_relayed :
      (marshal : Body → Option Text) (source : Text) (is_public : Bool)
      (hooks : List (Option FailureHook)) (r : Request) (now : ℕ) (err : GoError F) (p : Problem)
      → as_interface F (own_problem F) err ≡ some p
      → is_empty p.source ≡ false
      → p.source ≢ source
      → audits (handler F u registry marshal source is_public hooks r now (some err)).0 ≡ []
  audit_of_relayed marshal source is_public hooks r now err p down full other =
      let (_, _, audit) = handler_lem marshal source is_public hooks r now err in
      let e = relayed_source source r err p down full in
      audit ∙ ground (arith, text_beq_iff p.source source)

  public-rendered :
      (source : Text) (r : Request) (p : Problem) (source' detail' : Text) (chain' : List Hop)
      → p.detail_public ≡ false
      → public (
          rendered F u registry source r
            (problem (record p { source = source'; detail = detail'; chain = chain' })))
        ≡ public (rendered F u registry source r (problem p))
  unfolding public rendered to_problem normalized as_interface own_problem
  public-rendered source r p source' detail' chain' hidden = rw hidden

  -- At the public boundary the body does not depend on the source, the hop chain and a detail that
  -- is not marked public of the problem that is rendered.
  pub boundary_hides :
      (marshal : Body → Option Text) (source : Text) (hooks : List (Option FailureHook))
      (r : Request) (now : ℕ) (p : Problem) (source' detail' : Text) (chain' : List Hop)
      → p.detail_public ≡ false
      → written
          (handler F u registry marshal source true hooks r now
            (some (problem (record p { source = source'; detail = detail'; chain = chain' })))).0
        ≡ written (handler F u registry marshal source true hooks r now (some (problem p))).0
  boundary_hides marshal source hooks r now p source' detail' chain' hidden =
      let (other, _, _) =
        handler_lem marshal source true hooks r now
          (problem (record p { source = source'; detail = detail'; chain = chain' })) in
      let (this, _, _) = handler_lem marshal source true hooks r now (problem p) in
      other
      ∙ ap (λ b. marshal (Body.public_body b))
          (public-rendered source r p source' detail' chain' hidden)
      ∙ sym this
