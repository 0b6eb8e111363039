-- ===== src/Errors/Journey/Arrival.antt =====
-- What arrives of a failure that goes through several services, and what was audited on its way.
use go_platform_kit.Common.{
  ℕ, ◌≤◌, ◌≡◌, ◌≢◌, refl, sym, ap, ◌∙◌, false, Option, none, some, List, [], ◌∷◌, ◌++◌, Text, arith,
  Unicode, is_empty, length, append-nil,
}
use go_platform_kit.Errors.Problem.{Problem, max_chain_hops}
use go_platform_kit.Errors.Taxonomy.{Framework, as_interface}
use go_platform_kit.Errors.Relay.{relay, seed_chain, own_hop}
use go_platform_kit.Errors.Relay.Chain.{
  Keeps, relay-Keeps, relay-chain, relay_bounded, root_of, root_of_chain,
}
use go_platform_kit.Errors.ToProblem.{own_problem}
use go_platform_kit.Errors.Render.{FailureEvent, Body, trace_thread, failure_event}
use go_platform_kit.Errors.Render.Laws.{per_hook}
use go_platform_kit.Errors.Render.Handling.{audit_of_own, audit_of_relayed, rendered_own}
use go_platform_kit.Errors.Render.Coded.{Titled}
use go_platform_kit.Errors.Render.Full.{IsFull, rendered-Same, own_chain, own-IsFull}
use go_platform_kit.Errors.Journey.{Service, Journey, origin, hop, shown, audited_at}

module _ (F : Framework) (u : Unicode) (marshal : Body → Option Text)
    (from_json : Text → Option Problem) where
  module _ (first : Service F) where
    -- What has come through at the service `s`.
    pub record Arrived (s : Service F) (events : List FailureEvent) : Type 0 where
      pub keeps :
          Keeps u first.registry F
            (shown F u marshal from_json first)
            (shown F u marshal from_json s)
      pub bounded : length (shown F u marshal from_json s).chain ≤ max_chain_hops
      pub audited :
          events
          ≡ per_hook
              (failure_event F u first.registry first.request first.now
                (shown F u marshal from_json first))
              first.hooks

    Keeps-IsFull :
        (p : Problem)
        → Keeps u first.registry F (shown F u marshal from_json first) p
        → IsFull (shown F u marshal from_json first)
        → IsFull p
    Keeps-IsFull p k (code, title, source, thread) =
        (rw k.code code, rw k.title title, rw k.source source, rw k.trace_id thread)

    module _ (s next : Service F) (outer_status : ℕ) where
      -- What the next service decodes, and what it returns.
      abbrev decoded : Problem
      decoded = record (shown F u marshal from_json s) { detail_public = false }

      abbrev relayed : Problem
      relayed = relay u next.registry F (some decoded) next.name outer_status

      decoded-root : root_of decoded ≡ root_of (shown F u marshal from_json s)
      unfolding seed_chain
      decoded-root = refl

      next-Keeps :
          as_interface F (own_problem F) next.error ≡ some relayed
          → IsFull (shown F u marshal from_json first)
          → Keeps u first.registry F
              (shown F u marshal from_json first)
              (shown F u marshal from_json s)
          → Keeps u first.registry F
              (shown F u marshal from_json first)
              (shown F u marshal from_json next)
            × (length (shown F u marshal from_json next).chain ≤ max_chain_hops)
      next-Keeps own full before =
          let k = relay-Keeps u next.registry F decoded next.name outer_status in
          let (mid, e, _) = relay-chain u next.registry F decoded next.name outer_status in
          let (code, title, source, thread) =
            Keeps-IsFull (shown F u marshal from_json s) before full in
          let same =
            rendered-Same F u next.registry next.name next.request next.error relayed own
              (rw k.code code, rw k.title title, rw k.source source, rw k.trace_id thread) in
          (
            record {
              code = same.code ∙ (k.code ∙ before.code);
              source = same.source ∙ (k.source ∙ before.source);
              trace_id = same.trace_id ∙ (k.trace_id ∙ before.trace_id);
              title = same.title ∙ (k.title ∙ before.title);
              detail = same.detail ∙ (k.detail ∙ before.detail);
              root =
                  root_of_chain (shown F u marshal from_json next) (root_of decoded)
                    (mid ++ own_hop decoded next.name outer_status ∷ []) (same.chain ∙ e)
                  ∙ (decoded-root ∙ before.root);
            },
            rw same.chain (relay_bounded u next.registry F decoded next.name outer_status),
          )

      next-silent :
          as_interface F (own_problem F) next.error ≡ some relayed
          → is_empty first.name ≡ false
          → (shown F u marshal from_json s).source ≡ first.name
          → next.name ≢ first.name
          → audited_at F u marshal from_json next ≡ []
      next-silent own named from other =
          let k = relay-Keeps u next.registry F decoded next.name outer_status in
          let source : relayed.source ≡ first.name = k.source ∙ from in
          audit_of_relayed F u next.registry marshal next.name false next.hooks next.request
            next.now next.error relayed own (rw source named) (λ e. other (sym e ∙ source))

    start :
        as_interface F (own_problem F) first.error ≡ none
        → Arrived first (audited_at F u marshal from_json first)
    start own = record {
      keeps = record {
        code = refl;
        source = refl;
        trace_id = refl;
        title = refl;
        detail = refl;
        root = refl;
      };
      bounded =
          rw (own_chain F u first.registry first.name first.request first.error own) (omega arith);
      audited =
          audit_of_own F u first.registry marshal first.name false first.hooks first.request
            first.now first.error own;
    }

    -- However many services of other names decode, relay and render it: an error that comes from a
    -- service with a name, in which no reason is registered with an empty title, as one that holds no
    -- problem, for a request with an id, arrives with the code, the title, the detail, the source,
    -- the trace id and the root hop that it set out with and at most eight hops; and it has been
    -- audited where it came from, once for each hook that is not nil, and nowhere else.
    pub Journey-Arrived :
        (last : Service F) (events : List FailureEvent)
        → Titled F u first.registry
        → is_empty first.name ≡ false
        → is_empty (trace_thread F u first.registry first.request) ≡ false
        → as_interface F (own_problem F) first.error ≡ none
        → Journey F u marshal from_json first last events
        → Arrived last events
    Journey-Arrived last events titled named found own origin = start own
    Journey-Arrived last events titled named found own
          (hop {s} {events = earlier} journey next body outer_status other wrote read holds) =
        let full =
          own-IsFull F u first.registry first.name first.request first.error titled named found
            own in
        let (source, _) =
          rendered_own F u first.registry first.name first.request first.error own in
        let before = Journey-Arrived s earlier titled named found own journey in
        let here : as_interface F (own_problem F) next.error ≡ some (relayed s next outer_status) =
          rw read at holds in
        let (keeps, bounded) = next-Keeps s next outer_status here full before.keeps in
        let silent =
          next-silent s next outer_status here named (before.keeps.source ∙ source) other in
        record {
          keeps = keeps;
          bounded = bounded;
          audited = ap (λ es. earlier ++ es) silent ∙ (append-nil earlier ∙ before.audited);
        }
