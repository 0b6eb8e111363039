-- ===== src/Errors/Journey.antt =====
-- One failure on its way through several services: each renders the error, the next one decodes the
-- body, relays it and renders it again.
pub mod Arrival
use go_platform_kit.Common.{ℕ, ◌≡◌, ◌≢◌, false, Option, some, List, ◌++◌, Text, Unicode}
use go_platform_kit.Errors.Registry.{Registry}
use go_platform_kit.Errors.Problem.{Problem}
use go_platform_kit.Errors.Taxonomy.{Framework, GoError, as_interface}
use go_platform_kit.Errors.Envelope.{parse_problem}
use go_platform_kit.Errors.Relay.{relay}
use go_platform_kit.Errors.ToProblem.{own_problem}
use go_platform_kit.Errors.Render.{Request, FailureEvent, FailureHook, Body, rendered, handler}
use go_platform_kit.Errors.Render.Laws.{audits, written}

-- What a service brings to the rendering of one error.
pub record Service (F : Framework) : Type 0 where
  pub name : Text
  pub registry : Registry
  pub hooks : List (Option FailureHook)
  pub request : Request
  pub now : ℕ
  pub error : GoError F

module _ (F : Framework) (u : Unicode) (marshal : Body → Option Text)
    (from_json : Text → Option Problem) where
  abbrev pub shown : Service F → Problem
  shown s = rendered F u s.registry s.name s.request s.error

  -- What the service writes, and what it audits, inside the boundary.
  abbrev pub body_at : Service F → Option Text
  body_at s =
      written (handler F u s.registry marshal s.name false s.hooks s.request s.now (some s.error)).0

  abbrev pub audited_at : Service F → List FailureEvent
  audited_at s =
      audits (handler F u s.registry marshal s.name false s.hooks s.request s.now (some s.error)).0

  -- Services after the first, each of another name. A service decodes what the one before wrote,
  -- which is read back but for the mark of a public detail, relays it under an outer status, and
  -- returns an error that holds the result. The index is the last service and what was audited.
  pub data Journey (first : Service F) : Service F → List FailureEvent → Type 0 where
    origin : Journey first first (audited_at first)
    hop :
        {s : Service F} {events : List FailureEvent}
        → Journey first s events
        → (next : Service F) (body : Text) (outer_status : ℕ) → next.name ≢ first.name
        → body_at s ≡ some body
        → parse_problem from_json body ≡ some (record (shown s) { detail_public = false })
        → as_interface F (own_problem F) next.error
          ≡ some (relay u next.registry F (parse_problem from_json body) next.name outer_status)
        → Journey first next (events ++ audited_at next)
