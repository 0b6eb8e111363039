-- ===== src/Errors/Render.antt =====
-- errors/render.go: `Handler` and what it calls. A request is the ids that the correlation model
-- bound to it and its route. The result of the handler is what it does, in order, and whether it
-- wrote the response. Where the error holds a `*Problem`, the handler writes into that one: the
-- error holds `rendered` from then on.
pub mod Laws
pub mod Handling
pub mod Coded
pub mod Full
pub mod Status
use go_platform_kit.Common.{
  ℕ, Bool, true, false, Option, none, some, List, [], ◌∷◌, ◌++◌, map, Text, text_eq, nat_eq,
  Comparable, ◌==◌, bytes, Unicode, is_empty, leb, if◌then◌else◌, option_or,
}
use go_platform_kit.Errors.Registry.{Registry}
use go_platform_kit.Errors.Problem.{Problem, PublicProblem, public, error_text, problem_status_code}
use go_platform_kit.Errors.Taxonomy.{Framework, GoError, foreign, wrapping, as_interface}
use go_platform_kit.Errors.ToProblem.{to_problem}

pub record Request : Type 0 where
  pub correlation_id : Text
  pub trace_id : Text
  pub app_instance_id : Text
  pub router_path : Text
  pub method : Text

pub record FailureEvent : Type 0 where
  pub service : Text
  pub endpoint : Text
  pub method : Text
  pub code : Text
  pub error_message : Text
  pub status_code : ℕ
  pub app_instance_id : Text
  pub correlation_id : Text
  pub trace_id : Text
  pub occurred_at : ℕ

-- A hook returns or panics.
pub data HookResult : Type 0 where
  done : HookResult
  panics : HookResult

abbrev pub FailureHook : Type 0
FailureHook = FailureEvent → HookResult

pub data Level : Type 0 where
  error_level warn_level : Level

pub data Body : Type 0 where
  full_body : Problem → Body
  public_body : PublicProblem → Body

-- What the handler does.
pub data Effect : Type 0 where
  log_problem : Level → (code : Text) (status : ℕ) (source detail : Text) → Effect
  hook_called : FailureEvent → Effect
  log_hook_panic : Effect
  set_status : ℕ → Effect
  set_header : Text → Text → Effect
  set_content_type : Text → Effect
  write_body : Text → Effect

module _ (F : Framework) where
  -- The response headers that a value asks for.
  unfoldable pub own_headers : GoError F → Option (List (Text × Text))
  own_headers (foreign f) = F.headers f
  own_headers (wrapping f e) = F.headers f
  own_headers _ = none

  module _ (u : Unicode) (registry : Registry) where
    -- `traceThread`
    unfoldable pub trace_thread : Request → Text
    trace_thread r = if is_empty r.trace_id then r.correlation_id else r.trace_id

    -- The problem as the handler renders it.
    unfoldable pub rendered : Text → Request → GoError F → Problem
    rendered source r err =
        let p = to_problem F u registry err in
        record p {
          source = if is_empty p.source then source else p.source;
          trace_id = if is_empty p.trace_id then trace_thread r else p.trace_id;
        }

    -- `logProblem`; the source and the detail are logged where they are not empty.
    abbrev pub log_of : Problem → Effect
    log_of p =
        log_problem (if leb 500 p.status then error_level else warn_level) p.code p.status p.source
          p.detail

    unfoldable pub failure_event : Request → (now : ℕ) → Problem → FailureEvent
    failure_event r now p = record {
      service = p.source;
      endpoint = r.router_path;
      method = r.method;
      code = p.code;
      error_message = error_text p;
      status_code = problem_status_code p;
      app_instance_id = r.app_instance_id;
      correlation_id = r.correlation_id;
      trace_id = r.trace_id;
      occurred_at = now;
    }

    -- `invokeFailureHook`
    abbrev invoke_hook : FailureHook → FailureEvent → List Effect
    invoke_hook hook evt = elim (hook evt) [
      | done ↦ hook_called evt ∷ []
      | panics ↦ hook_called evt ∷ log_hook_panic ∷ []
    ]

    -- `runFailureHooks`; a nil hook is `none`.
    unfoldable pub run_failure_hooks : FailureEvent → List (Option FailureHook) → List Effect
    run_failure_hooks evt [] = []
    run_failure_hooks evt (none ∷ hooks) = run_failure_hooks evt hooks
    run_failure_hooks evt (some hook ∷ hooks) = invoke_hook hook evt ++ run_failure_hooks evt hooks

    -- The audit, at the service where the error comes from.
    unfoldable pub audit_of :
        (source : Text) → List (Option FailureHook) → Request → (now : ℕ) → Problem → List Effect
    audit_of source hooks r now p =
        if p.source == source then run_failure_hooks (failure_event r now p) hooks else []

    -- What the handler does before the body.
    unfoldable pub head_of :
        (source : Text)
        → List (Option FailureHook)
        → Request
        → (now : ℕ) → List (Text × Text)
        → Problem
        → List Effect
    head_of source hooks r now headers p =
        log_of p
        ∷ (audit_of source hooks r now p
            ++ (set_status (problem_status_code p) ∷ map (λ h. set_header h.0 h.1) headers))

    abbrev pub body_of : (is_public : Bool) → Problem → Body
    body_of is_public p = if is_public then public_body (public p) else full_body p

    -- What the handler does for a problem, with the headers of the error.
    unfoldable pub respond :
        (marshal : Body → Option Text)
        → (source : Text) (is_public : Bool) → List (Option FailureHook)
        → Request
        → (now : ℕ) → List (Text × Text)
        → Problem
        → List Effect × Bool
    respond marshal source is_public hooks r now headers p = elim (marshal (body_of is_public p)) [
      | none ↦ (head_of source hooks r now headers p, false)
      | some body ↦ (
        head_of source hooks r now headers p
            ++ (set_content_type (bytes "application/problem+json") ∷ write_body body ∷ []),
        true,
      )
    ]

    -- The function that `Handler` returns; a nil error is `none`.
    unfoldable pub handler :
        (marshal : Body → Option Text)
        → (source : Text) (is_public : Bool) → List (Option FailureHook)
        → Request
        → (now : ℕ) → Option (GoError F)
        → List Effect × Bool
    handler marshal source is_public hooks r now none = ([], false)
    handler marshal source is_public hooks r now (some err) =
        respond marshal source is_public hooks r now (option_or (as_interface F own_headers err) [])
          (rendered source r err)
