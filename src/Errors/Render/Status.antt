-- ===== src/Errors/Render/Status.antt =====
-- The status that the handler sets, and the one that the envelope says.
use go_platform_kit.Common.{
  ℕ, ◌≡◌, ◌≢◌, inl, inr, refl, Bool, true, Option, none, some, List, [], ◌∷◌, ◌++◌, Text, text_eq,
  nat_eq, arith, Unicode, is_empty, option_or, Option-cases,
}
use go_platform_kit.Errors.Registry.{Registry, ReasonSpec, lookup_reason}
use go_platform_kit.Errors.Problem.{Problem, problem_status_code}
use go_platform_kit.Errors.Taxonomy.{Framework, GoError, error_code, as_interface}
use go_platform_kit.Errors.Envelope.Table
use go_platform_kit.Errors.Envelope.Table.{FrameworkLaws}
use go_platform_kit.Errors.ToProblem.{own_problem, status_for_error}
use go_platform_kit.Errors.Render.{
  Request, FailureEvent, FailureHook, Body, Effect, log_problem, hook_called, log_hook_panic,
  set_status, set_header, set_content_type, write_body, rendered, run_failure_hooks, failure_event,
  audit_of, head_of, body_of, respond, handler,
}

-- The status that is set, if any.
abbrev pub status_sent : List Effect → Option ℕ
status_sent [] = none
status_sent (set_status s ∷ es) = some s
status_sent (_ ∷ es) = status_sent es

status_sent-append :
    (xs ys : List Effect) → status_sent xs ≡ none → status_sent (xs ++ ys) ≡ status_sent ys
status_sent-append [] ys h = refl
status_sent-append (hook_called evt ∷ xs) ys h = status_sent-append xs ys h
status_sent-append (log_problem a b c d e ∷ xs) ys h = status_sent-append xs ys h
status_sent-append (log_hook_panic ∷ xs) ys h = status_sent-append xs ys h
status_sent-append (set_status s ∷ xs) ys h = cc
status_sent-append (set_header n v ∷ xs) ys h = status_sent-append xs ys h
status_sent-append (set_content_type c ∷ xs) ys h = status_sent-append xs ys h
status_sent-append (write_body b ∷ xs) ys h = status_sent-append xs ys h

status_sent-first :
    (xs ys : List Effect) (s : ℕ) → status_sent xs ≡ some s → status_sent (xs ++ ys) ≡ some s
status_sent-first [] ys s h = absurd (ground arith)
status_sent-first (hook_called evt ∷ xs) ys s h = status_sent-first xs ys s h
status_sent-first (log_problem a b c d e ∷ xs) ys s h = status_sent-first xs ys s h
status_sent-first (log_hook_panic ∷ xs) ys s h = status_sent-first xs ys s h
status_sent-first (set_status t ∷ xs) ys s h = h
status_sent-first (set_header n v ∷ xs) ys s h = status_sent-first xs ys s h
status_sent-first (set_content_type c ∷ xs) ys s h = status_sent-first xs ys s h
status_sent-first (write_body b ∷ xs) ys s h = status_sent-first xs ys s h

module _ (F : Framework) (u : Unicode) (registry : Registry) where
  hooks-set_none :
      (evt : FailureEvent) (hooks : List (Option FailureHook))
      → status_sent (run_failure_hooks F u registry evt hooks) ≡ none
  unfolding run_failure_hooks
  hooks-set_none evt [] = refl
  hooks-set_none evt (none ∷ hooks) = hooks-set_none evt hooks
  hooks-set_none evt (some hook ∷ hooks) = let ih = hooks-set_none evt hooks in ground arith

  module _ (marshal : Body → Option Text) (source : Text) (is_public : Bool)
      (hooks : List (Option FailureHook)) (r : Request) (now : ℕ) where
    audit-sets_none :
        (p : Problem) → status_sent (audit_of F u registry source hooks r now p) ≡ none
    unfolding audit_of
    audit-sets_none p = ground (arith, hooks-set_none (failure_event F u registry r now p) hooks)

    head-status :
        (headers : List (Text × Text)) (p : Problem)
        → status_sent (head_of F u registry source hooks r now headers p)
          ≡ some (problem_status_code p)
    unfolding head_of
    head-status headers p =
        status_sent-append (audit_of F u registry source hooks r now p) _ (audit-sets_none p)

    respond-status :
        (headers : List (Text × Text)) (p : Problem)
        → status_sent (respond F u registry marshal source is_public hooks r now headers p).0
          ≡ some (problem_status_code p)
    unfolding respond
    respond-status headers p = elim (Option-cases (marshal (body_of F u registry is_public p))) [
      | inl fails ↦ rw (fails, respond) (head-status headers p)
      | inr (b, ok) ↦
          rw (ok, respond)
            (status_sent-first (head_of F u registry source hooks r now headers p) _ _
              (head-status headers p))
    ]

    -- The handler sets the status of the problem that it renders.
    pub handler-status_sent :
        (err : GoError F)
        → status_sent (handler F u registry marshal source is_public hooks r now (some err)).0
          ≡ some (problem_status_code (rendered F u registry source r err))
    unfolding handler
    handler-status_sent err = respond-status _ _

-- An error that holds no problem, has no code, and gives the status 0.
abbrev pub IsUnset : (F : Framework) → GoError F → Type 0
IsUnset F err =
    (as_interface F (own_problem F) err ≡ none)
    × (is_empty (option_or (as_interface F (error_code F) err) []) ≡ true)
    × (status_for_error F err ≡ 0)

-- No reason is registered with status 0.
abbrev pub HasStatuses : Unicode → Registry → Type 0
HasStatuses u registry =
    (reason : Text) (spec : ReasonSpec)
    → lookup_reason u registry reason ≡ some spec
    → spec.status ≢ 0

module _ (F : Framework) (laws : FrameworkLaws F) (u : Unicode) (registry : Registry)
    (nonzero : HasStatuses u registry) where
  module _ (marshal : Body → Option Text) (source : Text) (is_public : Bool)
      (hooks : List (Option FailureHook)) (r : Request) (now : ℕ) (err : GoError F) where
    abbrev pub sent : Option ℕ
    sent = status_sent (handler F u registry marshal source is_public hooks r now (some err)).0

    abbrev shown : Problem
    shown = rendered F u registry source r err
