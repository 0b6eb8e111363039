-- ===== src/Errors/Render/Laws.antt =====
-- Rendering: complete envelopes, the audit at the origin, what the boundary hides.
use go_platform_kit.Common.{
  ℕ, ◌≡◌, inl, inr, refl, ap, ◌∙◌, Bool, Option, none, some, List, [], ◌∷◌, ◌++◌, map, Text,
  text_eq, nat_eq, ◌==◌, bytes, arith, Unicode, if◌then◌else◌, is_some, Option-cases, append-nil,
}
use go_platform_kit.Errors.Registry.{Registry}
use go_platform_kit.Errors.Problem.{Problem, problem_status_code}
use go_platform_kit.Errors.Taxonomy.{Framework}
use go_platform_kit.Errors.Render.{
  Request, FailureEvent, FailureHook, Body, Effect, log_problem, hook_called, log_hook_panic,
  set_status, set_header, set_content_type, write_body, audit_of, head_of, body_of, failure_event,
  run_failure_hooks, respond,
}

-- The events that the hooks get, in order.
abbrev pub audits : List Effect → List FailureEvent
audits [] = []
audits (hook_called evt ∷ es) = evt ∷ audits es
audits (_ ∷ es) = audits es

-- The body that is written, if any.
abbrev pub written : List Effect → Option Text
written [] = none
written (write_body b ∷ es) = some b
written (_ ∷ es) = written es

audits-append : (xs ys : List Effect) → audits (xs ++ ys) ≡ audits xs ++ audits ys
audits-append [] ys = refl
audits-append (hook_called evt ∷ xs) ys = ap (◌∷◌ evt) (audits-append xs ys)
audits-append (log_problem a b c d e ∷ xs) ys = audits-append xs ys
audits-append (log_hook_panic ∷ xs) ys = audits-append xs ys
audits-append (set_status s ∷ xs) ys = audits-append xs ys
audits-append (set_header n v ∷ xs) ys = audits-append xs ys
audits-append (set_content_type c ∷ xs) ys = audits-append xs ys
audits-append (write_body b ∷ xs) ys = audits-append xs ys

audits-headers : (hs : List (Text × Text)) → audits (map (λ h. set_header h.0 h.1) hs) ≡ []
audits-headers [] = refl
audits-headers (h ∷ hs) = audits-headers hs

-- One event for each hook that is not nil.
abbrev pub per_hook : FailureEvent → List (Option FailureHook) → List FailureEvent
per_hook evt [] = []
per_hook evt (none ∷ hooks) = per_hook evt hooks
per_hook evt (some hook ∷ hooks) = evt ∷ per_hook evt hooks

written-append : (xs ys : List Effect) → written xs ≡ none → written (xs ++ ys) ≡ written ys
written-append [] ys h = refl
written-append (hook_called evt ∷ xs) ys h = written-append xs ys h
written-append (log_problem a b c d e ∷ xs) ys h = written-append xs ys h
written-append (log_hook_panic ∷ xs) ys h = written-append xs ys h
written-append (set_status s ∷ xs) ys h = written-append xs ys h
written-append (set_header n v ∷ xs) ys h = written-append xs ys h
written-append (set_content_type c ∷ xs) ys h = written-append xs ys h
written-append (write_body b ∷ xs) ys h = cc

written-headers : (hs : List (Text × Text)) → written (map (λ h. set_header h.0 h.1) hs) ≡ none
written-headers [] = refl
written-headers (h ∷ hs) = written-headers hs

module _ (F : Framework) (u : Unicode) (registry : Registry) where
  audits-run_failure_hooks :
      (evt : FailureEvent) (hooks : List (Option FailureHook))
      → (audits (run_failure_hooks F u registry evt hooks) ≡ per_hook evt hooks)
        × (written (run_failure_hooks F u registry evt hooks) ≡ none)
  unfolding run_failure_hooks
  audits-run_failure_hooks evt [] = (refl, refl)
  audits-run_failure_hooks evt (none ∷ hooks) = audits-run_failure_hooks evt hooks
  audits-run_failure_hooks evt (some hook ∷ hooks) =
      let (ih, quiet) = audits-run_failure_hooks evt hooks in ground arith

  audit_of-written :
      (source : Text) (hooks : List (Option FailureHook)) (r : Request) (now : ℕ) (p : Problem)
      → written (audit_of F u registry source hooks r now p) ≡ none
  unfolding audit_of
  audit_of-written source hooks r now p =
      ground (arith, audits-run_failure_hooks (failure_event F u registry r now p) hooks)

  module _ (marshal : Body → Option Text) (source : Text) (is_public : Bool)
      (hooks : List (Option FailureHook)) (r : Request) (now : ℕ) where
    head_of-quiet :
        (headers : List (Text × Text)) (p : Problem)
        → written (head_of F u registry source hooks r now headers p) ≡ none
    unfolding head_of
    head_of-quiet headers p =
        written-append (audit_of F u registry source hooks r now p) _
          (audit_of-written source hooks r now p)
        ∙ written-headers headers

    head_of-audits :
        (headers : List (Text × Text)) (p : Problem)
        → audits (head_of F u registry source hooks r now headers p)
          ≡ (if p.source == source then per_hook (failure_event F u registry r now p) hooks else [])
    unfolding head_of audit_of
    head_of-audits headers p = ground (
      arith,
      audits-append (audit_of F u registry source hooks r now p)
          (set_status (problem_status_code p) ∷ map (λ h. set_header h.0 h.1) headers),
      audits-headers headers,
      audits-run_failure_hooks (failure_event F u registry r now p) hooks,
      append-nil (per_hook (failure_event F u registry r now p) hooks),
    )

    append-done :
        (es : List FailureEvent) (h : List Effect) (b : Text)
        → audits h ≡ es
        → audits (h ++ (set_content_type (bytes "application/problem+json") ∷ write_body b ∷ []))
          ≡ es
    append-done es h b e = audits-append h _ ∙ append-nil (audits h) ∙ e

    pub respond_lem :
        (headers : List (Text × Text)) (p : Problem)
        → (audits (respond F u registry marshal source is_public hooks r now headers p).0 ≡ (
            if p.source == source then per_hook (failure_event F u registry r now p) hooks else []))
          × (written (respond F u registry marshal source is_public hooks r now headers p).0
              ≡ marshal (body_of F u registry is_public p))
          × ((respond F u registry marshal source is_public hooks r now headers p).1
              ≡ is_some (marshal (body_of F u registry is_public p)))
    unfolding respond
    respond_lem headers p = elim (Option-cases (marshal (body_of F u registry is_public p))) [
      | inl fails ↦ rw (fails, respond) (head_of-audits headers p, head_of-quiet headers p, refl)
      | inr (b, ok) ↦
          rw (ok, respond)
            (
              append-done _ (head_of F u registry source hooks r now headers p) b
                  (head_of-audits headers p),
              written-append (head_of F u registry source hooks r now headers p) _
                  (head_of-quiet headers p),
              refl,
            )
    ]
