-- ===== src/Errors/Render/Coded.antt =====
-- The render path agrees with the direct path, and every rendered envelope is complete.
use go_platform_kit.Common.{
  ℕ, ◌≡◌, inl, inr, refl, ap, ◌∙◌, false, some, List, [], ◌∷◌, Text, text_eq, nat_eq, ◌==◌, bytes,
  arith, Unicode, is_empty, option_or, Option-cases, Bool-cases,
}
use go_platform_kit.Errors.Codes.{Code, parse_code, format_code, err_prefix}
use go_platform_kit.Errors.Registry.{Registry, ReasonSpec, lookup_reason, builtin_title_for_reason}
use go_platform_kit.Errors.Problem.{Problem, with_status}
use go_platform_kit.Errors.Taxonomy.{
  Framework, GoError, registered, status_code, safe_error, error_code, as_interface,
  from_result_code, http, resource, msg,
}
use go_platform_kit.Errors.Envelope.{
  title_for_status, title_for_code, title_for_reason, status_for_code, generic_code_for_status,
  new_problem,
}
use go_platform_kit.Errors.Envelope.Agreement.{from_registered}
use go_platform_kit.Errors.ToProblem.{
  own_problem, status_for_error, normalized, coded_problem, bare_problem, to_problem,
}

module _ (F : Framework) (u : Unicode) (registry : Registry) where
  status_for_registered :
      (code : Text) (c : Code) (spec : ReasonSpec)
      → parse_code u code ≡ some c
      → lookup_reason u registry c.reason ≡ some spec
      → status_for_code u registry F code ≡ spec.status
  unfolding status_for_code status_code
  status_for_registered code c spec good found =
      rw (from_registered F u registry code [] c spec good found)

  -- To set the status that the code has anyway changes nothing.
  new_problem-with_status :
      (code : Text) (status : ℕ)
      → status_for_code u registry F code ≡ status
      → new_problem u registry F code (with_status status ∷ []) ≡ new_problem u registry F code []
  unfolding new_problem with_status
  new_problem-with_status code status e = rw (← e)

  to_problem-coded :
      (code : Text) (status : ℕ) (safe : Text)
      → is_empty code ≡ false
      → (status == 0) ≡ false
      → to_problem F u registry (registered code status safe)
        ≡ record (new_problem u registry F code (with_status status ∷ [])) { detail = safe }
  unfolding to_problem coded_problem as_interface own_problem error_code status_code safe_error
  to_problem-coded code status safe full nonzero = rw (full, nonzero)

  format_code-full : (c : Code) → is_empty (format_code c) ≡ false
  unfolding err_prefix bytes
  format_code-full c = refl

  -- For a code that is read back from its text, `HTTP` and `FromResultCode` make the same error.
  http-from_result_code :
      (c : Code) (safe_msg : List Text)
      → parse_code u (format_code c) ≡ some c
      → http F u registry c.domain c.reason safe_msg
        ≡ from_result_code F u registry (format_code c) safe_msg
  unfolding http from_result_code
  http-from_result_code c safe_msg good = rw (good, from_result_code) refl

  rendered_registered :
      (c : Code) (spec : ReasonSpec) (safe_msg : List Text)
      → parse_code u (format_code c) ≡ some c
      → lookup_reason u registry c.reason ≡ some spec
      → (spec.status == 0) ≡ false
      → to_problem F u registry (from_result_code F u registry (format_code c) safe_msg)
        ≡ record (new_problem u registry F (format_code c) []) {
          detail = resource spec.title (msg safe_msg);
        }
  rendered_registered c spec safe_msg good found nonzero =
      rw (from_registered F u registry (format_code c) safe_msg c spec good found) (
        to_problem-coded (format_code c) spec.status (resource spec.title (msg safe_msg))
          (format_code-full c) nonzero
        ∙ ap (λ (p : Problem). record p { detail = resource spec.title (msg safe_msg) })
            (new_problem-with_status (format_code c) spec.status
              (status_for_registered (format_code c) c spec good found)))

  -- For a code that is read back from its text, and whose reason is registered with a status other
  -- than 0: the error that `FromResultCode` makes of the text, and the one that `HTTP` makes of the
  -- domain and the reason, are rendered as the problem that `NewProblem` builds for the text, but
  -- for the detail, which is the caller's message or else the reason's title.
  pub to_problem-from_result_code :
      (c : Code) (spec : ReasonSpec) (safe_msg : List Text)
      → parse_code u (format_code c) ≡ some c
      → lookup_reason u registry c.reason ≡ some spec
      → (spec.status == 0) ≡ false
      → (to_problem F u registry (from_result_code F u registry (format_code c) safe_msg)
          ≡ record (new_problem u registry F (format_code c) []) {
            detail = resource spec.title (msg safe_msg);
          })
        × (to_problem F u registry (http F u registry c.domain c.reason safe_msg)
            ≡ record (new_problem u registry F (format_code c) []) {
              detail = resource spec.title (msg safe_msg);
            })
  to_problem-from_result_code c spec safe_msg good found nonzero =
      let e = rendered_registered c spec safe_msg good found nonzero in
      (e, ap (to_problem F u registry) (http-from_result_code c safe_msg good) ∙ e)

  -- No registered reason has an empty title.
  abbrev pub Titled : Type 0
  Titled =
      (reason : Text) (spec : ReasonSpec)
      → lookup_reason u registry reason ≡ some spec
      → is_empty spec.title ≡ false

  generic_code-full : (status : ℕ) → is_empty (generic_code_for_status status) ≡ false
  unfolding generic_code_for_status bytes
  generic_code-full status = ground arith

  title_for_status-full : (status : ℕ) → is_empty (title_for_status status) ≡ false
  unfolding title_for_status bytes
  title_for_status-full status = ground arith

  builtin_title-full :
      (reason : Text) (d : Text)
      → is_empty d ≡ false
      → is_empty (option_or (builtin_title_for_reason u reason) d) ≡ false
  unfolding builtin_title_for_reason bytes
  builtin_title-full reason d full = ground arith

  module _ (titled : Titled) where
    title_for_code-full :
        (code d : Text)
        → is_empty d ≡ false
        → is_empty (option_or (title_for_code u registry code) d) ≡ false
    unfolding title_for_code title_for_reason
    title_for_code-full code d full = elim (Option-cases (parse_code u code)) [
      | inl bad ↦ rw (bad, title_for_code) full
      | inr (c, good) ↦ elim (Option-cases (lookup_reason u registry c.reason)) [
        | inl unregistered ↦
            rw (good, title_for_code)
              (rw (unregistered, title_for_reason) (builtin_title-full c.reason d full))
        | inr (spec, found) ↦
            rw (good, title_for_code) (rw (found, title_for_reason) (titled c.reason spec found))
      ]
    ]

    normalized_complete :
        (p : Problem)
        → (is_empty (normalized F u registry p).code ≡ false)
          × (is_empty (normalized F u registry p).title ≡ false)
    unfolding normalized
    normalized_complete p = (
      ground (arith, generic_code-full (normalized F u registry p).status),
      ground (
        arith,
        title_for_code-full (normalized F u registry p).code
            (title_for_status (normalized F u registry p).status)
            (title_for_status-full (normalized F u registry p).status),
      ),
    )

    coded_complete :
        (err : GoError F) (code : Text)
        → is_empty code ≡ false
        → (is_empty (coded_problem F u registry err code).code ≡ false)
          × (is_empty (coded_problem F u registry err code).title ≡ false)
    unfolding coded_problem new_problem with_status
    coded_complete err code full = (
      ground arith,
      ground (arith, title_for_status-full (coded_problem F u registry err code).status),
    )

    bare_complete :
        (err : GoError F)
        → (is_empty (bare_problem F u registry err).code ≡ false)
          × (is_empty (bare_problem F u registry err).title ≡ false)
    unfolding bare_problem
    bare_complete err =
        (generic_code-full (status_for_error F err), title_for_status-full (status_for_error F err))

    -- Every error, whatever it is, becomes an envelope with a code and a title, as long as no reason
    -- is registered with an empty title.
    pub to_problem_complete :
        (err : GoError F)
        → (is_empty (to_problem F u registry err).code ≡ false)
          × (is_empty (to_problem F u registry err).title ≡ false)
    unfolding to_problem
    to_problem_complete err = elim (Option-cases (as_interface F (own_problem F) err)) [
      | inr (p, own) ↦ rw (own, to_problem) (normalized_complete p)
      | inl foreign_err ↦
          elim (Bool-cases (is_empty (option_or (as_interface F (error_code F) err) []))) [
            | inl bare ↦ rw (foreign_err, to_problem) (rw bare (bare_complete err))
            | inr coded ↦
                rw (foreign_err, to_problem)
                  (rw coded
                    (coded_complete err (option_or (as_interface F (error_code F) err) []) coded))
          ]
    ]
