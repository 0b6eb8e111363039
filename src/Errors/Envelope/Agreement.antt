-- ===== src/Errors/Envelope/Agreement.antt =====
-- The entry points agree: `FromResultCode`, `NewProblem` and the renderer give one status and one
-- title for a code, and what the taxonomy does not know leaks nothing.
use go_platform_kit.Common.{
  ℕ, ◌≡◌, ◌≢◌, ◌⊎◌, inl, inr, refl, ap, ◌∙◌, true, Option, none, some, List, [], Text, text_eq,
  nat_eq, bytes, arith, Unicode, is_empty, if◌then◌else◌, option_or, is_some, Option-cases,
}
use go_platform_kit.Errors.Codes.{Code, parse_code, format_code}
use go_platform_kit.Errors.Registry.{Registry, ReasonSpec, lookup_reason, builtin_title_for_reason}
use go_platform_kit.Errors.Taxonomy.{
  Framework, GoError, internal, registered, err_string, status_code, safe_error, map_builtin,
  map_reason, from_result_code, msg, resource,
}
use go_platform_kit.Errors.Envelope.{
  title_for_reason, title_for_code, status_for_code, new_problem, title_for_status,
}
use go_platform_kit.Errors.Envelope.Table
use go_platform_kit.Errors.Envelope.Table.{FrameworkLaws, Row, unknown_row, builtin-Row}

-- What `FromResultCode` returns in its three cases.
module _ (F : Framework) (u : Unicode) (registry : Registry) (code : Text)
    (safe_msg : List Text) where
  pub from_unparsed :
      parse_code u code ≡ none
      → from_result_code F u registry code safe_msg ≡ internal (err_string code)
  unfolding from_result_code
  from_unparsed bad = rw (bad, from_result_code)

  pub from_registered :
      (c : Code) (spec : ReasonSpec)
      → parse_code u code ≡ some c
      → lookup_reason u registry c.reason ≡ some spec
      → from_result_code F u registry code safe_msg
        ≡ registered (format_code c) spec.status (resource spec.title (msg safe_msg))
  unfolding from_result_code map_reason
  from_registered c spec good found = rw (good, from_result_code) (rw (found, map_reason))

  pub from_builtin :
      (c : Code)
      → parse_code u code ≡ some c
      → lookup_reason u registry c.reason ≡ none
      → from_result_code F u registry code safe_msg ≡ map_builtin F u registry c (msg safe_msg)
  unfolding from_result_code map_reason
  from_builtin c good unregistered = rw (good, from_result_code) (rw (unregistered, map_reason))

module _ (F : Framework) (laws : FrameworkLaws F) (u : Unicode) (registry : Registry) where
  map_builtin-status :
      (c : Code) (safe safe' : Text)
      → status_code F (map_builtin F u registry c safe)
        ≡ status_code F (map_builtin F u registry c safe')
  unfolding map_builtin status_code
  map_builtin-status c safe safe' = ground (
    arith,
    laws.not_found_status (resource c.domain safe),
    laws.not_found_status (resource c.domain safe'),
    laws.bad_request_status safe,
    laws.bad_request_status safe',
  )

  map_builtin-some :
      (c : Code) (safe : Text) → is_some (status_code F (map_builtin F u registry c safe)) ≡ true
  unfolding map_builtin status_code
  map_builtin-some c safe = ground (
    arith,
    laws.not_found_status (resource c.domain safe),
    laws.forbidden_status,
    laws.unauthorized_status,
    laws.bad_request_status safe,
    laws.param_required_status c.domain,
  )

  some_or : (o : Option ℕ) (d : ℕ) → is_some o ≡ true → o ≡ some (option_or o d)
  some_or none d h = cc
  some_or (some n) d h = refl

  -- Whatever safe message is given, the status of the mapped error is the one that `NewProblem`
  -- derives from the code.
  pub status_code-from_result_code :
      (code : Text) (safe_msg : List Text)
      → status_code F (from_result_code F u registry code safe_msg)
        ≡ some (status_for_code u registry F code)
  unfolding status_for_code status_code
  status_code-from_result_code code safe_msg = elim (Option-cases (parse_code u code)) [
    | inl bad ↦
        rw (from_unparsed F u registry code safe_msg bad, from_unparsed F u registry code [] bad)
    | inr (c, good) ↦ elim (Option-cases (lookup_reason u registry c.reason)) [
      | inl unregistered ↦
          rw
            (
              from_builtin F u registry code safe_msg c good unregistered,
              from_builtin F u registry code [] c good unregistered,
            )
            (map_builtin-status c (msg safe_msg) (msg [])
              ∙ some_or (status_code F (map_builtin F u registry c (msg []))) 500
                  (map_builtin-some c (msg [])))
      | inr (spec, found) ↦ rw (
        from_registered F u registry code safe_msg c spec good found,
        from_registered F u registry code [] c spec good found,
      )
    ]
  ]

-- A code that is no result code, or whose reason is neither registered nor built in.
abbrev pub IsUnknown : Unicode → Registry → Text → Type 0
IsUnknown u registry code =
    (parse_code u code ≡ none)
    ⊎ ((c : Code) × (parse_code u code ≡ some c)
        × (lookup_reason u registry c.reason ≡ none)
        × (builtin_title_for_reason u c.reason ≡ none))

module _ (F : Framework) (laws : FrameworkLaws F) (u : Unicode) (registry : Registry) where
  internal_of_Row :
      (title : Option Text) (err : GoError F)
      → Row F title err
      → title ≡ none
      → (cause : GoError F) × (err ≡ internal cause)
  internal_of_Row title err (unknown_row cause t e) h = (cause, e)
  internal_of_Row title err (Table.not_found_row t s) h = absurd (ground arith)
  internal_of_Row title err (Table.forbidden_row t s) h = absurd (ground arith)
  internal_of_Row title err (Table.unauthorized_row t s) h = absurd (ground arith)
  internal_of_Row title err (Table.conflict_row t s) h = absurd (ground arith)
  internal_of_Row title err (Table.gone_row t s) h = absurd (ground arith)
  internal_of_Row title err (Table.invalid_row t s) h = absurd (ground arith)
  internal_of_Row title err (Table.required_row t s) h = absurd (ground arith)

  -- A code that the taxonomy does not know maps to status 500 and to the fixed client message,
  -- whatever the code holds and whatever message the caller gives.
  pub from_result_code_unknown :
      (code : Text) (safe_msg : List Text)
      → IsUnknown u registry code
      → (status_code F (from_result_code F u registry code safe_msg) ≡ some 500)
        × (safe_error F (from_result_code F u registry code safe_msg)
            ≡ some (bytes "internal server error"))
        × (title_for_code u registry code ≡ none)
  unfolding status_code safe_error title_for_code title_for_reason
  from_result_code_unknown code safe_msg (inl bad) =
      rw (from_unparsed F u registry code safe_msg bad) (refl, refl, rw (bad, title_for_code))
  from_result_code_unknown code safe_msg (inr (c, good, unregistered, no_title)) =
      let (cause, e) =
        internal_of_Row _ _ (builtin-Row F laws u registry c (msg safe_msg)) no_title in
      rw (from_builtin F u registry code safe_msg c good unregistered, e)
        (refl, refl, rw (good, title_for_code) (rw (unregistered, title_for_reason) no_title))

  -- With no option, the status of `NewProblem` is the one of the error that `FromResultCode` gives
  -- for the code with any safe message, and its title is that of the reason, or of the status where
  -- the reason has none or an empty one, if the status that the code has is not 0.
  pub new_problem-agrees :
      (code : Text) (safe_msg : List Text)
      → status_for_code u registry F code ≢ 0
      → (status_code F (from_result_code F u registry code safe_msg)
          ≡ some (new_problem u registry F code []).status)
        × ((new_problem u registry F code []).title ≡ (
            if is_empty (option_or (title_for_code u registry code) [])
            then title_for_status (new_problem u registry F code []).status
            else option_or (title_for_code u registry code) []))
  unfolding new_problem
  new_problem-agrees code safe_msg nonzero = (
    status_code-from_result_code F laws u registry code safe_msg ∙ ap some (ground arith),
    ground arith,
  )
