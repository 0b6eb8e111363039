-- ===== src/Errors/ToProblem.antt =====
-- errors/render.go: `toProblem` and what it calls, the problem that an error holds or is mapped to.
use go_platform_kit.Common.{
  ℕ, false, Option, none, some, List, [], ◌∷◌, Text, text_eq, nat_eq, ◌==◌, Unicode, is_empty,
  if◌then◌else◌, option_or,
}
use go_platform_kit.Errors.Registry.{Registry}
use go_platform_kit.Errors.Problem.{Problem, ProblemOption, with_status}
use go_platform_kit.Errors.Taxonomy.{
  Framework, GoError, problem, foreign, wrapping, status_code, safe_error, error_code, as_interface,
}
use go_platform_kit.Errors.Envelope.{
  title_for_status, title_for_code, status_for_code, generic_code_for_status, new_problem,
}

module _ (F : Framework) where
  -- The problem that a value is.
  unfoldable pub own_problem : GoError F → Option Problem
  own_problem (problem p) = some p
  own_problem _ = none

  -- Whether a value is a `validator.ValidationErrors`.
  unfoldable pub own_validation : GoError F → Option (Unit {0})
  own_validation (foreign f) = if F.is_validation f then some tt else none
  own_validation (wrapping f e) = if F.is_validation f then some tt else none
  own_validation _ = none

  unfoldable pub status_for_error : GoError F → ℕ
  status_for_error err = elim (as_interface F (own_validation) err) [
    | some _ ↦ 422
    | none ↦ option_or (as_interface F (status_code F) err) 500
  ]

  module _ (u : Unicode) (registry : Registry) where
    abbrev fill_status : Problem → Problem
    fill_status p = record p {
      status =
          if p.status == 0
          then (if is_empty p.code then 500 else status_for_code u registry F p.code)
          else p.status;
    }

    abbrev fill_code : Problem → Problem
    fill_code p = record p {
      code = if is_empty p.code then generic_code_for_status p.status else p.code;
    }

    abbrev fill_title : Problem → Problem
    fill_title p = record p {
      title =
          if is_empty p.title
          then option_or (title_for_code u registry p.code) (title_for_status p.status)
          else p.title;
    }

    unfoldable pub normalized : Problem → Problem
    normalized p = fill_title (fill_code (fill_status p))

    -- The options that keep the status of a coded error, unless it is unset.
    abbrev pub status_options : Option ℕ → List ProblemOption
    status_options none = []
    status_options (some s) = if s == 0 then [] else with_status s ∷ []

    unfoldable pub coded_problem : GoError F → Text → Problem
    coded_problem err code =
        let np =
          new_problem u registry F code (status_options (as_interface F (status_code F) err)) in
        elim (safe_error F err) [ none ↦ np | some safe ↦ record np { detail = safe } ]

    unfoldable pub bare_problem : GoError F → Problem
    bare_problem err =
        let status = status_for_error err in
        record {
          type_uri = [];
          title = title_for_status status;
          status = status;
          detail = option_or (safe_error F err) [];
          code = generic_code_for_status status;
          source = [];
          trace_id = [];
          chain = [];
          detail_public = false;
        }

    unfoldable pub to_problem : GoError F → Problem
    to_problem err = elim (as_interface F own_problem err) [
      | some p ↦ normalized p
      | none ↦
          let code = option_or (as_interface F (error_code F) err) [] in
          if is_empty code then bare_problem err else coded_problem err code
    ]
