-- ===== src/Errors/Envelope.antt =====
-- errors/problem.go: `NewProblem` and the status and title that a code or a status gives;
-- `ParseProblem`, over a parameter for `json.Unmarshal`.
pub mod Agreement
pub mod Table
use go_platform_kit.Common.{
  ℕ, Bool, true, false, not, ◌&&◌, ◌||◌, Option, none, some, List, [], ◌∷◌, ◌++◌, Text, text_eq,
  nat_eq, Comparable, ◌==◌, bytes, Unicode, is_empty, if◌then◌else◌, option_or,
}
use go_platform_kit.Errors.Codes.{Code, parse_code}
use go_platform_kit.Errors.Registry.{Registry, ReasonSpec, lookup_reason, builtin_title_for_reason}
use go_platform_kit.Errors.Problem.{Problem, ProblemOption, apply_problem_options}
use go_platform_kit.Errors.Taxonomy.{Framework, GoError, status_code, from_result_code}

unfoldable pub title_for_status : ℕ → Text
title_for_status status =
    if status == 400
    then bytes "Bad request"
    else if status == 401
    then bytes "Unauthorized"
    else if status == 403
    then bytes "Forbidden"
    else if status == 404
    then bytes "Not found"
    else if status == 409
    then bytes "Conflict"
    else if status == 410
    then bytes "No longer available"
    else if status == 413
    then bytes "Payload too large"
    else if status == 415
    then bytes "Unsupported media type"
    else if status == 422
    then bytes "Unprocessable entity"
    else if status == 429
    then bytes "Too many requests"
    else if status == 501
    then bytes "Not implemented"
    else if status == 502
    then bytes "Upstream unavailable"
    else if status == 503
    then bytes "Service unavailable"
    else if status == 504
    then bytes "Upstream timeout"
    else bytes "Internal server error"

unfoldable pub generic_code_for_status : ℕ → Text
generic_code_for_status status =
    if status == 400
    then bytes "err:request:invalid"
    else if status == 401
    then bytes "err:request:unauthorized"
    else if status == 403
    then bytes "err:request:forbidden"
    else if status == 404
    then bytes "err:request:notFound"
    else if status == 409
    then bytes "err:request:conflict"
    else if status == 410
    then bytes "err:request:gone"
    else if status == 413
    then bytes "err:request:payloadTooLarge"
    else if status == 415
    then bytes "err:request:unsupportedMediaType"
    else if status == 422
    then bytes "err:request:unprocessable"
    else if status == 429
    then bytes "err:request:rateLimited"
    else if status == 501
    then bytes "err:internal:notImplemented"
    else if status == 502 || status == 503 || status == 504
    then bytes "err:upstream:unavailable"
    else bytes "err:internal:unexpected"

module _ (u : Unicode) (registry : Registry) where
  unfoldable pub title_for_reason : Text → Option Text
  title_for_reason reason = elim (lookup_reason u registry reason) [
    | some spec ↦ some spec.title
    | none ↦ builtin_title_for_reason u reason
  ]

  unfoldable pub title_for_code : Text → Option Text
  title_for_code code = elim (parse_code u code) [
    | none ↦ none
    | some c ↦ title_for_reason c.reason
  ]

  module _ (F : Framework) where
    unfoldable pub status_for_code : Text → ℕ
    status_for_code code = option_or (status_code F (from_result_code F u registry code [])) 500

    -- The problem before the options.
    abbrev pub derived : Text → Problem
    derived code = record {
      type_uri = [];
      title = option_or (title_for_code code) [];
      status = status_for_code code;
      detail = [];
      code = code;
      source = [];
      trace_id = [];
      chain = [];
      detail_public = false;
    }

    abbrev pub default_status : Problem → Problem
    default_status p = record p { status = if p.status == 0 then 500 else p.status }

    abbrev pub default_title : Problem → Problem
    default_title p = record p {
      title = if is_empty p.title then title_for_status p.status else p.title;
    }

    unfoldable pub new_problem : Text → List ProblemOption → Problem
    unfolding apply_problem_options
    new_problem code opts =
        default_title (default_status (apply_problem_options opts (derived code)))

-- `ParseProblem`; the decoder leaves `detailPublic` unset.
unfoldable pub parse_problem : (from_json : Text → Option Problem) → Text → Option Problem
parse_problem from_json body = if is_empty body then none else elim (from_json body) [
  | none ↦ none
  | some p ↦ if is_empty p.code && is_empty p.title && p.status == 0 then none else some p
]
