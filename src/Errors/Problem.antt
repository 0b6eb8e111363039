-- ===== src/Errors/Problem.antt =====
-- errors/problem.go: the envelope `Problem`, its methods and options. Statuses are natural numbers;
-- 0 is unset.
use go_platform_kit.Common.{
  ℕ, Bool, true, Option, none, some, List, [], ◌∷◌, ◌++◌, Text, text_eq, nat_eq, ◌==◌, bytes,
  is_empty, if◌then◌else◌, ◌&&◌, not,
}

abbrev pub max_chain_hops : ℕ
max_chain_hops = 8

pub record Hop : Type 0 where
  pub service : Text
  pub code : Text
  pub status : ℕ
  pub elided : ℕ

pub record Problem : Type 0 where
  pub type_uri : Text
  pub title : Text
  pub status : ℕ
  pub detail : Text
  pub code : Text
  pub source : Text
  pub trace_id : Text
  pub chain : List Hop
  pub detail_public : Bool

pub record PublicProblem : Type 0 where
  pub type_uri : Text
  pub title : Text
  pub status : ℕ
  pub detail : Text
  pub code : Text
  pub trace_id : Text

-- `(*Problem).Error`
unfoldable pub error_text : Problem → Text
error_text p =
    let msg = if is_empty p.detail then p.title else p.detail in
    if is_empty p.code then msg else if is_empty msg then p.code else p.code ++ (bytes ": " ++ msg)

-- `(*Problem).StatusCode`
unfoldable pub problem_status_code : Problem → ℕ
problem_status_code p = if p.status == 0 then 500 else p.status

-- `(*Problem).Public`
unfoldable pub public : Problem → PublicProblem
public p = record {
  type_uri = p.type_uri;
  title = p.title;
  status = p.status;
  detail = if p.detail_public then p.detail else [];
  code = p.code;
  trace_id = p.trace_id;
}

-- `(*Problem).MarshalError`, over an encoder of problems; `none` is `ok=false`.
unfoldable pub marshal_error :
    (to_json : Problem → Option Text) → Problem → (content_type : Text) → Option (Text × Text)
marshal_error to_json p content_type =
    if not (content_type == bytes "application/json")
      && not (content_type == bytes "application/problem+json")
    then none
    else elim (to_json p) [ none ↦ none | some b ↦ some (b, bytes "application/problem+json") ]

abbrev pub ProblemOption : Type 0
ProblemOption = Problem → Problem

unfoldable pub with_detail : Text → ProblemOption
with_detail detail p = record p { detail = detail }

unfoldable pub with_public_detail : Text → ProblemOption
with_public_detail detail p = record p { detail = detail; detail_public = true }

unfoldable pub with_status : ℕ → ProblemOption
with_status status p = record p { status = status }

unfoldable pub with_title : Text → ProblemOption
with_title title p = record p { title = title }

unfoldable pub with_source : Text → ProblemOption
with_source source p = record p { source = source }

unfoldable pub with_type : Text → ProblemOption
with_type type_uri p = record p { type_uri = type_uri }

-- The `for` loop over the options.
unfoldable pub apply_problem_options : List ProblemOption → Problem → Problem
apply_problem_options [] p = p
apply_problem_options (opt ∷ opts) p = apply_problem_options opts (opt p)
