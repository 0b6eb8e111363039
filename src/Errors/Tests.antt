-- ===== src/Errors/Tests.antt =====
-- Instances of the theorems on the package errors at concrete inputs.
mod Rendering
mod Journey
use go_platform_kit.Common.{
  ℕ, ◌≡◌, ◌≢◌, ◌↔◌, ◌⊎◌, ◌≤◌, inl, refl, true, false, none, some, [], ◌∷◌, Text, text_eq, nat_eq,
  ◌==◌, bytes, Unicode, arith, lookup, if◌then◌else◌, to_lower, trim_space, trim_left, is_space,
  lower_byte, one_of, text_beq, insert,
}
use go_platform_kit.Errors.Codes.{
  Code, parse_code, format_code, normalize, code_of_parts, split_on, join_with, err_prefix,
}
use go_platform_kit.Errors.Codes.RoundTrip.{NoSep, parse_code_iff}
use go_platform_kit.Errors.Registry.{
  Registry, ReasonSpec, returned, register_reason, lookup_reason, builtin_title_for_reason,
  apply_options,
}
use go_platform_kit.Errors.Registry.Laws.{InRange, overrides, lookup-register_reason}
use go_platform_kit.Errors.Taxonomy.{
  Framework, status_code, safe_error, from_result_code, resource, map_reason,
}
use go_platform_kit.Errors.Envelope.{status_for_code, title_for_code}
use go_platform_kit.Errors.Envelope.Table.{FrameworkLaws}
use go_platform_kit.Errors.Envelope.Agreement.{from_result_code_unknown}

abbrev pub ascii : Unicode
ascii = record { lower_wide = λ s. s; trim_wide = λ s. s }

-- A foreign error is its text and its status.
abbrev pub azugo : Framework
azugo = record {
  Foreign = Text × ℕ;
  not_found = λ resource. (resource, 404);
  forbidden = (bytes "forbidden", 403);
  unauthorized = (bytes "unauthorized", 401);
  bad_request = λ description. (description, 400);
  param_required = λ name. (name, 400);
  status_code = λ f. some f.1;
  error_code = λ f. none;
  safe_error = λ f. none;
  message = λ f. f.0;
  is_validation = λ f. false;
  headers = λ f. none;
}

pub azugo-FrameworkLaws : FrameworkLaws azugo
azugo-FrameworkLaws = record {
  not_found_status = λ _. refl;
  forbidden_status = refl;
  unauthorized_status = refl;
  bad_request_status = λ _. refl;
  param_required_status = λ _. refl;
}

abbrev pub locked : ReasonSpec
locked = record { status = 423; title = bytes "Document is locked" }

abbrev pub registry : Registry
registry = (bytes "locked", locked) ∷ []

abbrev pub locked_code : Code
locked_code = record { domain = bytes "document"; reason = bytes "locked" }

parse_code_iff_example : (parse_code ascii (bytes "err:document:locked") ≡ some locked_code) ↔ (
    (trim_space ascii (bytes "err:document:locked") ≡ format_code locked_code)
    × NoSep b':' locked_code.reason)
parse_code_iff_example = parse_code_iff ascii (bytes "err:document:locked") locked_code

lookup-register_reason_example :
    ((registry' : Registry) × (register_reason ascii [] (bytes "Locked") locked []
        ≡ returned registry')
      × ((other : Text)
          → lookup_reason ascii registry' other ≡ (
              if normalize ascii (bytes "Locked") == normalize ascii other
              then some locked
              else lookup_reason ascii [] other)))
    ↔ ((100 ≤ 423)
        × (423 ≤ 599)
        × ((builtin_title_for_reason ascii (bytes "Locked") ≡ none) ⊎ (overrides [] ≡ true)))
lookup-register_reason_example = lookup-register_reason ascii [] (bytes "Locked") locked []

no_reason-InRange : InRange ascii []
unfolding lookup_reason lookup
no_reason-InRange reason spec h = cc

registered_locked : register_reason ascii [] (bytes "Locked") locked [] ≡ returned registry
unfolding register_reason normalize builtin_title_for_reason one_of to_lower trim_space trim_left
    is_space lower_byte apply_options bytes text_beq insert
registered_locked = refl

no_code : parse_code ascii (bytes "boom") ≡ none
unfolding parse_code code_of_parts split_on trim_space trim_left is_space bytes
no_code = refl

abbrev not_found_code : Code
not_found_code = record { domain = bytes "user"; reason = bytes "not_found" }

from_result_code_unknown_example :
    (status_code azugo (from_result_code azugo ascii registry (bytes "boom") []) ≡ some 500)
    × (safe_error azugo (from_result_code azugo ascii registry (bytes "boom") [])
        ≡ some (bytes "internal server error"))
    × (title_for_code ascii registry (bytes "boom") ≡ none)
from_result_code_unknown_example =
    from_result_code_unknown azugo azugo-FrameworkLaws ascii registry (bytes "boom") []
      (inl no_code)

pub parsed_locked : parse_code ascii (bytes "err:document:locked") ≡ some locked_code
unfolding parse_code code_of_parts split_on join_with err_prefix trim_space trim_left is_space bytes
    text_beq
parsed_locked = refl

pub found_locked : lookup_reason ascii registry (bytes "locked") ≡ some locked
unfolding lookup_reason normalize lookup to_lower trim_space trim_left is_space lower_byte bytes
    text_beq
found_locked = refl

locked_423 : status_for_code ascii registry azugo (bytes "err:document:locked") ≡ 423
unfolding status_for_code from_result_code map_reason status_code parse_code code_of_parts split_on
    join_with err_prefix lookup_reason normalize lookup to_lower trim_space trim_left is_space
    lower_byte bytes text_beq
locked_423 = refl

locked_nonzero : status_for_code ascii registry azugo (bytes "err:document:locked") ≢ 0
locked_nonzero h = let e = locked_423 in ground arith
