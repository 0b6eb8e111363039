-- ===== src/Errors/Taxonomy.antt =====
-- errors/errors.go: the errors of the package, `mapReason`, `FromResultCode` and `HTTP`. The error
-- types of the framework and of a service are a parameter, `Framework`, with the interfaces that
-- the package asks them for.
use go_platform_kit.Common.{
  ℕ, Bool, Option, none, some, List, [], ◌∷◌, ◌++◌, Text, text_eq, bytes, Unicode, one_of, is_empty,
  if◌then◌else◌, or_else,
}
use go_platform_kit.Errors.Codes.{Code, normalize, parse_code, format_code}
use go_platform_kit.Errors.Registry.{Registry, lookup_reason}
use go_platform_kit.Errors.Problem.{Problem, problem_status_code, error_text}

-- `Foreign` is the type of errors whose types stand outside the package. An interface that a type
-- does not implement is `none`.
pub record Framework : Type 1 where
  pub Foreign : Type 0
  pub not_found : Text → Foreign
  pub forbidden : Foreign
  pub unauthorized : Foreign
  pub bad_request : Text → Foreign
  pub param_required : Text → Foreign
  pub status_code : Foreign → Option ℕ
  pub error_code : Foreign → Option Text
  pub safe_error : Foreign → Option Text
  pub message : Foreign → Text
  pub is_validation : Foreign → Bool
  pub headers : Foreign → Option (List (Text × Text))

-- A Go error. `wrapping` is a foreign error whose `Unwrap` gives another one.
pub data GoError (F : Framework) : Type 0 where
  problem : Problem → GoError F
  conflict : Text → GoError F
  gone : Text → GoError F
  internal : GoError F → GoError F
  internal_nil : GoError F
  registered : (code : Text) (status : ℕ) (safe : Text) → GoError F
  err_string : Text → GoError F
  foreign : F.Foreign → GoError F
  wrapping : F.Foreign → GoError F → GoError F

-- `resource`
unfoldable pub resource : Text → Text → Text
resource domain safe = if is_empty safe then domain else safe

-- `msg`
unfoldable pub msg : List Text → Text
msg [] = []
msg (m ∷ _) = m

module _ (F : Framework) where
  -- `Error` of each type.
  unfoldable pub message : GoError F → Text
  message (problem p) = error_text p
  message (conflict resource) =
      if is_empty resource then bytes "conflict" else resource ++ bytes " conflict"
  message (gone resource) =
      if is_empty resource
      then bytes "no longer available"
      else resource ++ bytes " no longer available"
  message (internal e) = message e
  message internal_nil = bytes "internal error"
  message (registered code status safe) = safe
  message (err_string s) = s
  message (foreign f) = F.message f
  message (wrapping f e) = F.message f

  -- The value's own `SafeError`, where its type has one.
  unfoldable pub safe_error : GoError F → Option Text
  unfolding message
  safe_error (problem p) = some p.title
  safe_error (conflict resource) = some (message (conflict resource))
  safe_error (gone resource) = some (message (gone resource))
  safe_error (internal e) = some (bytes "internal server error")
  safe_error internal_nil = some (bytes "internal server error")
  safe_error (registered code status safe) = some safe
  safe_error (err_string s) = none
  safe_error (foreign f) = F.safe_error f
  safe_error (wrapping f e) = F.safe_error f

  -- The value's own `StatusCode`, where its type has one.
  unfoldable pub status_code : GoError F → Option ℕ
  unfolding problem_status_code
  status_code (problem p) = some (problem_status_code p)
  status_code (conflict resource) = some 409
  status_code (gone resource) = some 410
  status_code (internal e) = some 500
  status_code internal_nil = some 500
  status_code (registered code status safe) = some status
  status_code (err_string s) = none
  status_code (foreign f) = F.status_code f
  status_code (wrapping f e) = F.status_code f

  -- The value's own `ErrorCode` (`Coder`).
  unfoldable pub error_code : GoError F → Option Text
  error_code (registered code status safe) = some code
  error_code (foreign f) = F.error_code f
  error_code (wrapping f e) = F.error_code f
  error_code _ = none

  -- `errors.As` for an interface: the first error of the chain that has it.
  unfoldable pub as_interface {ℓ} : {A : Type ℓ} → (GoError F → Option A) → GoError F → Option A
  as_interface own (internal e) = or_else (own (internal e)) (as_interface own e)
  as_interface own (wrapping f e) = or_else (own (wrapping f e)) (as_interface own e)
  as_interface own e = own e

  module _ (u : Unicode) (registry : Registry) where
    -- The `switch` of `mapReason`.
    unfoldable pub map_builtin : Code → Text → GoError F
    unfolding resource
    map_builtin c safe =
        let key = normalize u c.reason in
        if one_of key
          (bytes "notfound" ∷ bytes "missing" ∷ bytes "unknown" ∷ bytes "doesnotexist" ∷ [])
        then foreign (F.not_found (resource c.domain safe))
        else if one_of key (
            bytes "forbidden"
            ∷ bytes "accessdenied"
            ∷ bytes "denied"
            ∷ bytes "notallowed"
            ∷ bytes "notpermitted"
            ∷ [])
        then foreign F.forbidden
        else if one_of key (bytes "unauthorized" ∷ bytes "unauthenticated" ∷ [])
        then foreign F.unauthorized
        else if one_of key
            (bytes "conflict" ∷ bytes "alreadyexists" ∷ bytes "duplicate" ∷ bytes "exists" ∷ [])
        then conflict (resource c.domain safe)
        else if one_of key (bytes "gone" ∷ bytes "expired" ∷ bytes "revoked" ∷ [])
        then gone (resource c.domain safe)
        else if one_of key (
            bytes "invalid"
            ∷ bytes "validation"
            ∷ bytes "malformed"
            ∷ bytes "badrequest"
            ∷ bytes "badinput"
            ∷ [])
        then foreign (F.bad_request safe)
        else if one_of key (bytes "required" ∷ bytes "missingparameter" ∷ bytes "missingfield" ∷ [])
        then foreign (F.param_required c.domain)
        else internal (err_string (format_code c))

    unfoldable pub map_reason : Code → Text → GoError F
    map_reason c safe = elim (lookup_reason u registry c.reason) [
      | some spec ↦ registered (format_code c) spec.status (resource spec.title safe)
      | none ↦ map_builtin c safe
    ]

    unfoldable pub from_result_code : Text → List Text → GoError F
    from_result_code code safe_msg = elim (parse_code u code) [
      | none ↦ internal (err_string code)
      | some parsed ↦ map_reason parsed (msg safe_msg)
    ]

    unfoldable pub http : Text → Text → List Text → GoError F
    http domain reason safe_msg =
        map_reason (record { domain = domain; reason = reason }) (msg safe_msg)
