-- ===== src/Errors/Registry.antt =====
-- errors/errors.go: the registry of reasons, and `builtinTitleForReasonOK` of errors/problem.go,
-- which the guard of `RegisterReason` consults. A panic is an outcome.
pub mod Laws
use go_platform_kit.Common.{
  ℕ, Bool, true, false, not, ◌&&◌, ◌||◌, Option, none, some, List, [], ◌∷◌, ◌++◌, Text, text_eq,
  bytes, Unicode, one_of, lookup, insert, is_some, ltb, if◌then◌else◌,
}
use go_platform_kit.Errors.Codes.{normalize}

pub record ReasonSpec : Type 0 where
  pub status : ℕ
  pub title : Text

-- The map of normalized reasons.
abbrev pub Registry : Type 0
Registry = List (Text × ReasonSpec)

pub record RegisterOptions : Type 0 where
  pub allow_builtin_override_set : Bool

abbrev pub RegisterOption : Type 0
RegisterOption = RegisterOptions → RegisterOptions

unfoldable pub allow_builtin_override : RegisterOption
allow_builtin_override o = record o { allow_builtin_override_set = true }

-- The options in turn.
unfoldable pub apply_options : List RegisterOption → RegisterOptions → RegisterOptions
apply_options [] o = o
apply_options (opt ∷ opts) o = apply_options opts (opt o)

pub data Outcome {ℓ} (A : Type ℓ) : Type ℓ where
  returned : A → Outcome A
  panicked : Text → Outcome A

module _ (u : Unicode) where
  unfoldable pub builtin_title_for_reason : Text → Option Text
  builtin_title_for_reason reason =
      let key = normalize u reason in
      if one_of key
        (bytes "notfound" ∷ bytes "missing" ∷ bytes "unknown" ∷ bytes "doesnotexist" ∷ [])
      then some (bytes "Not found")
      else if one_of key (
          bytes "forbidden"
          ∷ bytes "accessdenied"
          ∷ bytes "denied"
          ∷ bytes "notallowed"
          ∷ bytes "notpermitted"
          ∷ [])
      then some (bytes "Forbidden")
      else if one_of key (bytes "unauthorized" ∷ bytes "unauthenticated" ∷ [])
      then some (bytes "Unauthorized")
      else if one_of key
          (bytes "conflict" ∷ bytes "alreadyexists" ∷ bytes "duplicate" ∷ bytes "exists" ∷ [])
      then some (bytes "Conflict")
      else if one_of key (bytes "gone" ∷ bytes "expired" ∷ bytes "revoked" ∷ [])
      then some (bytes "No longer available")
      else if one_of key (
          bytes "invalid"
          ∷ bytes "validation"
          ∷ bytes "malformed"
          ∷ bytes "badrequest"
          ∷ bytes "badinput"
          ∷ [])
      then some (bytes "Invalid request")
      else if one_of key (bytes "required" ∷ bytes "missingparameter" ∷ bytes "missingfield" ∷ [])
      then some (bytes "Missing required parameter")
      else none

  unfoldable pub register_reason :
      Registry → Text → ReasonSpec → List RegisterOption → Outcome Registry
  unfolding apply_options
  register_reason registry reason spec opts =
      if ltb spec.status 100 || ltb 599 spec.status
      then Outcome.panicked (
          bytes "errors: reason "
          ++ (reason ++ bytes " registered with an out-of-range HTTP status"))
      else if is_some (builtin_title_for_reason reason)
          && not
              (apply_options opts
                (record { allow_builtin_override_set = false })).allow_builtin_override_set
      then Outcome.panicked (
          bytes "errors: reason "
          ++ (reason
              ++ bytes
                  " collides with a built-in taxonomy reason; pass AllowBuiltinOverride() if the shadowing is intentional"))
      else Outcome.returned (insert (normalize u reason) spec registry)

  unfoldable pub lookup_reason : Registry → Text → Option ReasonSpec
  lookup_reason registry reason = lookup (normalize u reason) registry
