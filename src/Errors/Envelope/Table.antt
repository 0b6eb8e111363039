-- ===== src/Errors/Envelope/Table.antt =====
-- The taxonomy as a table: the two `switch` statements of `mapReason` and of the titles, row by row.
use go_platform_kit.Common.{
  ◌≡◌, inl, inr, refl, Option, none, some, List, [], ◌∷◌, Text, text_eq, bytes, Unicode, Bool-cases,
  one_of,
}
use go_platform_kit.Errors.Codes.{Code, normalize, format_code}
use go_platform_kit.Errors.Registry.{Registry, builtin_title_for_reason}
use go_platform_kit.Errors.Taxonomy.{
  Framework, GoError, internal, err_string, status_code, map_builtin,
}

-- The statuses that the framework documents for its error types.
pub record FrameworkLaws (F : Framework) : Type 0 where
  pub not_found_status : (resource : Text) → F.status_code (F.not_found resource) ≡ some 404
  pub forbidden_status : F.status_code F.forbidden ≡ some 403
  pub unauthorized_status : F.status_code F.unauthorized ≡ some 401
  pub bad_request_status :
      (description : Text) → F.status_code (F.bad_request description) ≡ some 400
  pub param_required_status : (name : Text) → F.status_code (F.param_required name) ≡ some 400

abbrev not_found_words : List Text
not_found_words = bytes "notfound" ∷ bytes "missing" ∷ bytes "unknown" ∷ bytes "doesnotexist" ∷ []

abbrev forbidden_words : List Text
forbidden_words =
    bytes "forbidden"
    ∷ bytes "accessdenied"
    ∷ bytes "denied"
    ∷ bytes "notallowed"
    ∷ bytes "notpermitted"
    ∷ []

abbrev unauthorized_words : List Text
unauthorized_words = bytes "unauthorized" ∷ bytes "unauthenticated" ∷ []

abbrev conflict_words : List Text
conflict_words = bytes "conflict" ∷ bytes "alreadyexists" ∷ bytes "duplicate" ∷ bytes "exists" ∷ []

abbrev gone_words : List Text
gone_words = bytes "gone" ∷ bytes "expired" ∷ bytes "revoked" ∷ []

abbrev invalid_words : List Text
invalid_words =
    bytes "invalid"
    ∷ bytes "validation"
    ∷ bytes "malformed"
    ∷ bytes "badrequest"
    ∷ bytes "badinput"
    ∷ []

abbrev required_words : List Text
required_words = bytes "required" ∷ bytes "missingparameter" ∷ bytes "missingfield" ∷ []

-- A row: the title of a reason and the status of the error that it maps to. A reason that is not
-- built in has no title, and its error is internal.
pub data Row (F : Framework) (title : Option Text) (err : GoError F) : Type 0 where
  not_found_row : title ≡ some (bytes "Not found") → status_code F err ≡ some 404 → Row F title err
  forbidden_row : title ≡ some (bytes "Forbidden") → status_code F err ≡ some 403 → Row F title err
  unauthorized_row :
      title ≡ some (bytes "Unauthorized") → status_code F err ≡ some 401 → Row F title err
  conflict_row : title ≡ some (bytes "Conflict") → status_code F err ≡ some 409 → Row F title err
  gone_row :
      title ≡ some (bytes "No longer available") → status_code F err ≡ some 410 → Row F title err
  invalid_row :
      title ≡ some (bytes "Invalid request") → status_code F err ≡ some 400 → Row F title err
  required_row :
      title ≡ some (bytes "Missing required parameter")
      → status_code F err ≡ some 400
      → Row F title err
  unknown_row : (cause : GoError F) → title ≡ none → err ≡ internal cause → Row F title err

module _ (F : Framework) (laws : FrameworkLaws F) (u : Unicode) (registry : Registry) where
  -- For every reason the title and the mapped error stand in one row of the table.
  pub builtin-Row :
      (c : Code) (safe : Text)
      → Row F (builtin_title_for_reason u c.reason) (map_builtin F u registry c safe)
  unfolding map_builtin builtin_title_for_reason status_code
  builtin-Row c safe = elim (Bool-cases (one_of (normalize u c.reason) not_found_words)) [
    | inl h ↦ not_found_row (rw (h)) (rw (h) (laws.not_found_status _))
    | inr f0 ↦ elim (Bool-cases (one_of (normalize u c.reason) forbidden_words)) [
      | inl h ↦ forbidden_row (rw (f0, h)) (rw (f0, h) (laws.forbidden_status))
      | inr f1 ↦ elim (Bool-cases (one_of (normalize u c.reason) unauthorized_words)) [
        | inl h ↦ unauthorized_row (rw (f0, f1, h)) (rw (f0, f1, h) (laws.unauthorized_status))
        | inr f2 ↦ elim (Bool-cases (one_of (normalize u c.reason) conflict_words)) [
          | inl h ↦ conflict_row (rw (f0, f1, f2, h)) (rw (f0, f1, f2, h) (refl))
          | inr f3 ↦ elim (Bool-cases (one_of (normalize u c.reason) gone_words)) [
            | inl h ↦ gone_row (rw (f0, f1, f2, f3, h)) (rw (f0, f1, f2, f3, h) (refl))
            | inr f4 ↦ elim (Bool-cases (one_of (normalize u c.reason) invalid_words)) [
              | inl h ↦
                  invalid_row (rw (f0, f1, f2, f3, f4, h))
                    (rw (f0, f1, f2, f3, f4, h) (laws.bad_request_status safe))
              | inr f5 ↦ elim (Bool-cases (one_of (normalize u c.reason) required_words)) [
                | inl h ↦
                    required_row (rw (f0, f1, f2, f3, f4, f5, h))
                      (rw (f0, f1, f2, f3, f4, f5, h) (laws.param_required_status c.domain))
                | inr f6 ↦
                    unknown_row (err_string (format_code c)) (rw (f0, f1, f2, f3, f4, f5, f6))
                      (rw (f0, f1, f2, f3, f4, f5, f6))
              ]
            ]
          ]
        ]
      ]
    ]
  ]
