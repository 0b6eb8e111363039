-- ===== src/Errors/Registry/Laws.antt =====
-- What `RegisterReason` checks, and what the registry gives afterwards.
use go_platform_kit.Common.{
  ◌≤◌, ◌≡◌, ◌↔◌, ◌⊎◌, inl, inr, sym, ◌∙◌, Bool, true, false, none, some, List, Text, text_eq,
  nat_eq, ◌==◌, arith, Unicode, if◌then◌else◌, Bool-cases, lookup, insert, lookup-insert,
}
use go_platform_kit.Errors.Codes.{normalize}
use go_platform_kit.Errors.Registry.{
  Registry, ReasonSpec, RegisterOption, returned, register_reason, lookup_reason,
  builtin_title_for_reason, apply_options,
}

-- Every registered reason has an HTTP status.
abbrev pub InRange : Unicode → Registry → Type 0
InRange u registry =
    (reason : Text) (spec : ReasonSpec)
    → lookup_reason u registry reason ≡ some spec
    → (100 ≤ spec.status) × (spec.status ≤ 599)

-- Whether the options let a built-in reason be shadowed.
abbrev pub overrides : List RegisterOption → Bool
overrides opts =
    (apply_options opts (record { allow_builtin_override_set = false })).allow_builtin_override_set

module _ (u : Unicode) where
  register_reason_sound :
      (registry registry' : Registry) (reason : Text) (spec : ReasonSpec)
      (opts : List RegisterOption)
      → register_reason u registry reason spec opts ≡ returned registry'
      → (100 ≤ spec.status)
        × (spec.status ≤ 599)
        × ((builtin_title_for_reason u reason ≡ none) ⊎ (overrides opts ≡ true))
        × (registry' ≡ insert (normalize u reason) spec registry)
  unfolding register_reason
  register_reason_sound registry registry' reason spec opts h = ground arith

  register_reason_complete :
      (registry : Registry) (reason : Text) (spec : ReasonSpec) (opts : List RegisterOption)
      → 100 ≤ spec.status
      → spec.status ≤ 599
      → (builtin_title_for_reason u reason ≡ none) ⊎ (overrides opts ≡ true)
      → register_reason u registry reason spec opts
        ≡ returned (insert (normalize u reason) spec registry)
  unfolding register_reason
  register_reason_complete registry reason spec opts lo hi free = ground arith

  -- A registration returns exactly when the status is an HTTP status and the reason is not built in
  -- or the override is given; then the reason, and every spelling of it, has the new entry, and all
  -- other reasons keep theirs.
  pub lookup-register_reason :
      (registry : Registry) (reason : Text) (spec : ReasonSpec) (opts : List RegisterOption)
      → (((registry' : Registry) × (register_reason u registry reason spec opts
              ≡ returned registry')
            × ((other : Text)
                → lookup_reason u registry' other ≡ (
                    if normalize u reason == normalize u other
                    then some spec
                    else lookup_reason u registry other)))
          ↔ ((100 ≤ spec.status)
              × (spec.status ≤ 599)
              × ((builtin_title_for_reason u reason ≡ none) ⊎ (overrides opts ≡ true))))
  unfolding lookup_reason
  lookup-register_reason registry reason spec opts = (
    λ p.
        let (lo, hi, free, _) = register_reason_sound registry p.0 reason spec opts p.1 in
        (lo, hi, free),
    λ q. (
      insert (normalize u reason) spec registry,
      register_reason_complete registry reason spec opts q.0 q.1 q.2,
      λ other. lookup-insert (normalize u reason) (normalize u other) spec registry,
    ),
  )

  -- Registrations keep every registered status an HTTP status.
  pub register_reason-InRange :
      (registry registry' : Registry) (reason : Text) (spec : ReasonSpec)
      (opts : List RegisterOption)
      → InRange u registry
      → register_reason u registry reason spec opts ≡ returned registry'
      → InRange u registry'
  unfolding lookup_reason
  register_reason-InRange registry registry' reason spec opts ok h other found e =
      let (lo, hi, _, same) = register_reason_sound registry registry' reason spec opts h in
      let there : (if normalize u reason == normalize u other
            then some spec
            else lookup (normalize u other) registry)
          ≡ some found =
        sym (lookup-insert (normalize u reason) (normalize u other) spec registry)
        ∙ (rw same at e) in
      elim (Bool-cases (normalize u reason == normalize u other)) [
        | inl eq ↦ ground arith
        | inr ne ↦ ok other found (rw ne at there)
      ]
