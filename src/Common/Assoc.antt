-- ===== src/Common/Assoc.antt =====
-- Go's maps, as association lists over keys with an equality.
use mathlib.Core.Path.{◌≡◌, refl}
use mathlib.Core.List.{List, [], ◌∷◌}
use mathlib.Core.Option.{Option, none, some}
use native.Mathlib.Omega.{arith}
use go_platform_kit.Common.Tests.{Comparable, ◌==◌, if◌then◌else◌}

module _ {ℓ κ} {K : Type ℓ} {V : Type κ} ⦃e : Comparable K⦄ where
  -- `m[key]`, with what is found or the missing key.
  unfoldable pub lookup : K → List (K × V) → Option V
  lookup key [] = none
  lookup key ((first, value) ∷ rest) = if first == key then some value else lookup key rest

  -- `m[key] = value`
  unfoldable pub insert : K → V → List (K × V) → List (K × V)
  insert key new [] = (key, new) ∷ []
  insert key new ((first, value) ∷ rest) =
      if first == key then (key, new) ∷ rest else (first, value) ∷ insert key new rest

  -- `delete(m, key)`; every entry of the key goes.
  unfoldable pub delete : K → List (K × V) → List (K × V)
  delete key [] = []
  delete key ((first, value) ∷ entries) =
      let rest = delete key entries in if first == key then rest else (first, value) ∷ rest

  -- What is found after an insertion, and after a deletion.
  pub lookup-insert :
      (key asked : K) (new : V) (entries : List (K × V))
      → lookup asked (insert key new entries)
        ≡ (if key == asked then some new else lookup asked entries)
  unfolding insert lookup
  lookup-insert key asked new [] = refl
  lookup-insert key asked new ((first, value) ∷ rest) = ground (
    arith,
    lookup-insert key asked new rest,
    e.same_iff first key,
    e.same_iff first asked,
    e.same_iff key asked,
  )

  pub lookup-delete :
      (key asked : K) (entries : List (K × V))
      → lookup asked (delete key entries) ≡ (if key == asked then none else lookup asked entries)
  unfolding delete lookup
  lookup-delete key asked [] = ground arith
  lookup-delete key asked ((first, value) ∷ rest) = ground (
    arith,
    lookup-delete key asked rest,
    e.same_iff first key,
    e.same_iff first asked,
    e.same_iff key asked,
  )
