-- ===== src/Web.antt =====
-- web/web.go: `PathParam`, with `url.PathUnescape` of Go's library. The parameters that the router
-- captured are a function of their names.
pub mod Laws
mod Tests
use go_platform_kit.Common.{
  ℕ, ◌+◌, ◌-◌, ◌*◌, Bool, true, false, ◌&&◌, Option, none, some, List, [], ◌∷◌, Text, nat_eq, ◌==◌,
  leb, if◌then◌else◌, option_or,
}

-- The value of a hexadecimal digit.
unfoldable pub unhex : ℕ → Option ℕ
unhex c =
    if leb b'0' c && leb c b'9'
    then some (c - 48)
    else if leb b'a' c && leb c b'f'
    then some (c - 87)
    else if leb b'A' c && leb c b'F'
    then some (c - 55)
    else none

abbrev pub push : ℕ → Option Text → Option Text
push c none = none
push c (some s) = some (c ∷ s)

-- A byte of two digits before a decoded rest.
abbrev pub push_digits : Option ℕ → Option ℕ → Option Text → Option Text
push_digits (some h) (some l) (some s) = some ((h * 16 + l) ∷ s)
push_digits _ _ _ = none

-- `url.PathUnescape`; an error is `none`.
unfoldable pub path_unescape : Text → Option Text
path_unescape [] = some []
path_unescape (c ∷ []) = if c == b'%' then none else some (c ∷ [])
path_unescape (c ∷ a ∷ []) = elim (c == b'%') [
  | true ↦ none
  | false ↦ push c (path_unescape (a ∷ []))
]
path_unescape (c ∷ a ∷ b ∷ s) = elim (c == b'%') [
  | true ↦ push_digits (unhex a) (unhex b) (path_unescape s)
  | false ↦ push c (path_unescape (a ∷ b ∷ s))
]

unfoldable pub path_param : (params : Text → Text) → (key : Text) → Text
path_param params key = option_or (path_unescape (params key)) (params key)
