-- ===== src/Broker/Tokens.antt =====
-- broker/broker.go: `stripTokens`. A map is an association list in some order of its keys, since Go
-- ranges over a map in any order. The result is the map that the function returns, and whether it
-- is a copy: `none` is the caller's own map.
pub mod Laws
use go_platform_kit.Common.{
  Bool, true, false, Option, none, some, List, [], ◌∷◌, Text, text_eq, bytes, Unicode, to_lower,
  contains, delete, is_empty, if◌then◌else◌, option_or,
}

unfoldable pub token_key_substrings : List Text
unfolding bytes
token_key_substrings =
    bytes "authorization"
    ∷ bytes "bearer"
    ∷ bytes "token"
    ∷ bytes "dpop"
    ∷ bytes "proof"
    ∷ bytes "secret"
    ∷ bytes "password"
    ∷ bytes "credential"
    ∷ bytes "cookie"
    ∷ bytes "api_key"
    ∷ bytes "apikey"
    ∷ bytes "private_key"
    ∷ []

module _ (u : Unicode) {Value : Type 0} where
  -- The loop over the substrings for one key, which stops at the first hit.
  unfoldable pub strip_key :
      List (Text × Value)
      → Text
      → List Text
      → Option (List (Text × Value))
      → Option (List (Text × Value))
  unfolding to_lower contains delete
  strip_key attrs k [] out = out
  strip_key attrs k (s ∷ subs) out =
      let rest = strip_key attrs k subs out in
      if contains (to_lower u k) s then some (delete k (option_or out attrs)) else rest

  -- The loop over the keys; `out` is the copy, once one is made.
  unfoldable pub strip_loop :
      List (Text × Value)
      → List (Text × Value)
      → Option (List (Text × Value))
      → Option (List (Text × Value))
  unfolding strip_key token_key_substrings
  strip_loop attrs [] out = out
  strip_loop attrs ((k, _) ∷ rest) out =
      strip_loop attrs rest (strip_key attrs k token_key_substrings out)

  unfoldable pub strip_copy : List (Text × Value) → Option (List (Text × Value))
  unfolding strip_loop
  strip_copy attrs = if is_empty attrs then none else strip_loop attrs attrs none

  unfoldable pub strip_tokens : List (Text × Value) → List (Text × Value)
  unfolding strip_copy
  strip_tokens attrs = option_or (strip_copy attrs) attrs
