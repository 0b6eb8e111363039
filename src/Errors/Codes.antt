-- ===== src/Errors/Codes.antt =====
-- errors/errors.go: `ParseCode` and `normalize`.
pub mod RoundTrip
use go_platform_kit.Common.{
  ℕ, ◌+◌, ◌-◌, Bool, true, false, not, ◌||◌, Option, none, some, List, [], ◌∷◌, ◌++◌, map, Text,
  text_eq, nat_eq, Comparable, ◌==◌, bytes, Unicode, to_lower, trim_space, length, take, drop,
  get_or, keep, ltb, if◌then◌else◌,
}

unfoldable pub err_prefix : Text
err_prefix = bytes "err"

pub record Code : Type 0 where
  pub domain : Text
  pub reason : Text

-- The byte of a separator put before the first of the parts.
abbrev push_head : ℕ → List Text → List Text
push_head c [] = (c ∷ []) ∷ []
push_head c (p ∷ ps) = (c ∷ p) ∷ ps

-- `strings.Split` by one byte.
unfoldable pub split_on : ℕ → Text → List Text
split_on sep [] = [] ∷ []
split_on sep (c ∷ s) = let rest = split_on sep s in if c == sep then [] ∷ rest else push_head c rest

-- `strings.Join` by one byte.
unfoldable pub join_with : ℕ → List Text → Text
join_with sep [] = []
join_with sep (p ∷ []) = p
join_with sep (p ∷ q ∷ ps) = let rest = join_with sep (q ∷ ps) in p ++ sep ∷ rest

abbrev colon : ℕ
colon = b':'

-- What `ParseCode` makes of the parts.
unfoldable pub code_of_parts : List Text → Option Code
unfolding err_prefix
code_of_parts parts =
    if ltb (length parts) 3 || not (get_or parts 0 [] == err_prefix)
    then none
    else some (record {
      domain = join_with colon (take (length parts - 2) (drop 1 parts));
      reason = get_or parts (length parts - 1) [];
    })

unfoldable pub parse_code : Unicode → Text → Option Code
parse_code u code = code_of_parts (split_on colon (trim_space u code))

abbrev is_separator : ℕ → Bool
is_separator c = c == b'_' || c == b'-' || c == b' '

-- `normalize`
unfoldable pub normalize : Unicode → Text → Text
normalize u s = keep (λ c. not (is_separator c)) (to_lower u (trim_space u s))

-- A result code as text, `err:domain:reason`.
abbrev pub format_code : Code → Text
format_code c = err_prefix ++ colon ∷ (c.domain ++ colon ∷ c.reason)
