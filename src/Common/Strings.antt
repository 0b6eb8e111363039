-- ===== src/Common/Strings.antt =====
-- Go's strings, as lists of bytes, with what the program uses of the package `strings`.
-- The case mapping and the trimming of texts that hold a byte above 127 follow the Unicode tables
-- of the Go distribution: they are a parameter, `Unicode`.
use Prim.Native.Nat.{ℕ, ◌+◌}
use Prim.Native.Char.{code}
use Prim.Native.String.{String}
use mathlib.Core.Path.{◌≡◌, refl}
use mathlib.Core.Logic.{◌↔◌}
use mathlib.Core.Bool.{Bool, true, false, ◌&&◌, ◌||◌}
use mathlib.Core.List.{List, [], ◌∷◌, map, reverse}
use native.Mathlib.Omega.{arith}
use go_platform_kit.Common.Tests.{ltb, leb, Comparable, ◌==◌, nat_eq, if◌then◌else◌}
use go_platform_kit.Common.Lists.{all, any}

abbrev pub Text : Type 0
Text = List ℕ

-- The bytes of a literal; the literals of the program are ASCII.
unfoldable pub bytes : String → Text
bytes String.[] = []
bytes (String.◌∷◌ c s) = code c ∷ bytes s

unfoldable pub text_beq : Text → Text → Bool
text_beq [] [] = true
text_beq [] (b ∷ t) = false
text_beq (a ∷ s) [] = false
text_beq (a ∷ s) (b ∷ t) = (a == b) && text_beq s t

pub text_beq_iff : (s t : Text) → (text_beq s t ≡ true) ↔ (s ≡ t)
unfolding text_beq
text_beq_iff [] [] = ground arith
text_beq_iff [] (b ∷ t) = ground arith
text_beq_iff (a ∷ s) [] = ground arith
text_beq_iff (a ∷ s) (b ∷ t) = ground (arith, text_beq_iff s t)

instance abbrev pub text_eq : Comparable Text
text_eq = record { same = text_beq; same_iff = text_beq_iff }

pub text_beq_refl : (s : Text) → text_beq s s ≡ true
text_beq_refl s = (text_beq_iff s s).1 refl

-- `s == ""`
abbrev pub is_empty {ℓ} : {A : Type ℓ} → List A → Bool
is_empty [] = true
is_empty (_ ∷ _) = false

-- A `switch` case that lists several values.
unfoldable pub one_of : Text → List Text → Bool
one_of s words = any (λ w. s == w) words

-- What the Unicode tables add beyond ASCII.
pub record Unicode : Type 0 where
  pub lower_wide : Text → Text
  pub trim_wide : Text → Text

abbrev pub is_ascii : ℕ → Bool
is_ascii c = ltb c 128

unfoldable pub lower_byte : ℕ → ℕ
lower_byte c = if leb b'A' c && leb c b'Z' then c + 32 else c

unfoldable pub is_space : ℕ → Bool
is_space c = (leb 9 c && leb c 13) || c == 32

-- `strings.ToLower`
unfoldable pub to_lower : Unicode → Text → Text
unfolding lower_byte
to_lower u s = if all is_ascii s then map lower_byte s else u.lower_wide s

unfoldable pub trim_left : Text → Text
unfolding is_space
trim_left [] = []
trim_left (c ∷ s) = if is_space c then trim_left s else c ∷ s

-- `strings.TrimSpace`
unfoldable pub trim_space : Unicode → Text → Text
unfolding trim_left
trim_space u s =
    if all is_ascii s then reverse (trim_left (reverse (trim_left s))) else u.trim_wide s

unfoldable pub starts_with : Text → Text → Bool
starts_with s [] = true
starts_with [] (c ∷ t) = false
starts_with (a ∷ s) (c ∷ t) = (a == c) && starts_with s t

-- `strings.Contains`
unfoldable pub contains : Text → Text → Bool
unfolding starts_with
contains [] t = is_empty t
contains (c ∷ s) t = starts_with (c ∷ s) t || contains s t
