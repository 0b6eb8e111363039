-- ===== src/Correlation/Laws.antt =====
-- One id for a request: bound, echoed, logged and traced; and what `ValidID` lets in.
use mathlib.Core.List.{reverse, reverse-reverse, reverse-cons}
use go_platform_kit.Common.{
  ℕ, ◌≤◌, ◌≡◌, ◌↔◌, ◌⊎◌, refl, true, [], ◌∷◌, ◌++◌, Text, text_eq, nat_eq, Unicode, trim_space,
  trim_left, is_space, is_ascii, length, arith, all, All,
}
use go_platform_kit.Correlation.{is_valid_byte, are_valid_bytes, valid_id}

-- A byte that an id may hold: a letter, a digit, a dot, an underscore or a dash.
abbrev pub IdByte : ℕ → Type 0
IdByte c =
    ((97 ≤ c) × (c ≤ 122))
    ⊎ (((65 ≤ c) × (c ≤ 90)) ⊎ (((48 ≤ c) × (c ≤ 57)) ⊎ ((c ≡ 46) ⊎ ((c ≡ 95) ⊎ (c ≡ 45)))))

is_valid_byte_iff : (c : ℕ) → (is_valid_byte c ≡ true) ↔ IdByte c
unfolding is_valid_byte
is_valid_byte_iff c = ground arith

are_valid_bytes_iff : (s : Text) → (are_valid_bytes s ≡ true) ↔ All IdByte s
unfolding are_valid_bytes
are_valid_bytes_iff [] = (λ _. tt, λ _. refl)
are_valid_bytes_iff (c ∷ s) = (
  λ h. ((is_valid_byte_iff c).0 (ground arith), (are_valid_bytes_iff s).0 (ground arith)),
  λ h.
      let first = (is_valid_byte_iff c).1 h.0 in
      let rest = (are_valid_bytes_iff s).1 h.1 in rw (first, rest),
)

-- `ValidID` accepts exactly the texts of 1 to 128 bytes that are letters, digits, dots, underscores
-- and dashes.
pub valid_id_iff :
    (s : Text) → (valid_id s ≡ true) ↔ ((1 ≤ length s) × (length s ≤ 128) × All IdByte s)
unfolding valid_id
valid_id_iff [] = (λ h. absurd (ground arith), λ h. absurd (omega arith))
valid_id_iff (c ∷ s) = (
  λ h. (omega arith, ground arith, (are_valid_bytes_iff (c ∷ s)).0 (ground arith)),
  λ h. let bytes_ok = (are_valid_bytes_iff (c ∷ s)).1 h.2 in let fits = h.1 in ground arith,
)

-- Trimming leaves a valid id as it is.
trim_left_id : (s : Text) → All IdByte s → trim_left s ≡ s
unfolding trim_left is_space
trim_left_id [] h = refl
trim_left_id (c ∷ s) (p, h) = ground arith

all_ascii_id : (s : Text) → All IdByte s → all is_ascii s ≡ true
all_ascii_id [] h = refl
all_ascii_id (c ∷ s) (p, h) = let rest = all_ascii_id s h in ground arith

All-concat : (s : Text) (c : ℕ) → All IdByte s → IdByte c → All IdByte (s ++ c ∷ [])
All-concat [] c h p = (p, tt)
All-concat (d ∷ s) c (q, h) p = (q, All-concat s c h p)

All-reverse : (s : Text) → All IdByte s → All IdByte (reverse s)
All-reverse [] h = tt
All-reverse (c ∷ s) (p, h) = rw (reverse-cons c s) (All-concat (reverse s) c (All-reverse s h) p)

pub trim_space_id : (u : Unicode) (s : Text) → valid_id s ≡ true → trim_space u s ≡ s
unfolding trim_space
trim_space_id u s h =
    let good = ((valid_id_iff s).0 h).2 in
    rw (all_ascii_id s good, trim_left_id s good, trim_left_id (reverse s) (All-reverse s good))
      (reverse-reverse s)
