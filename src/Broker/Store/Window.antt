-- ===== src/Broker/Store/Window.antt =====
-- What a bounded FIFO set is, apart from the store: the last ids of a history of distinct ones.
use go_platform_kit.Common.{
  ℕ, zero, suc, ◌+◌, ◌-◌, ◌≤◌, ◌<◌, ◌≡◌, refl, ap, sym, ◌∙◌, Bool, true, false, ◌||◌, List, [], ◌∷◌,
  ◌++◌, arith, Text, text_eq, text_beq_iff, text_beq_refl, append-nil, append_assoc, inl, inr, ◌==◌,
  length, drop, any, if◌then◌else◌, length-append, length-drop, drop-append, Bool-cases,
}

-- Whether an id is among the ids.
unfoldable pub elem : Text → List Text → Bool
elem k xs = any (λ x. x == k) xs

-- The last `n` ids.
unfoldable pub window : ℕ → List Text → List Text
window n xs = drop (length xs - n) xs

-- A history takes an id that its window does not hold.
unfoldable pub note : ℕ → List Text → Text → List Text
note n h k = if elem k (window n h) then h else h ++ k ∷ []

-- No id occurs twice.
abbrev pub Distinct : List Text → Type 0
Distinct [] = Unit
Distinct (x ∷ xs) = (elem x xs ≡ false) × Distinct xs

pub elem-cons : (k x : Text) (xs : List Text) → elem k (x ∷ xs) ≡ ((x == k) || elem k xs)
unfolding elem
elem-cons k x xs = refl

pub elem-append : (k : Text) (xs ys : List Text) → elem k (xs ++ ys) ≡ (elem k xs || elem k ys)
unfolding elem
elem-append k [] ys = refl
elem-append k (x ∷ xs) ys = ground (arith, elem-append k xs ys)

pub elem-concat : (k j : Text) (xs : List Text) → elem k (xs ++ j ∷ []) ≡ (elem k xs || (j == k))
unfolding elem
elem-concat k j [] = ground arith
elem-concat k j (x ∷ xs) = ground (arith, elem-concat k j xs)

pub Distinct-concat :
    (xs : List Text) (k : Text) → Distinct xs → elem k xs ≡ false → Distinct (xs ++ k ∷ [])
unfolding elem
Distinct-concat [] k d h = (refl, tt)
Distinct-concat (x ∷ xs) k (fresh, d) h = (
  ground (arith, elem-concat x k xs, text_beq_iff x k, text_beq_iff k x),
  Distinct-concat xs k d (ground arith),
)

drop-nil : (k : ℕ) → drop {A = Text} k [] ≡ []
drop-nil zero = refl
drop-nil (suc k) = refl

drop-drop : (m n : ℕ) (xs : List Text) → drop m (drop n xs) ≡ drop (n + m) xs
drop-drop m zero xs = let e : m ≡ zero + m = omega arith in ap (λ k. drop k xs) e
drop-drop m (suc n) [] = drop-nil m ∙ sym (drop-nil (suc n + m))
drop-drop m (suc n) (x ∷ xs) =
    let e : suc (n + m) ≡ suc n + m = omega arith in drop-drop m n xs ∙ ap (λ k. drop k (x ∷ xs)) e

pub length-window-le : (n : ℕ) (xs : List Text) → length (window n xs) ≤ n
unfolding window
length-window-le n xs = omega (arith, length-drop (length xs - n) xs)

-- To append an id and keep the last `n`, the last `n` are all that matter.
pub window-concat :
    (n : ℕ) (xs : List Text) (k : Text) → window n (window n xs ++ k ∷ []) ≡ window n (xs ++ k ∷ [])
unfolding window
window-concat n xs k =
    let gone : ℕ = length xs - n in
    let kept : drop gone xs ++ k ∷ [] ≡ drop gone (xs ++ k ∷ []) =
      sym (drop-append gone xs (k ∷ []) (omega arith)) in
    rw kept (
      let rest : ℕ = length (drop gone (xs ++ k ∷ [])) - n in
      let e : gone + rest ≡ length (xs ++ k ∷ []) - n =
        omega (arith, length-drop gone (xs ++ k ∷ []), length-append xs (k ∷ [])) in
      drop-drop rest gone (xs ++ k ∷ []) ∙ ap (λ m. drop m (xs ++ k ∷ [])) e)

-- A window of `n` holds an id of the history if fewer than `n` came after it.
pub elem-window :
    (n : ℕ) (before after : List Text) (k : Text)
    → length after < n
    → elem k (window n (before ++ k ∷ after)) ≡ true
unfolding window
elem-window n before after k h =
    let gone : ℕ = length (before ++ k ∷ after) - n in
    let kept : drop gone (before ++ k ∷ after) ≡ drop gone before ++ k ∷ after =
      drop-append gone before (k ∷ after) (omega (arith, length-append before (k ∷ after))) in
    ground (
      arith,
      ap (elem k) kept,
      elem-append k (drop gone before) (k ∷ after),
      elem-cons k k after,
      text_beq_refl k,
    )

-- A list that is not too long is its own window.
pub window_of_length-le : (n : ℕ) (xs : List Text) → length xs ≤ n → window n xs ≡ xs
unfolding window
window_of_length-le n xs h = let e : length xs - n ≡ 0 = omega arith in rw e

abbrev pub notes : ℕ → List Text → List Text → List Text
notes n h [] = h
notes n h (k ∷ ks) = notes n (note n h k) ks

-- A history only grows, by at most one id for each note.
pub notes_grow :
    (n : ℕ) (h ks : List Text)
    → (added : List Text) × (notes n h ks ≡ h ++ added) × (length added ≤ length ks)
unfolding note
notes_grow n h [] = ([], sym (append-nil h), omega arith)
notes_grow n h (k ∷ ks) = elim (Bool-cases (elem k (window n h))) [
  | inl old ↦ let (added, e, le) = notes_grow n h ks in (added, rw old e, omega arith)
  | inr new ↦
      let (added, e, le) = notes_grow n (h ++ k ∷ []) ks in
      (k ∷ added, rw new (e ∙ append_assoc h (k ∷ []) added), omega arith)
]
