-- ===== src/Observability/Metrics/Laws.antt =====
-- One set of labels names one series, in whatever order the map is ranged over.
use mathlib.Core.List.{Perm, Permᴰ}
use mathlib.Core.Logic.{∥∥₁_elim}
use go_platform_kit.Common.{
  ◌≡◌, refl, ap, sym, ◌∙◌, subst, Bool, true, false, none, List, [], ◌∷◌, ◌++◌, map, arith, Text,
  text_eq, text_beq_iff, nat_eq, lookup, is_empty,
}
use go_platform_kit.Observability.Metrics.{
  text_le, insert_sorted, sort_strings, format_label, format_from, format_labels, series,
}

text_le_total : (s t : Text) → text_le s t ≡ false → text_le t s ≡ true
unfolding text_le
text_le_total [] t h = cc
text_le_total (a ∷ s) [] h = refl
text_le_total (a ∷ s) (b ∷ t) h = ground (arith, text_le_total s t)

text_le_antisym : (s t : Text) → text_le s t ≡ true → text_le t s ≡ true → s ≡ t
unfolding text_le
text_le_antisym [] [] h k = refl
text_le_antisym [] (b ∷ t) h k = cc
text_le_antisym (a ∷ s) [] h k = cc
text_le_antisym (a ∷ s) (b ∷ t) h k = ground (arith, text_le_antisym s t)

text_le_trans : (s t v : Text) → text_le s t ≡ true → text_le t v ≡ true → text_le s v ≡ true
unfolding text_le
text_le_trans [] t v h k = refl
text_le_trans (a ∷ s) [] v h k = cc
text_le_trans (a ∷ s) (b ∷ t) [] h k = cc
text_le_trans (a ∷ s) (b ∷ t) (c ∷ v) h k = ground (arith, text_le_trans s t v)

-- The order of two insertions does not matter.
insert_sorted_swap :
    (k j : Text) (l : List Text)
    → insert_sorted k (insert_sorted j l) ≡ insert_sorted j (insert_sorted k l)
unfolding insert_sorted
insert_sorted_swap k j [] = ground (arith, text_le_total k j, text_le_antisym k j)
insert_sorted_swap k j (x ∷ l) = ground (
  arith,
  insert_sorted_swap k j l,
  text_le_total k j,
  text_le_antisym k j,
  text_le_trans k j x,
  text_le_trans j k x,
  text_le_total k x,
  text_le_total j x,
  text_le_trans k x j,
  text_le_trans j x k,
)

-- The keys of a Go map are distinct.
abbrev pub DistinctKeys : List (Text × Text) → Type 0
DistinctKeys [] = Unit
DistinctKeys ((k, v) ∷ m) = (lookup k m ≡ none) × DistinctKeys m

abbrev keys : List (Text × Text) → List Text
keys m = map (λ e. e.0) m

-- Two lists of labels that `formatLabels` cannot tell apart.
abbrev Same : List (Text × Text) → List (Text × Text) → Type 0
Same m m' =
    DistinctKeys m'
    × ((k : Text) → lookup k m ≡ lookup k m')
    × (sort_strings (keys m) ≡ sort_strings (keys m'))
    × (is_empty m ≡ is_empty m')

Same-cons :
    (a : Text × Text) (m m' : List (Text × Text))
    → DistinctKeys (a ∷ m)
    → Same m m'
    → Same (a ∷ m) (a ∷ m')
unfolding lookup sort_strings
Same-cons (j, v) m m' (h, d) (d', same, sorted, _) =
    ((sym (same j) ∙ h, d'), (λ k. ground (arith, same k)), ap (insert_sorted j) sorted, refl)

Same-swap :
    (a b : Text × Text) (l : List (Text × Text))
    → DistinctKeys (a ∷ b ∷ l)
    → Same (a ∷ b ∷ l) (b ∷ a ∷ l)
unfolding lookup sort_strings
Same-swap (i, v) (j, w) l (h, (h', d)) = (
  (ground (arith, text_beq_iff i j, text_beq_iff j i), (ground (arith, text_beq_iff j i), d)),
  (λ k. ground (arith, text_beq_iff j i, text_beq_iff i k, text_beq_iff j k)),
  insert_sorted_swap i j (sort_strings (keys l)),
  refl,
)

swapped :
    {a b a' b' : Text × Text} (l : List (Text × Text)) → a ≡ b' → b ≡ a' → b ∷ a ∷ l ≡ a' ∷ b' ∷ l
swapped l e f = cc

Same-perm : {m m' : List (Text × Text)} → Permᴰ m m' → DistinctKeys m → Same m m'
Same-perm Permᴰ.nil d = (d, (λ k. refl), refl, refl)
Same-perm (Permᴰ.cons {a} {b} {l₁} {l₂} e p) d =
    subst (λ c. Same (a ∷ l₁) (c ∷ l₂)) e (Same-cons a l₁ l₂ d (Same-perm p d.1))
Same-perm (Permᴰ.swap {a} {b} {a'} {b'} {l} e f) d =
    subst (λ m. Same (a ∷ b ∷ l) m) (swapped l e f) (Same-swap a b l d)
Same-perm (Permᴰ.trans p q) d =
    let (d', same, sorted, e) = Same-perm p d in
    let (d'', same', sorted', e') = Same-perm q d' in
    (d'', (λ k. same k ∙ same' k), sorted ∙ sorted', e ∙ e')

format_from_lookups :
    (quote : Text → Text) (m m' : List (Text × Text)) (first : Bool) (ks : List Text)
    → ((k : Text) → lookup k m ≡ lookup k m')
    → format_from quote m first ks ≡ format_from quote m' first ks
unfolding format_from format_label
format_from_lookups quote m m' first [] h = refl
format_from_lookups quote m m' first (k ∷ ks) h =
    rw (h k, format_from_lookups quote m m' false ks h)

format_labels-Same :
    (quote : Text → Text) (m m' : List (Text × Text))
    → Same m m'
    → format_labels quote m ≡ format_labels quote m'
unfolding format_labels
format_labels-Same quote m m' (_, same, sorted, e) =
    rw (e, sorted, format_from_lookups quote m m' true (sort_strings (keys m')) same)

-- Two orders of the entries of one map of labels, whose keys are distinct, give one name of a series.
pub series-perm :
    (quote : Text → Text) (name : Text) {m m' : List (Text × Text)}
    → Perm m m'
    → DistinctKeys m
    → series quote name m ≡ series quote name m'
unfolding series
series-perm quote name {m} {m'} p d =
    ∥∥₁_elim p (hlevel) (λ q. ap (λ s. name ++ s) (format_labels-Same quote m m' (Same-perm q d)))
