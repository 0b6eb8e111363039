-- ===== src/Observability/Metrics/Injective.antt =====
-- Label sets that differ name series that differ.
use go_platform_kit.Common.{
  ◌≡◌, ◌≢◌, inl, inr, refl, ap, sym, subst, ◌∙◌, ℕ, true, false, ◌||◌, List, [], ◌∷◌, ◌++◌, map,
  arith, Text, text_eq, nat_eq, ◌==◌, text_beq_iff, nat_beq_iff, lookup, is_empty, is_some,
  option_or, append_assoc, append-nil, All, one_of, any, Bool-cases,
}
use go_platform_kit.Observability.Metrics.{
  text_le, insert_sorted, sort_strings, format_label, format_from, format_labels, series,
}

-- A byte does not occur in a text.
abbrev pub Lacks : ℕ → Text → Type 0
Lacks c [] = Unit
Lacks c (b ∷ s) = (b ≢ c) × Lacks c s

pub any-Lacks : (c : ℕ) (s : Text) → any (λ b. b == c) s ≡ false → Lacks c s
any-Lacks c [] h = tt
any-Lacks c (b ∷ s) h = (ground (arith, nat_beq_iff b c), any-Lacks c s (ground arith))

-- Texts before the first of a byte.
split_at :
    (c : ℕ) (s t x y : Text) → Lacks c s → Lacks c t → s ++ c ∷ x ≡ t ++ c ∷ y → (s ≡ t) × (x ≡ y)
split_at c [] [] x y p q e = ground arith
split_at c [] (b ∷ t) x y p (q, _) e = absurd (ground arith)
split_at c (a ∷ s) [] x y (p, _) q e = absurd (ground arith)
split_at c (a ∷ s) (b ∷ t) x y (_, p) (_, q) e =
    let (same, rest) = split_at c s t x y p q (ground arith) in (ground arith, rest)

never_whole : (c : ℕ) (s t y : Text) → Lacks c s → s ≢ t ++ c ∷ y
never_whole c [] [] y p e = ground arith
never_whole c [] (b ∷ t) y p e = ground arith
never_whole c (a ∷ s) [] y (p, _) e = p (ground arith)
never_whole c (a ∷ s) (b ∷ t) y (_, p) e = never_whole c s t y p (ground arith)

-- What `strconv.Quote` documents: a quoted text ends where its quotes close, and reads back.
abbrev pub IsDelimited : (Text → Text) → Type 0
IsDelimited quote = (s t x y : Text) → quote s ++ x ≡ quote t ++ y → (s ≡ t) × (x ≡ y)

abbrev value_at : List (Text × Text) → Text → Text
value_at m k = option_or (lookup k m) []

module _ (quote : Text → Text) (delimited : IsDelimited quote) (m m' : List (Text × Text)) where
  format_label_inj :
      (k k' x y : Text)
      → Lacks b'=' k
      → Lacks b'=' k'
      → format_label quote m k ++ x ≡ format_label quote m' k' ++ y
      → (k ≡ k') × (value_at m k ≡ value_at m' k') × (x ≡ y)
  unfolding format_label
  format_label_inj k k' x y p q e =
      let (same, rest) =
        split_at b'=' k k' (quote (value_at m k) ++ x) (quote (value_at m' k') ++ y) p q (
          sym (append_assoc k (b'=' ∷ quote (value_at m k)) x)
          ∙ (e ∙ append_assoc k' (b'=' ∷ quote (value_at m' k')) y)) in
      let (value, after) = delimited _ _ x y rest in (same, value, after)

  label_first :
      (k k' : Text) (ks ks' : List Text)
      → (format_label quote m k ++ format_from quote m false ks) ++ b'}' ∷ []
        ≡ (format_label quote m' k' ++ format_from quote m' false ks') ++ b'}' ∷ []
      → format_label quote m k ++ (format_from quote m false ks ++ b'}' ∷ [])
        ≡ format_label quote m' k' ++ (format_from quote m' false ks' ++ b'}' ∷ [])
  label_first k k' ks ks' e =
      sym (append_assoc (format_label quote m k) (format_from quote m false ks) (b'}' ∷ []))
      ∙ (e ∙ append_assoc (format_label quote m' k') (format_from quote m' false ks') (b'}' ∷ []))

  -- The labels after the first one.
  format_from_inj :
      (ks ks' : List Text)
      → All (Lacks b'=') ks
      → All (Lacks b'=') ks'
      → format_from quote m false ks ++ b'}' ∷ [] ≡ format_from quote m' false ks' ++ b'}' ∷ []
      → (ks ≡ ks') × All (λ k. value_at m k ≡ value_at m' k) ks
  unfolding format_from
  format_from_inj [] [] p q e = (refl, tt)
  format_from_inj [] (k' ∷ ks') p q e = absurd (ground arith)
  format_from_inj (k ∷ ks) [] p q e = absurd (ground arith)
  format_from_inj (k ∷ ks) (k' ∷ ks') (p, ps) (q, qs) e =
      let (same, value, rest) =
        format_label_inj k k' (format_from quote m false ks ++ b'}' ∷ [])
          (format_from quote m' false ks' ++ b'}' ∷ []) p q
          (label_first k k' ks ks' (ground arith)) in
      let (sames, values) = format_from_inj ks ks' ps qs rest in
      (ground arith, (value ∙ ap (value_at m') (sym same), values))

-- What sorting does to a property and to membership.
All-insert_sorted :
    (P : Text → Type 0) (k : Text) (ks : List Text) → P k → All P ks → All P (insert_sorted k ks)
unfolding insert_sorted
All-insert_sorted P k [] p h = (p, tt)
All-insert_sorted P k (j ∷ js) p (q, h) = elim (Bool-cases (text_le k j)) [
  | inl before ↦ rw before (p, (q, h))
  | inr after ↦ rw after (q, All-insert_sorted P k js p h)
]

All-sort_strings : (P : Text → Type 0) (ks : List Text) → All P ks → All P (sort_strings ks)
unfolding sort_strings
All-sort_strings P [] h = tt
All-sort_strings P (k ∷ ks) (p, h) =
    All-insert_sorted P k (sort_strings ks) p (All-sort_strings P ks h)

one_of-insert_sorted :
    (s k : Text) (ks : List Text) → one_of s (insert_sorted k ks) ≡ ((s == k) || one_of s ks)
unfolding insert_sorted one_of
one_of-insert_sorted s k [] = refl
one_of-insert_sorted s k (j ∷ js) = ground (arith, one_of-insert_sorted s k js)

one_of-sort_strings : (s : Text) (ks : List Text) → one_of s (sort_strings ks) ≡ one_of s ks
unfolding sort_strings one_of
one_of-sort_strings s [] = refl
one_of-sort_strings s (k ∷ ks) =
    ground (arith, one_of-insert_sorted s k (sort_strings ks), one_of-sort_strings s ks)

abbrev keys : List (Text × Text) → List Text
keys m = map (λ e. e.0) m

one_of-keys : (s : Text) (m : List (Text × Text)) → one_of s (keys m) ≡ is_some (lookup s m)
unfolding one_of lookup
one_of-keys s [] = refl
one_of-keys s ((k, v) ∷ m) = ground (arith, one_of-keys s m, text_beq_iff s k, text_beq_iff k s)

one_of-All : (P : Text → Type 0) (s : Text) (ks : List Text) → one_of s ks ≡ true → All P ks → P s
unfolding one_of
one_of-All P s [] e h = absurd (ground arith)
one_of-All P s (k ∷ ks) e (p, h) = elim (Bool-cases (s == k)) [
  | inl same ↦ subst P (sym ((text_beq_iff s k).0 same)) p
  | inr other ↦ one_of-All P s ks (ground arith) h
]

is_empty-insert_sorted : (k : Text) (ks : List Text) → is_empty (insert_sorted k ks) ≡ false
unfolding insert_sorted
is_empty-insert_sorted k [] = refl
is_empty-insert_sorted k (j ∷ js) = ground arith

module _ (quote : Text → Text) (delimited : IsDelimited quote) (m m' : List (Text × Text)) where
  -- The labels, the first one with no comma before it.
  first_format_from_inj :
      (ks ks' : List Text)
      → is_empty ks ≡ false
      → is_empty ks' ≡ false
      → All (Lacks b'=') ks
      → All (Lacks b'=') ks'
      → format_from quote m true ks ++ b'}' ∷ [] ≡ format_from quote m' true ks' ++ b'}' ∷ []
      → (ks ≡ ks') × All (λ k. value_at m k ≡ value_at m' k) ks
  unfolding format_from
  first_format_from_inj [] ks' f g p q e = absurd (ground arith)
  first_format_from_inj (k ∷ ks) [] f g p q e = absurd (ground arith)
  first_format_from_inj (k ∷ ks) (k' ∷ ks') f g p q e =
      format_from_inj quote delimited m m' (k ∷ ks) (k' ∷ ks') p q (ap (λ s. b',' ∷ s) e)

lookup-sorted :
    (m m' : List (Text × Text))
    → sort_strings (keys m) ≡ sort_strings (keys m')
    → All (λ k. value_at m k ≡ value_at m' k) (sort_strings (keys m))
    → (s : Text) → lookup s m ≡ lookup s m'
lookup-sorted m m' e values s =
    let one : is_some (lookup s m) ≡ one_of s (sort_strings (keys m)) =
      sym (one_of-keys s m) ∙ sym (one_of-sort_strings s (keys m)) in
    let both : is_some (lookup s m) ≡ is_some (lookup s m') =
      one ∙ (ap (one_of s) e ∙ (one_of-sort_strings s (keys m') ∙ one_of-keys s m')) in
    elim (Bool-cases (is_some (lookup s m))) [
      | inr none_here ↦ ground arith
      | inl some_here ↦
          let value =
            one_of-All (λ k. value_at m k ≡ value_at m' k) s (sort_strings (keys m))
              (sym one ∙ some_here) values in
          ground arith
    ]

-- With a quoting that is delimited, names of metrics that hold no brace and keys that hold no equals
-- sign: two series of one name are of one metric, and of two maps of labels that give each key one
-- value.
pub series_inj :
    (quote : Text → Text) (name name' : Text) (m m' : List (Text × Text))
    → IsDelimited quote
    → Lacks b'{' name
    → Lacks b'{' name'
    → All (Lacks b'=') (map (λ e. e.0) m)
    → All (Lacks b'=') (map (λ e. e.0) m')
    → series quote name m ≡ series quote name' m'
    → (name ≡ name') × ((k : Text) → lookup k m ≡ lookup k m')
unfolding series sort_strings format_labels
series_inj quote name name' [] [] delimited p p' q q' e =
    (sym (append-nil name) ∙ (e ∙ append-nil name'), λ k. refl)
series_inj quote name name' [] (l' ∷ m') delimited p p' q q' e =
    absurd (never_whole b'{' name name' _ p (sym (append-nil name) ∙ e))
series_inj quote name name' (l ∷ m) [] delimited p p' q q' e =
    absurd (never_whole b'{' name' name _ p' (sym (append-nil name') ∙ sym e))
series_inj quote name name' (l ∷ m) (l' ∷ m') delimited p p' q q' e =
    let (names, rest) = split_at b'{' name name' _ _ p p' e in
    let (sames, values) =
      first_format_from_inj quote delimited (l ∷ m) (l' ∷ m') (sort_strings (keys (l ∷ m)))
        (sort_strings (keys (l' ∷ m'))) (is_empty-insert_sorted l.0 (sort_strings (keys m)))
        (is_empty-insert_sorted l'.0 (sort_strings (keys m')))
        (All-sort_strings (Lacks b'=') (keys (l ∷ m)) q)
        (All-sort_strings (Lacks b'=') (keys (l' ∷ m')) q') rest in
    (names, lookup-sorted (l ∷ m) (l' ∷ m') sames values)
