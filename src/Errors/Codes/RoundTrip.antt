-- ===== src/Errors/Codes/RoundTrip.antt =====
-- `ParseCode` reads exactly the codes that `err:domain:reason` writes.
use go_platform_kit.Common.{
  ℕ, suc, ◌-◌, ◌≡◌, ◌↔◌, inl, inr, refl, ap, sym, ◌∙◌, false, none, some, List, [], ◌∷◌, ◌++◌,
  append_assoc, subst, Text, text_eq, text_beq_iff, text_beq_refl, nat_eq, nat_beq_iff, ◌==◌, bytes,
  Unicode, trim_space, length, ltb, if◌then◌else◌, length-append, take-append, get_or-append, arith,
  Bool-cases, All,
}
use go_platform_kit.Errors.Codes.{
  Code, colon, push_head, split_on, join_with, code_of_parts, parse_code, format_code, err_prefix,
}

-- No byte of the text is the separator.
abbrev pub NoSep : ℕ → Text → Type 0
NoSep sep [] = Unit
NoSep sep (c ∷ s) = ((c == sep) ≡ false) × NoSep sep s

module _ (sep : ℕ) where
  -- A split has a first part.
  split_on-cons : (s : Text) → (p : Text) × (ps : List Text) × (split_on sep s ≡ p ∷ ps)
  unfolding split_on
  split_on-cons [] = ([], [], refl)
  split_on-cons (c ∷ s) = elim (Bool-cases (c == sep)) [
    | inl e ↦ ([], split_on sep s, rw e)
    | inr e ↦ let (p, ps, h) = split_on-cons s in (c ∷ p, ps, rw e (rw h))
  ]

  split_on-append : (s t : Text) → split_on sep (s ++ sep ∷ t) ≡ split_on sep s ++ split_on sep t
  unfolding split_on
  split_on-append [] t = ground arith
  split_on-append (c ∷ s) t = elim (Bool-cases (c == sep)) [
    | inl e ↦ rw e (ap (◌∷◌ []) (split_on-append s t))
    | inr e ↦ rw e (rw (split_on-append s t) (let (p, ps, h) = split_on-cons s in rw h))
  ]

  split_on_of_NoSep : (s : Text) → NoSep sep s → split_on sep s ≡ s ∷ []
  unfolding split_on
  split_on_of_NoSep [] h = refl
  split_on_of_NoSep (c ∷ s) (p, h) = ground (arith, split_on_of_NoSep s h)

  -- Joining what was split gives the text back.
  join_with-push : (c : ℕ) (ps : List Text) → join_with sep (push_head c ps) ≡ c ∷ join_with sep ps
  unfolding join_with
  join_with-push c [] = refl
  join_with-push c (p ∷ []) = refl
  join_with-push c (p ∷ q ∷ ps) = refl

  join_with-split_on : (s : Text) → join_with sep (split_on sep s) ≡ s
  unfolding split_on join_with
  join_with-split_on [] = refl
  join_with-split_on (c ∷ s) = elim (Bool-cases (c == sep)) [
    | inl e ↦
        let (p, ps, h) = split_on-cons s in
        let c_sep : c ≡ sep = (nat_beq_iff c sep).0 e in
        let back : join_with sep (p ∷ ps) ≡ s = ap (join_with sep) (sym h) ∙ join_with-split_on s in
        rw e (rw h (rw back (ap (λ k. k ∷ s) (sym c_sep))))
    | inr e ↦ rw e (join_with-push c (split_on sep s) ∙ ap (◌∷◌ c) (join_with-split_on s))
  ]

  join_with-concat :
      (i : Text) (is : List Text) (l : Text)
      → join_with sep (i ∷ (is ++ l ∷ [])) ≡ join_with sep (i ∷ is) ++ sep ∷ l
  unfolding join_with
  join_with-concat i [] l = refl
  join_with-concat i (j ∷ is) l =
      ap (λ r. i ++ sep ∷ r) (join_with-concat j is l)
      ∙ sym (append_assoc i (sep ∷ join_with sep (j ∷ is)) (sep ∷ l))

  -- No part of a split holds the separator.
  split_on-NoSep : (s : Text) → All (NoSep sep) (split_on sep s)
  unfolding split_on
  split_on-NoSep [] = (tt, tt)
  split_on-NoSep (c ∷ s) = elim (Bool-cases (c == sep)) [
    | inl e ↦ rw e (tt, split_on-NoSep s)
    | inr e ↦
        let (p, ps, h) = split_on-cons s in
        let a : All (NoSep sep) (p ∷ ps) = subst (All (NoSep sep)) h (split_on-NoSep s) in
        rw e (rw h ((e, a.0), a.1))
  ]

  NoSep-last : (ps : List Text) (l : Text) → All (NoSep sep) (ps ++ l ∷ []) → NoSep sep l
  NoSep-last [] l h = h.0
  NoSep-last (p ∷ ps) l h = NoSep-last ps l h.1

-- A list that is not empty has a last element.
snoc : (p : Text) (ps : List Text) → (init : List Text) × (l : Text) × (p ∷ ps ≡ init ++ l ∷ [])
snoc p [] = ([], p, refl)
snoc p (q ∷ ps) = let (init, l, h) = snoc q ps in (p ∷ init, l, rw h)

-- Three parts or more: the first is the prefix, the last the reason, the rest the domain.
code_of_parts-concat :
    (p i : Text) (is : List Text) (l : Text)
    → code_of_parts (p ∷ i ∷ (is ++ l ∷ [])) ≡ (
        if p == err_prefix
        then some (record { domain = join_with colon (i ∷ is); reason = l })
        else none)
unfolding code_of_parts
code_of_parts-concat p i is l =
    let n : length (is ++ l ∷ []) ≡ suc (length is) = omega (arith, length-append is (l ∷ [])) in
    let long : ltb (suc (suc (suc (length is)))) 3 ≡ false = ground arith in
    let mid : suc (suc (suc (length is))) - 2 ≡ suc (length is) = omega arith in
    let end : suc (suc (suc (length is))) - 1 ≡ suc (suc (length is)) = omega arith in
    rw n (rw (long, mid, end) (rw (take-append is (l ∷ []), get_or-append is l []) (ground arith)))

-- A split of two parts at most is no code.
code_of_parts_short :
    (p i : Text) → (code_of_parts (p ∷ []) ≡ none) × (code_of_parts (p ∷ i ∷ []) ≡ none)
unfolding code_of_parts
code_of_parts_short p i = (ground arith, ground arith)

code_of_parts_nil : code_of_parts [] ≡ none
unfolding code_of_parts
code_of_parts_nil = ground arith

parts_of_concat :
    (p i : Text) (is : List Text) (l : Text) (c : Code)
    → NoSep colon l
    → code_of_parts (p ∷ i ∷ (is ++ l ∷ [])) ≡ some c
    → (join_with colon (p ∷ i ∷ (is ++ l ∷ [])) ≡ format_code c) × NoSep colon c.reason
unfolding join_with
parts_of_concat p i is l c no_colon e =
    let e' = sym (code_of_parts-concat p i is l) ∙ e in
    let first : p ≡ err_prefix = ground (arith, text_beq_iff p err_prefix) in
    let domain : join_with colon (i ∷ is) ≡ c.domain = ground (arith, text_beq_iff p err_prefix) in
    let reason : l ≡ c.reason = ground (arith, text_beq_iff p err_prefix) in
    (
      ap (λ r. p ++ colon ∷ r) (join_with-concat colon i is l) ∙ rw (first, domain, reason),
      subst (NoSep colon) reason no_colon,
    )

-- What a code makes of the parts that it came from.
parts_of_code :
    (parts : List Text) (c : Code)
    → All (NoSep colon) parts
    → code_of_parts parts ≡ some c
    → (join_with colon parts ≡ format_code c) × NoSep colon c.reason
parts_of_code [] c h e = absurd (ground (arith, code_of_parts_nil))
parts_of_code (p ∷ []) c h e = absurd (ground (arith, code_of_parts_short p p))
parts_of_code (p ∷ i ∷ []) c h e = absurd (ground (arith, code_of_parts_short p i))
parts_of_code (p ∷ i ∷ j ∷ rest) c h e =
    let (init, l, split) = snoc j rest in
    let e' : code_of_parts (p ∷ i ∷ (init ++ l ∷ [])) ≡ some c =
      subst (λ r. code_of_parts (p ∷ i ∷ r) ≡ some c) split e in
    let a : All (NoSep colon) (init ++ l ∷ []) = subst (All (NoSep colon)) split h.1.1 in
    rw split (parts_of_concat p i init l c (NoSep-last colon init l a) e')

err_prefix-NoSep : NoSep colon err_prefix
unfolding err_prefix bytes
err_prefix-NoSep = (refl, (refl, (refl, tt)))

split_on-format_code :
    (c : Code)
    → NoSep colon c.reason
    → split_on colon (format_code c) ≡ err_prefix ∷ (split_on colon c.domain ++ c.reason ∷ [])
split_on-format_code c h =
    split_on-append colon err_prefix (c.domain ++ colon ∷ c.reason)
    ∙ rw (split_on_of_NoSep colon err_prefix err_prefix-NoSep) (
        ap (◌∷◌ err_prefix) (
          split_on-append colon c.domain c.reason
          ∙ ap (λ r. split_on colon c.domain ++ r) (split_on_of_NoSep colon c.reason h)))

code_of_parts-format_code :
    (c : Code) → code_of_parts (err_prefix ∷ (split_on colon c.domain ++ c.reason ∷ [])) ≡ some c
code_of_parts-format_code c =
    let (i, is, h) = split_on-cons colon c.domain in
    let domain : join_with colon (i ∷ is) ≡ c.domain =
      ap (join_with colon) (sym h) ∙ join_with-split_on colon c.domain in
    rw h (code_of_parts-concat err_prefix i is c.reason ∙ rw (text_beq_refl err_prefix, domain))

-- `ParseCode` accepts a text exactly when, without the space around it, it is `err:domain:reason`
-- for a reason that holds no colon, and then returns that domain and that reason.
pub parse_code_iff :
    (u : Unicode) (s : Text) (c : Code)
    → (parse_code u s ≡ some c) ↔ ((trim_space u s ≡ format_code c) × NoSep colon c.reason)
unfolding parse_code
parse_code_iff u s c = (
  λ e.
      let (joined, no_colon) =
        parts_of_code (split_on colon (trim_space u s)) c (split_on-NoSep colon (trim_space u s))
          e in
      (sym (join_with-split_on colon (trim_space u s)) ∙ joined, no_colon),
  λ h. rw (h.0, split_on-format_code c h.1) (code_of_parts-format_code c),
)
