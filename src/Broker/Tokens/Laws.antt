-- ===== src/Broker/Tokens/Laws.antt =====
-- `stripTokens` removes exactly the keys that look like a credential.
use go_platform_kit.Common.{
  ◌≡◌, refl, ap, Bool, false, Option, none, some, List, [], ◌∷◌, arith, Text, text_eq, text_beq_iff,
  text_beq_refl, ◌==◌, Unicode, to_lower, contains, delete, if◌then◌else◌, All, not, ◌&&◌,
  option_or, lookup, lookup-delete, any, Bool-cases, inl, inr,
}
use go_platform_kit.Broker.Tokens.{
  token_key_substrings, strip_key, strip_loop, strip_copy, strip_tokens,
}

-- Whether the lower-cased key holds one of the substrings.
unfoldable pub is_token_key : Unicode → Text → Bool
is_token_key u k = any (λ s. contains (to_lower u k) s) token_key_substrings

strip_key-any :
    (u : Unicode) {Value : Type 0} (attrs : List (Text × Value)) (k : Text) (subs : List Text)
    (out : Option (List (Text × Value)))
    → strip_key u attrs k subs out ≡ (
        if any (λ s. contains (to_lower u k) s) subs
        then some (delete k (option_or out attrs))
        else out)
unfolding strip_key
strip_key-any u attrs k [] out = refl
strip_key-any u attrs k (s ∷ subs) out = ground (arith, strip_key-any u attrs k subs out)

module _ {Value : Type 0} where
  -- Whether a key stands in a map.
  abbrev has : Text → List (Text × Value) → Bool
  has j m = any (λ e. e.0 == j) m

  lookup_of_not_has : (j : Text) (m : List (Text × Value)) → has j m ≡ false → lookup j m ≡ none
  unfolding lookup
  lookup_of_not_has j [] h = refl
  lookup_of_not_has j ((k, v) ∷ m) h = ground (arith, lookup_of_not_has j m)

module _ (u : Unicode) {Value : Type 0} (attrs : List (Text × Value)) where
  strip_key_lem :
      (k : Text) (out : Option (List (Text × Value)))
      → strip_key u attrs k token_key_substrings out
        ≡ (if is_token_key u k then some (delete k (option_or out attrs)) else out)
  unfolding is_token_key
  strip_key_lem k out = strip_key-any u attrs k token_key_substrings out

  -- What the copy holds after the loop over `rest`.
  strip_loop-lookup :
      (rest : List (Text × Value)) (out : Option (List (Text × Value))) (j : Text)
      → lookup j (option_or (strip_loop u attrs rest out) attrs) ≡ (
          if is_token_key u j
          then if has j rest then none else lookup j (option_or out attrs)
          else lookup j (option_or out attrs))
  unfolding strip_loop
  strip_loop-lookup [] out j = ground arith
  strip_loop-lookup ((k, v) ∷ rest) out j = ground (
    arith,
    strip_loop-lookup rest (strip_key u attrs k token_key_substrings out) j,
    strip_key_lem k out,
    lookup-delete k j (option_or out attrs),
    text_beq_iff k j,
  )

  -- A stripped map holds no key that looks like a credential, and every other entry as it was.
  pub lookup-strip_tokens :
      (j : Text)
      → lookup j (strip_tokens u attrs) ≡ (if is_token_key u j then none else lookup j attrs)
  unfolding strip_tokens strip_copy
  lookup-strip_tokens j = ground (arith, strip_loop-lookup attrs none j, lookup_of_not_has j attrs)

module _ (u : Unicode) {Value : Type 0} where
  -- A map in which no key looks like a credential.
  abbrev pub NoTokens : List (Text × Value) → Type 0
  NoTokens = All (λ e. is_token_key u e.0 ≡ false)

  -- Every credential key of the first map is among the keys of the second.
  abbrev Covered : List (Text × Value) → List (Text × Value) → Type 0
  Covered m rest = All (λ e. (is_token_key u e.0 && not (has e.0 rest)) ≡ false) m

  Covered-delete :
      (k : Text) (v : Value) (m rest : List (Text × Value))
      → Covered m ((k, v) ∷ rest)
      → Covered (delete k m) rest
  unfolding delete
  Covered-delete k v [] rest h = tt
  Covered-delete k v ((j, w) ∷ m) rest (p, h) =
      ground (arith, Covered-delete k v m rest h, text_beq_iff j k, text_beq_iff k j)

  Covered-skip :
      (k : Text) (v : Value) (m rest : List (Text × Value))
      → is_token_key u k ≡ false
      → Covered m ((k, v) ∷ rest)
      → Covered m rest
  Covered-skip k v [] rest no_token h = tt
  Covered-skip k v ((j, w) ∷ m) rest no_token (p, h) =
      (ground (arith, text_beq_iff k j), Covered-skip k v m rest no_token h)

  NoTokens-of_Covered : (m : List (Text × Value)) → Covered m [] → NoTokens m
  NoTokens-of_Covered [] h = tt
  NoTokens-of_Covered (e ∷ m) (p, h) = (ground arith, NoTokens-of_Covered m h)

  Covered-more :
      (e : Text × Value) (m rest : List (Text × Value)) → Covered m rest → Covered m (e ∷ rest)
  Covered-more e [] rest h = tt
  Covered-more e (d ∷ m) rest (p, h) = (ground arith, Covered-more e m rest h)

  Covered-self : (m : List (Text × Value)) → Covered m m
  Covered-self [] = tt
  Covered-self (e ∷ m) = (ground (arith, text_beq_refl e.0), Covered-more e m m (Covered-self m))

  strip_loop-NoTokens :
      (attrs rest : List (Text × Value)) (out : Option (List (Text × Value)))
      → Covered (option_or out attrs) rest
      → NoTokens (option_or (strip_loop u attrs rest out) attrs)
  unfolding strip_loop
  strip_loop-NoTokens attrs [] out h = NoTokens-of_Covered _ h
  strip_loop-NoTokens attrs ((k, v) ∷ rest) out h = elim (Bool-cases (is_token_key u k)) [
    | inl token ↦
        rw (strip_key_lem, token)
          (strip_loop-NoTokens attrs rest (some (delete k (option_or out attrs)))
            (Covered-delete k v (option_or out attrs) rest h))
    | inr other ↦
        rw (strip_key_lem, other)
          (strip_loop-NoTokens attrs rest out (Covered-skip k v (option_or out attrs) rest other h))
  ]

  -- No attribute of a stripped map has a key that looks like a credential.
  pub strip_tokens-NoTokens : (attrs : List (Text × Value)) → NoTokens (strip_tokens u attrs)
  unfolding strip_tokens strip_copy
  strip_tokens-NoTokens [] = tt
  strip_tokens-NoTokens (e ∷ m) = strip_loop-NoTokens (e ∷ m) (e ∷ m) none (Covered-self (e ∷ m))

  strip_loop_of_NoTokens :
      (attrs rest : List (Text × Value)) → NoTokens rest → strip_loop u attrs rest none ≡ none
  unfolding strip_loop
  strip_loop_of_NoTokens attrs [] h = refl
  strip_loop_of_NoTokens attrs ((k, v) ∷ rest) (p, h) =
      rw (strip_key_lem, p) (strip_loop_of_NoTokens attrs rest h)

  -- Where no key looks like a credential, no copy is made and the map is the caller's own.
  pub strip_copy_of_NoTokens :
      (attrs : List (Text × Value)) → NoTokens attrs → strip_copy u attrs ≡ none
  unfolding strip_copy
  strip_copy_of_NoTokens [] h = refl
  strip_copy_of_NoTokens (e ∷ m) h = strip_loop_of_NoTokens (e ∷ m) (e ∷ m) h

  -- Stripping twice is stripping once.
  pub strip_tokens_idem :
      (attrs : List (Text × Value)) → strip_tokens u (strip_tokens u attrs) ≡ strip_tokens u attrs
  unfolding strip_tokens
  strip_tokens_idem attrs =
      ap (λ c. option_or c (strip_tokens u attrs))
        (strip_copy_of_NoTokens (strip_tokens u attrs) (strip_tokens-NoTokens attrs))
