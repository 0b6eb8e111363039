-- ===== src/Web/Laws.antt =====
-- `PathParam` decodes once.
use go_platform_kit.Common.{
  ℕ, ◌+◌, ◌*◌, ◌≡◌, ◌⊎◌, inl, inr, refl, sym, ◌∙◌, subst, true, false, Option, none, some, [], ◌∷◌,
  Text, nat_eq, nat_beq_iff, ◌==◌, arith, Bool-cases, Option-cases,
}
use go_platform_kit.Web.{unhex, push, push_digits, path_unescape, path_param}

-- A text and a percent-encoding of it: a byte stands for itself, unless it is the percent sign, or is
-- written by the sign and two hexadecimal digits.
pub data Encodes : Text → Text → Type 0 where
  nil : Encodes [] []
  plain : {c : ℕ} {s t : Text} → (c == b'%') ≡ false → Encodes s t → Encodes (c ∷ s) (c ∷ t)
  percent :
      {a b h l : ℕ} {s t : Text}
      → unhex a ≡ some h
      → unhex b ≡ some l
      → Encodes s t
      → Encodes ((h * 16 + l) ∷ s) (b'%' ∷ a ∷ b ∷ t)

unescape_plain :
    (c : ℕ) (t s : Text)
    → (c == b'%') ≡ false
    → path_unescape t ≡ some s
    → path_unescape (c ∷ t) ≡ some (c ∷ s)
unfolding path_unescape
unescape_plain c [] s p h = ground arith
unescape_plain c (a ∷ []) s p h = rw (p, path_unescape) (rw h)
unescape_plain c (a ∷ b ∷ t) s p h = rw (p, path_unescape) (rw h)

unescape_of_Encodes : {s t : Text} → Encodes s t → path_unescape t ≡ some s
unfolding path_unescape
unescape_of_Encodes nil = refl
unescape_of_Encodes (plain {c} {s} {t} p e) = unescape_plain c t s p (unescape_of_Encodes e)
unescape_of_Encodes (percent ha hb e) = rw (ha, hb, unescape_of_Encodes e)

push-some :
    (c : ℕ) (o : Option Text) (s : Text)
    → push c o ≡ some s
    → (r : Text) × (o ≡ some r) × (c ∷ r ≡ s)
push-some c none s h = absurd (ground arith)
push-some c (some r) s h = (r, refl, ground arith)

push_digits-some :
    (x y : Option ℕ) (o : Option Text) (s : Text)
    → push_digits x y o ≡ some s
    → (h : ℕ) × (l : ℕ) × (r : Text) × (x ≡ some h)
      × (y ≡ some l)
      × (o ≡ some r)
      × ((h * 16 + l) ∷ r ≡ s)
push_digits-some none y o s h = absurd (ground arith)
push_digits-some (some x) none o s h = absurd (ground arith)
push_digits-some (some x) (some y) none s h = absurd (ground arith)
push_digits-some (some x) (some y) (some r) s h = (x, y, r, refl, refl, refl, ground arith)

abbrev Plain : ℕ → Text → Text → Type 0
Plain c t s = (r : Text) × (path_unescape t ≡ some r) × (c ∷ r ≡ s)

Plain-step :
    (c : ℕ) (t s : Text)
    → ((r : Text) → path_unescape t ≡ some r → Encodes r t)
    → (c == b'%') ≡ false
    → Plain c t s
    → Encodes s (c ∷ t)
Plain-step c t s ih p (r, h, e) = subst (λ s'. Encodes s' (c ∷ t)) e (plain p (ih r h))

abbrev Digits : ℕ → ℕ → Text → Text → Type 0
Digits a b t s =
    (h : ℕ) × (l : ℕ) × (r : Text) × (unhex a ≡ some h)
    × (unhex b ≡ some l)
    × (path_unescape t ≡ some r)
    × ((h * 16 + l) ∷ r ≡ s)

Digits-step :
    (c a b : ℕ) (t s : Text)
    → ((r : Text) → path_unescape t ≡ some r → Encodes r t)
    → (c == b'%') ≡ true
    → Digits a b t s
    → Encodes s (c ∷ a ∷ b ∷ t)
Digits-step c a b t s ih e (h, l, r, ha, hb, hr, eq) =
    rw ((nat_beq_iff c b'%').0 e)
      (subst (λ s'. Encodes s' (b'%' ∷ a ∷ b ∷ t)) eq (percent ha hb (ih r hr)))

Encodes-of_unescape : (t s : Text) → path_unescape t ≡ some s → Encodes s t
unfolding path_unescape
Encodes-of_unescape [] s h = subst (λ s'. Encodes s' []) (ground arith) nil
Encodes-of_unescape (c ∷ []) s h = elim (Bool-cases (c == b'%')) [
  | inl e ↦ absurd (ground arith)
  | inr p ↦
      Plain-step c [] s (Encodes-of_unescape []) p (push-some c (path_unescape []) s (rw p at h))
]
Encodes-of_unescape (c ∷ a ∷ []) s h = elim (Bool-cases (c == b'%')) [
  | inl e ↦ absurd (ground arith)
  | inr p ↦
      Plain-step c (a ∷ []) s (Encodes-of_unescape (a ∷ [])) p
        (push-some c (path_unescape (a ∷ [])) s (rw (p, path_unescape) at h))
]
Encodes-of_unescape (c ∷ a ∷ b ∷ t) s h = elim (Bool-cases (c == b'%')) [
  | inl e ↦
      Digits-step c a b t s (Encodes-of_unescape t) e
        (push_digits-some (unhex a) (unhex b) (path_unescape t) s (rw (e, path_unescape) at h))
  | inr p ↦
      Plain-step c (a ∷ b ∷ t) s (Encodes-of_unescape (a ∷ b ∷ t)) p
        (push-some c (path_unescape (a ∷ b ∷ t)) s (rw (p, path_unescape) at h))
]

-- `PathParam` returns the text that the captured segment encodes, if there is one, and else the
-- segment as it is.
pub path_param-Encodes :
    (params : Text → Text) (key : Text)
    → Encodes (path_param params key) (params key)
      ⊎ (((s : Text) → ¬ Encodes s (params key)) × (path_param params key ≡ params key))
unfolding path_param
path_param-Encodes params key = elim (Option-cases (path_unescape (params key))) [
  | inl fails ↦ inr ((λ s e. absurd (some_none s (sym (unescape_of_Encodes e) ∙ fails))), rw fails)
  | inr (s, decoded) ↦ inl (rw decoded (Encodes-of_unescape (params key) s decoded))
]
  where
    some_none : (s : Text) → some s ≡ none → ⊥
    some_none s h = cc

-- Every percent-encoding of a text, whichever bytes it escapes, is decoded to that text.
pub path_param_of_Encodes :
    (params : Text → Text) (key s : Text) → Encodes s (params key) → path_param params key ≡ s
unfolding path_param
path_param_of_Encodes params key s e = rw (unescape_of_Encodes e)
