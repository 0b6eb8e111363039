-- ===== src/Observability/Redaction/Laws.antt =====
-- No line that passes the redacting core holds a forbidden field.
use go_platform_kit.Common.{
  ℕ, ◌≡◌, ◌⊎◌, inl, inr, refl, ap, false, some, List, [], ◌∷◌, ◌++◌, arith, text_eq, Unicode,
  to_lower, one_of, subst, All, All-append, All-map, Option-cases,
}
use go_platform_kit.Observability.Redaction.{
  mask_value, text, Field, RedactionPolicy, contains_any, scrub_field, scrub, Core, RedactCore,
  redact_with, redact_write, redact_log, redact_withs,
}

module _ (u : Unicode) {Value : Type 0} (p : RedactionPolicy) where
  -- A field that may reach the sink: its key is not one that is owned centrally, holds no forbidden
  -- part in any case, and its value is masked if the key holds a part to mask.
  pub record IsClean (f : Field Value) : Type 0 where
    pub owned : one_of f.key p.dedupe_keys ≡ false
    pub allowed : contains_any (to_lower u f.key) p.drop_keys ≡ false
    pub masked : (contains_any (to_lower u f.key) p.mask_keys ≡ false) ⊎ (f.value ≡ text mask_value)

  -- The part of it that keeps a secret.
  pub record IsSafe (f : Field Value) : Type 0 where
    pub allowed : contains_any (to_lower u f.key) p.drop_keys ≡ false
    pub masked : (contains_any (to_lower u f.key) p.mask_keys ≡ false) ⊎ (f.value ≡ text mask_value)

  scrub_field-IsClean : (f g : Field Value) → scrub_field u p f ≡ some g → IsClean g
  unfolding scrub_field
  scrub_field-IsClean f g h = record {
    owned = ground arith;
    allowed = ground arith;
    masked = ground arith;
  }

  -- Whatever is scrubbed is clean.
  pub scrub-IsClean : (fs : List (Field Value)) → All IsClean (scrub u p fs)
  unfolding scrub
  scrub-IsClean [] = tt
  scrub-IsClean (f ∷ fs) = elim (Option-cases (scrub_field u p f)) [
    | inl dropped ↦ rw dropped (scrub-IsClean fs)
    | inr (g, kept) ↦ rw kept (scrub_field-IsClean f g kept, scrub-IsClean fs)
  ]

  scrub_field_of_IsClean : (f : Field Value) → IsClean f → scrub_field u p f ≡ some f
  unfolding scrub_field
  scrub_field_of_IsClean f c = ground (arith, c.owned, c.allowed, c.masked)

  -- Scrubbing changes nothing that is clean.
  pub scrub_of_IsClean : (fs : List (Field Value)) → All IsClean fs → scrub u p fs ≡ fs
  unfolding scrub
  scrub_of_IsClean [] h = refl
  scrub_of_IsClean (f ∷ fs) (c, h) =
      rw (scrub_field_of_IsClean f c) (ap (◌∷◌ f) (scrub_of_IsClean fs h))

  -- Scrubbing twice is scrubbing once.
  pub scrub_idem : (fs : List (Field Value)) → scrub u p (scrub u p fs) ≡ scrub u p fs
  scrub_idem fs = scrub_of_IsClean (scrub u p fs) (scrub-IsClean fs)

-- What zap documents of `With`: the fields are added to those of every later entry.
pub record CoreLaws {Value C : Type 0} (ops : Core Value C) : Type 0 where
  pub write_with :
      (c : C) (fs gs : List (Field Value))
      → ops.write (ops.with_fields c fs) gs ≡ ops.write c (fs ++ gs)

module _ (u : Unicode) {Value C : Type 0} (ops : Core Value C) (laws : CoreLaws ops) where
  -- A core keeps a property: what it hands to the encoder has it if what it is given has it.
  abbrev pub KeepsAll : (Field Value → Type 0) → C → Type 0
  KeepsAll P c = (gs : List (Field Value)) → All P gs → All P (ops.write c gs)

  -- A core whose own fields are clean.
  abbrev pub IsCleanCore : RedactionPolicy → C → Type 0
  IsCleanCore p c = KeepsAll (IsClean u p) c

  -- A core whose own fields hold nothing forbidden; they may be owned centrally.
  abbrev pub IsSafeCore : RedactionPolicy → C → Type 0
  IsSafeCore p c = KeepsAll (IsSafe u p) c

  module _ (P : Field Value → Type 0) (p : RedactionPolicy)
      (follows : (f : Field Value) → IsClean u p f → P f) where
    scrub-All : (fs : List (Field Value)) → All P (scrub u p fs)
    scrub-All fs = All-map (IsClean u p) P follows (scrub u p fs) (scrub-IsClean u p fs)

    redact_with-KeepsAll :
        (c : RedactCore C) (fs : List (Field Value))
        → c.policy ≡ p
        → KeepsAll P c.core
        → KeepsAll P (redact_with u ops c fs).core
    unfolding redact_with
    redact_with-KeepsAll c fs same keeps gs h =
        rw (laws.write_with c.core (scrub u c.policy fs) gs) (
          keeps (scrub u c.policy fs ++ gs)
            (All-append P (scrub u c.policy fs) gs (rw same (scrub-All fs)) h))

    redact_withs-KeepsAll :
        (c : RedactCore C) (baked : List (List (Field Value)))
        → c.policy ≡ p
        → KeepsAll P c.core
        → ((redact_withs u ops c baked).policy ≡ p) × KeepsAll P (redact_withs u ops c baked).core
    unfolding redact_withs redact_with
    redact_withs-KeepsAll c [] same keeps = (same, keeps)
    redact_withs-KeepsAll c (fs ∷ more) same keeps =
        redact_withs-KeepsAll (redact_with u ops c fs) more same
          (redact_with-KeepsAll c fs same keeps)

    log_written :
        (c : RedactCore C) (level : ℕ) (fs out : List (Field Value))
        → redact_log u ops c level fs ≡ some out
        → redact_write u ops c fs ≡ out
    unfolding redact_log
    log_written c level fs out h = ground arith

    redact_log-All :
        (c : RedactCore C) (baked : List (List (Field Value))) (level : ℕ)
        (fs out : List (Field Value))
        → c.policy ≡ p
        → KeepsAll P c.core
        → redact_log u ops (redact_withs u ops c baked) level fs ≡ some out
        → All P out
    unfolding redact_write
    redact_log-All c baked level fs out here keeps h =
        let (same, kept) = redact_withs-KeepsAll c baked here keeps in
        let lines : All P (redact_write u ops (redact_withs u ops c baked) fs) =
          kept (scrub u (redact_withs u ops c baked).policy fs) (rw same (scrub-All fs)) in
        subst (All P) (log_written (redact_withs u ops c baked) level fs out h) lines

  -- Over a core that adds the fields of `With` to every entry: however a logger was derived by
  -- `With`, and whatever fields a call gives it, no field of a line that it writes has a key that is
  -- owned centrally or that holds a forbidden part, and one whose key holds a part to mask is masked,
  -- if that is so for the fields of the core that the policy was installed on.
  pub redact_log-IsClean :
      (c : RedactCore C) (baked : List (List (Field Value))) (level : ℕ)
      (fs out : List (Field Value))
      → IsCleanCore c.policy c.core
      → redact_log u ops (redact_withs u ops c baked) level fs ≡ some out
      → All (IsClean u c.policy) out
  redact_log-IsClean c baked level fs out clean h =
      redact_log-All (IsClean u c.policy) c.policy (λ f k. k) c baked level fs out refl clean h

  -- Over a core that adds the fields of `With` to every entry: however a logger was derived by
  -- `With`, and whatever fields a call gives it, no field of a line that it writes has a key that
  -- holds a forbidden part, and one whose key holds a part to mask is masked, if that is so for the
  -- fields of the core that the policy was installed on.
  pub redact_log-IsSafe :
      (c : RedactCore C) (baked : List (List (Field Value))) (level : ℕ)
      (fs out : List (Field Value))
      → IsSafeCore c.policy c.core
      → redact_log u ops (redact_withs u ops c baked) level fs ≡ some out
      → All (IsSafe u c.policy) out
  redact_log-IsSafe c baked level fs out safe h =
      redact_log-All (IsSafe u c.policy) c.policy
        (λ f k. record { allowed = k.allowed; masked = k.masked }) c baked level fs out refl safe h
