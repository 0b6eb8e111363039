-- ===== src/Observability/Tests.antt =====
-- Instances of the theorems on the package observability at concrete inputs.
use mathlib.Core.List.Permᴰ
use go_platform_kit.Common.{
  ℕ, ◌≡◌, refl, true, none, some, List, [], ◌∷◌, ◌++◌, append_assoc, arith, Text, text_eq, text_beq,
  bytes, Unicode, All, one_of, contains, starts_with, to_lower, lower_byte, lookup,
}
use go_platform_kit.Observability.Redaction.{
  text, other, Field, RedactionPolicy, scrub, scrub_field, contains_any, mask_value, Core,
  RedactCore, redact_log, redact_withs, redact_with, redact_write,
}
use go_platform_kit.Observability.Redaction.Laws.{
  IsClean, CoreLaws, IsCleanCore, redact_log-IsClean,
}
use go_platform_kit.Observability.Metrics.{series}
use go_platform_kit.Observability.Metrics.Injective.{IsDelimited, Lacks, any-Lacks, series_inj}
use go_platform_kit.Observability.Metrics.Laws.{series-perm}

abbrev pub ascii : Unicode
ascii = record { lower_wide = λ s. s; trim_wide = λ s. s }

abbrev pub policy : RedactionPolicy
policy = record {
  drop_keys = bytes "token" ∷ [];
  mask_keys = bytes "email" ∷ [];
  dedupe_keys = bytes "service.name" ∷ [];
}

abbrev pub fields : List (Field ℕ)
fields =
    record { key = bytes "X-Token"; value = text (bytes "abc") }
    ∷ record { key = bytes "email"; value = text (bytes "a@b") }
    ∷ record { key = bytes "status"; value = other 200 }
    ∷ []

-- A core is the fields that are baked into it.
abbrev pub core_ops : Core ℕ (List (Field ℕ))
core_ops = record {
  with_fields = λ c fs. c ++ fs;
  write = λ c fs. c ++ fs;
  enabled = λ c level. true;
}

pub core_ops-CoreLaws : CoreLaws core_ops
core_ops-CoreLaws = record { write_with = λ c fs gs. append_assoc c fs gs }

abbrev logger : RedactCore (List (Field ℕ))
logger = record { core = []; policy = policy }

logger_clean : IsCleanCore ascii core_ops core_ops-CoreLaws policy []
logger_clean gs h = h

abbrev pub kept : List (Field ℕ)
kept =
    record { key = bytes "status"; value = other 200 }
    ∷ record { key = bytes "email"; value = text mask_value }
    ∷ record { key = bytes "status"; value = other 200 }
    ∷ []

pub logged :
    redact_log ascii core_ops
      (redact_withs ascii core_ops logger
        ((record { key = bytes "status"; value = other 200 } ∷ []) ∷ []))
      1
      fields
    ≡ some kept
unfolding redact_log redact_withs redact_with redact_write scrub scrub_field contains_any contains
    starts_with to_lower lower_byte one_of bytes text_beq mask_value
logged = refl

redact_log-IsClean_example : All (IsClean ascii policy) kept
redact_log-IsClean_example =
    redact_log-IsClean ascii core_ops core_ops-CoreLaws logger
      ((record { key = bytes "status"; value = other 200 } ∷ []) ∷ []) 1 fields kept logger_clean
      logged

abbrev labels : List (Text × Text)
labels = (bytes "topic", bytes "audit") ∷ (bytes "outcome", bytes "success") ∷ []

abbrev no_labels : List (Text × Text)
no_labels = []

abbrev swapped_labels : List (Text × Text)
swapped_labels = (bytes "outcome", bytes "success") ∷ (bytes "topic", bytes "audit") ∷ []

distinct : lookup (bytes "topic") ((bytes "outcome", bytes "success") ∷ []) ≡ none
unfolding lookup bytes text_beq
distinct = refl

distinct_last : lookup (bytes "outcome") no_labels ≡ none
unfolding lookup
distinct_last = refl

series-perm_example :
    series (λ s. b'"' ∷ (s ++ b'"' ∷ [])) (bytes "publish_total") labels
    ≡ series (λ s. b'"' ∷ (s ++ b'"' ∷ [])) (bytes "publish_total") swapped_labels
series-perm_example =
    series-perm (λ s. b'"' ∷ (s ++ b'"' ∷ [])) (bytes "publish_total") ∣ Permᴰ.swap refl refl ∣₁
      (distinct, (distinct_last, tt))

-- A quoting that escapes each byte.
abbrev pub escape : Text → Text
escape [] = b'"' ∷ []
escape (c ∷ s) = b'\\' ∷ c ∷ escape s

pub escape-IsDelimited : IsDelimited escape
escape-IsDelimited [] [] x y e = ground arith
escape-IsDelimited [] (d ∷ t) x y e = absurd (ground arith)
escape-IsDelimited (c ∷ s) [] x y e = absurd (ground arith)
escape-IsDelimited (c ∷ s) (d ∷ t) x y e =
    let (same, rest) = escape-IsDelimited s t x y (ground arith) in (ground arith, rest)

Lacks-brace : Lacks b'{' (bytes "publish_total")
unfolding bytes
Lacks-brace = any-Lacks b'{' (bytes "publish_total") refl

Lacks-equals : Lacks b'=' (bytes "topic") × Lacks b'=' (bytes "outcome")
unfolding bytes
Lacks-equals = (any-Lacks b'=' (bytes "topic") refl, any-Lacks b'=' (bytes "outcome") refl)

series_inj_example :
    (bytes "publish_total" ≡ bytes "publish_total")
    × ((k : Text) → lookup k labels ≡ lookup k swapped_labels)
series_inj_example =
    series_inj escape (bytes "publish_total") (bytes "publish_total") labels swapped_labels
      escape-IsDelimited Lacks-brace Lacks-brace (Lacks-equals.0, (Lacks-equals.1, tt))
      (Lacks-equals.1, (Lacks-equals.0, tt))
      (series-perm escape (bytes "publish_total") ∣ Permᴰ.swap refl refl ∣₁
        (distinct, (distinct_last, tt)))
