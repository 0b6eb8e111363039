-- ===== src/Observability/Redaction.antt =====
-- observability/redaction.go. `Value` is the type of a field's value that is not a string made
-- here. The wrapped core is zap's: its operations are a parameter.
pub mod Laws
use go_platform_kit.Common.{
  ℕ, Bool, true, false, not, ◌&&◌, ◌||◌, Option, none, some, List, [], ◌∷◌, ◌++◌, Text, text_eq,
  bytes, Unicode, to_lower, contains, one_of, is_empty, if◌then◌else◌,
}
use go_platform_kit.Broker.Publish.{Reply}

unfoldable pub mask_value : Text
mask_value = bytes "[REDACTED]"

pub data LogValue (Value : Type 0) : Type 0 where
  text : Text → LogValue Value
  other : Value → LogValue Value

pub record Field (Value : Type 0) : Type 0 where
  pub key : Text
  pub value : LogValue Value

pub record RedactionPolicy : Type 0 where
  pub drop_keys : List Text
  pub mask_keys : List Text
  pub dedupe_keys : List Text

unfoldable pub default_redaction_policy : RedactionPolicy
default_redaction_policy = record {
  drop_keys =
      bytes "authorization"
      ∷ bytes "dpop"
      ∷ bytes "proof"
      ∷ bytes "token"
      ∷ bytes "secret"
      ∷ bytes "password"
      ∷ bytes "passwd"
      ∷ bytes "credential"
      ∷ bytes "cookie"
      ∷ bytes "api_key"
      ∷ bytes "apikey"
      ∷ bytes "private_key"
      ∷ bytes "privatekey"
      ∷ bytes "client_secret"
      ∷ bytes "session"
      ∷ bytes "bearer"
      ∷ bytes "file_data"
      ∷ bytes "filedata"
      ∷ bytes "document_content"
      ∷ bytes "documentcontent"
      ∷ bytes "file_bytes"
      ∷ bytes "payload"
      ∷ bytes "raw_body"
      ∷ bytes "rawbody"
      ∷ [];
  mask_keys =
      bytes "email"
      ∷ bytes "phone"
      ∷ bytes "msisdn"
      ∷ bytes "personal_code"
      ∷ bytes "personalcode"
      ∷ bytes "national_id"
      ∷ bytes "nationalid"
      ∷ bytes "ssn"
      ∷ bytes "given_name"
      ∷ bytes "givenname"
      ∷ bytes "family_name"
      ∷ bytes "familyname"
      ∷ bytes "full_name"
      ∷ bytes "fullname"
      ∷ bytes "birth"
      ∷ bytes "dob"
      ∷ bytes "address"
      ∷ bytes "pii"
      ∷ [];
  dedupe_keys =
      bytes "service.name"
      ∷ bytes "service.version"
      ∷ bytes "service.environment"
      ∷ bytes "host.hostname"
      ∷ bytes "container.id"
      ∷ bytes "kubernetes.namespace"
      ∷ bytes "kubernetes.pod.name"
      ∷ bytes "kubernetes.pod.uid"
      ∷ bytes "kubernetes.node.name"
      ∷ [];
}

-- The policy that `EnableRedaction` installs.
unfoldable pub effective_policy : Option RedactionPolicy → RedactionPolicy
effective_policy none = default_redaction_policy
effective_policy (some policy) = policy

unfoldable pub contains_any : Text → List Text → Bool
contains_any key [] = false
contains_any key (s ∷ subs) =
    let rest = contains_any key subs in if contains key s then true else rest

module _ (u : Unicode) {Value : Type 0} where
  -- One round of the loop of `scrub`: the field as it is kept, if it is.
  unfoldable pub scrub_field : RedactionPolicy → Field Value → Option (Field Value)
  scrub_field p f =
      let key = to_lower u f.key in
      if one_of f.key p.dedupe_keys
      then none
      else if contains_any key p.drop_keys
      then none
      else if contains_any key p.mask_keys
      then some (record { key = f.key; value = text mask_value })
      else some f

  abbrev add : Option (Field Value) → List (Field Value) → List (Field Value)
  add none fs = fs
  add (some f) fs = f ∷ fs

  unfoldable pub scrub : RedactionPolicy → List (Field Value) → List (Field Value)
  scrub p [] = []
  scrub p (f ∷ fs) = add (scrub_field p f) (scrub p fs)

-- The operations of a `zapcore.Core` over states `C`: baking fields in, what an entry with these
-- fields hands to the encoder, and whether a level is enabled.
pub record Core (Value C : Type 0) : Type 0 where
  pub with_fields : C → List (Field Value) → C
  pub write : C → List (Field Value) → List (Field Value)
  pub enabled : C → ℕ → Bool

pub record RedactCore (C : Type 0) : Type 0 where
  pub core : C
  pub policy : RedactionPolicy

-- What `EnableRedaction` wraps a logger's core in.
unfoldable pub redacting : {C : Type 0} → Option RedactionPolicy → C → RedactCore C
redacting policy c = record { core = c; policy = effective_policy policy }

-- `EnableRedaction`, over the application's `ReplaceLogger`: the wrapping that it is called with, and
-- its reply, which the caller does not see.
unfoldable pub enable_redaction :
    {C : Type 0}
    → (replace : (C → RedactCore C) → Reply (Unit {0})) → Option RedactionPolicy
    → (C → RedactCore C) × Reply (Unit {0})
enable_redaction replace policy = (redacting policy, replace (redacting policy))

module _ (u : Unicode) {Value C : Type 0} (ops : Core Value C) where
  -- `With`
  unfoldable pub redact_with : RedactCore C → List (Field Value) → RedactCore C
  redact_with c fields = record {
    core = ops.with_fields c.core (scrub u c.policy fields);
    policy = c.policy;
  }

  -- `Write`
  unfoldable pub redact_write : RedactCore C → List (Field Value) → List (Field Value)
  redact_write c fields = ops.write c.core (scrub u c.policy fields)

  -- `Check` and the write that follows it: an entry at a level that is not enabled is not written.
  unfoldable pub redact_log : RedactCore C → ℕ → List (Field Value) → Option (List (Field Value))
  redact_log c level fields =
      if ops.enabled c.core level then some (redact_write c fields) else none

  -- A logger that was derived by a row of `With` calls.
  unfoldable pub redact_withs : RedactCore C → List (List (Field Value)) → RedactCore C
  redact_withs c [] = c
  redact_withs c (fields ∷ more) = redact_withs (redact_with c fields) more
