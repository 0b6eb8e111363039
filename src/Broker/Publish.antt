-- ===== src/Broker/Publish.antt =====
-- broker/broker.go: `Stamp`, `Publisher.Publish` and `Publisher.PublishStamped`. The ULID source,
-- the clock, `json.Marshal` and the transport are not code of the repository: they are parameters.
-- A transport and the metrics registry are called in an order, which the result records.
pub mod Laws
use go_platform_kit.Common.{
  ℕ, Bool, true, false, Option, none, some, List, [], ◌∷◌, ◌++◌, Text, bytes, Unicode, is_empty,
  if◌then◌else◌, or_else,
}
use go_platform_kit.Broker.Envelope.{Envelope, BrokerError, no_transport, nil_envelope, validate}
use go_platform_kit.Broker.Tokens.{strip_tokens}

-- The ids that a request binds; background work has none.
pub record Ids : Type 0 where
  pub correlation_id : Text
  pub trace_id : Text
  pub span_id : Text

abbrev pub no_ids : Ids
no_ids = record { correlation_id = []; trace_id = []; span_id = [] }

-- What is called outside, in order: the transport, and the counter with the values of its labels.
pub data Call : Type 0 where
  transport_publish : (topic key payload : Text) → Call
  inc_publish : (service topic outcome : Text) → Call

pub data PublishError : Type 0 where
  broker : BrokerError → PublishError
  marshal : Text → PublishError
  rejected : (topic : Text) → Text → PublishError

-- A step of the outside may fail with an error's text.
pub data Reply {ℓ} (A : Type ℓ) : Type ℓ where
  ok : A → Reply A
  failed : Text → Reply A

abbrev pub text_or : Text → Text → Text
text_or s d = if is_empty s then d else s

module _ (u : Unicode) {Value : Type 0} where
  -- `Stamp` with a fresh id and the current time.
  unfoldable pub stamp : (new_id : Text) (now : ℕ) → Ids → Envelope Value → Envelope Value
  stamp new_id now ids ev = record ev {
    event_id = text_or ev.event_id new_id;
    occurred_at = or_else ev.occurred_at (some now);
    correlation_id = text_or ev.correlation_id ids.correlation_id;
    trace_id = text_or ev.trace_id ids.trace_id;
    attributes = strip_tokens u ev.attributes;
  }

-- `outcome`
unfoldable pub outcome_of : {A : Type 0} → Reply A → Text
outcome_of (Reply.ok _) = bytes "success"
outcome_of (Reply.failed _) = bytes "error"

-- The injected transport, and the service id. A publisher with no transport is `none`.
pub record Publisher : Type 0 where
  pub transport : Option (Text → Text → Text → Reply (Unit {0}))
  pub service : Text

-- `NewPublisher`
unfoldable pub new_publisher : Option (Text → Text → Text → Reply (Unit {0})) → Text → Publisher
new_publisher transport service = record { transport = transport; service = service }

module _ {Value : Type 0} (to_json : Envelope Value → Reply Text) where
  unfoldable pub send :
      Text
      → (Text → Text → Text → Reply (Unit {0}))
      → Text
      → Envelope Value
      → Text
      → Option PublishError × List Call
  send service transport topic ev payload =
      let reply = transport topic ev.event_id payload in
      let calls =
        Call.transport_publish topic ev.event_id payload
        ∷ Call.inc_publish service topic (outcome_of reply)
        ∷ [] in
      elim reply [
        | Reply.ok _ ↦ (none, calls)
        | Reply.failed e ↦ (some (PublishError.rejected topic e), calls)
      ]

  -- `PublishStamped`; a nil envelope is `none`.
  unfoldable pub publish_stamped :
      Option Publisher → Text → Option (Envelope Value) → Option PublishError × List Call
  publish_stamped none topic ev = (some (PublishError.broker no_transport), [])
  publish_stamped (some p) topic ev = elim p.transport [
    | none ↦ (some (PublishError.broker no_transport), [])
    | some transport ↦ elim ev [
      | none ↦ (some (PublishError.broker nil_envelope), [])
      | some ev ↦ elim (validate ev) [
        | some err ↦ (some (PublishError.broker err), [])
        | none ↦ elim (to_json ev) [
          | Reply.failed e ↦ (some (PublishError.marshal e), [])
          | Reply.ok payload ↦ send p.service transport topic ev payload
        ]
      ]
    ]
  ]

  -- `Publish`: the envelope as it is left, the error and the calls.
  unfoldable pub publish :
      Unicode
      → (new_id : Text) (now : ℕ) → Ids
      → Option Publisher
      → Text
      → Option (Envelope Value)
      → Option (Envelope Value) × (Option PublishError × List Call)
  publish u new_id now ids none topic ev = (ev, (some (PublishError.broker no_transport), []))
  publish u new_id now ids (some p) topic ev = elim p.transport [
    | none ↦ (ev, (some (PublishError.broker no_transport), []))
    | some _ ↦ elim ev [
      | none ↦ (none, (some (PublishError.broker nil_envelope), []))
      | some e ↦
          let stamped = stamp u new_id now ids e in
          (some stamped, publish_stamped (some p) topic (some stamped))
    ]
  ]
