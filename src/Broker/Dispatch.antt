-- ===== src/Broker/Dispatch.antt =====
-- broker/consume.go: `Dispatch`, over the interface `IdempotencyStore` and a handler that acts on a
-- world `W`. `json.Unmarshal` is a parameter. The result records what is called, in order.
pub mod Laws
pub mod Branches
use go_platform_kit.Common.{Bool, true, false, Option, none, some, List, [], ◌∷◌, ◌++◌, Text, bytes}
use go_platform_kit.Broker.Envelope.{Envelope, BrokerError, nil_handler, validate}
use go_platform_kit.Broker.Publish.{Reply, ok, failed}

-- The operations of a store with states `S`. `Seen` is read-only.
pub record IdempotencyStore (S : Type 0) : Type 0 where
  pub seen : S → Text → Reply Bool
  pub mark : S → Text → S × Reply (Unit {0})

pub data DispatchError : Type 0 where
  broker : BrokerError → DispatchError
  decode : Text → DispatchError
  check_failed : (event_id : Text) → Text → DispatchError
  handler_failed : Text → DispatchError
  mark_failed : (event_id : Text) → Text → DispatchError

-- What `Dispatch` calls: the store, the handler with its success, the counter with its outcome.
pub data Call : Type 0 where
  check : (event_id : Text) → Call
  handle : (event_id : Text) → Bool → Call
  mark : (event_id : Text) → Call
  inc_consume : (outcome : Text) → Call

-- The states that a dispatch leaves, its error and its calls.
pub record Dispatched (S W : Type 0) : Type 0 where
  pub store : S
  pub world : W
  pub error : Option DispatchError
  pub calls : List Call

abbrev outcome_error : Text
outcome_error = bytes "error"

abbrev outcome_duplicate : Text
outcome_duplicate = bytes "duplicate"

abbrev outcome_invalid : Text
outcome_invalid = bytes "invalid"

abbrev outcome_success : Text
outcome_success = bytes "success"

-- A handler acts on the world, and may fail. It is given a pointer to the envelope: the last
-- component is the envelope as it leaves it.
abbrev pub Handler : Type 0 → Type 0 → Type 0
Handler W Value = W → Envelope Value → W × Reply (Unit {0}) × Envelope Value

module _ {S W Value : Type 0} where
  -- From the handler's call on: a store that is nil takes no mark.
  unfoldable pub handle_event :
      Option (IdempotencyStore S)
      → Handler W Value
      → S
      → W
      → Text
      → Envelope Value
      → List Call
      → Dispatched S W
  handle_event store handler s w event_id ev calls =
      let done = handler w ev in
      elim done.1 [
        | Reply.failed e ↦ record {
          store = s;
          world = done.0;
          error = some (DispatchError.handler_failed e);
          calls = calls ++ Call.handle event_id false ∷ Call.inc_consume outcome_error ∷ [];
        }
        | Reply.ok _ ↦ elim store [
          | none ↦ record {
            store = s;
            world = done.0;
            error = none;
            calls = calls ++ Call.handle event_id true ∷ Call.inc_consume outcome_success ∷ [];
          }
          | some ops ↦ elim (ops.mark s done.2.event_id).1 [
            | Reply.failed e ↦ record {
              store = (ops.mark s done.2.event_id).0;
              world = done.0;
              error = some (DispatchError.mark_failed done.2.event_id e);
              calls =
                  calls
                  ++ Call.handle event_id true
                    ∷ Call.mark done.2.event_id
                    ∷ Call.inc_consume outcome_error
                    ∷ [];
            }
            | Reply.ok _ ↦ record {
              store = (ops.mark s done.2.event_id).0;
              world = done.0;
              error = none;
              calls =
                  calls
                  ++ Call.handle event_id true
                    ∷ Call.mark done.2.event_id
                    ∷ Call.inc_consume outcome_success
                    ∷ [];
            }
          ]
        ]
      ]

  -- The check for a duplicate, and what follows.
  unfoldable pub dedupe :
      Option (IdempotencyStore S) → Handler W Value → S → W → Envelope Value → Dispatched S W
  dedupe none handler s w ev = handle_event none handler s w ev.event_id ev []
  dedupe (some ops) handler s w ev = elim (ops.seen s ev.event_id) [
    | Reply.failed e ↦ record {
      store = s;
      world = w;
      error = some (DispatchError.check_failed ev.event_id e);
      calls = Call.check ev.event_id ∷ Call.inc_consume outcome_error ∷ [];
    }
    | Reply.ok true ↦ record {
      store = s;
      world = w;
      error = none;
      calls = Call.check ev.event_id ∷ Call.inc_consume outcome_duplicate ∷ [];
    }
    | Reply.ok false ↦
        handle_event (some ops) handler s w ev.event_id ev (Call.check ev.event_id ∷ [])
  ]

module _ {S W Value : Type 0} (from_json : Text → Reply (Envelope Value)) where
  unfoldable pub dispatch :
      Option (IdempotencyStore S) → Option (Handler W Value) → S → W → Text → Dispatched S W
  dispatch store none s w payload = record {
    store = s;
    world = w;
    error = some (DispatchError.broker nil_handler);
    calls = [];
  }
  dispatch store (some handler) s w payload = elim (from_json payload) [
    | Reply.failed e ↦ record {
      store = s;
      world = w;
      error = some (DispatchError.decode e);
      calls = Call.inc_consume outcome_invalid ∷ [];
    }
    | Reply.ok ev ↦ elim (validate ev) [
      | some e ↦ record {
        store = s;
        world = w;
        error = some (DispatchError.broker e);
        calls = Call.inc_consume outcome_invalid ∷ [];
      }
      | none ↦ dedupe store handler s w ev
    ]
  ]
