-- ===== src/Broker/Concurrent.antt =====
-- broker/consume.go: `Dispatch`, one call of the store or the handler at a time. Several replicas
-- dispatch over one shared store, and their calls interleave in any order; a replica may die.
pub mod Safety
mod Tests
use go_platform_kit.Common.{◌≡◌, Bool, true, false, Option, none, some, List, [], ◌∷◌, ◌++◌, Text}
use go_platform_kit.Broker.Envelope.{Envelope, validate}
use go_platform_kit.Broker.Publish.{Reply}
use go_platform_kit.Broker.Dispatch.{IdempotencyStore, DispatchError, Handler}

-- Where a dispatch stands: at its start, before the handler's call, before the mark of the id that
-- the handler left, or returned.
pub data Pc (Value : Type 0) : Type 0 where
  start : Pc Value
  to_handle : Envelope Value → Pc Value
  to_mark : Envelope Value → (marked_id : Text) → Pc Value
  finished : Option DispatchError → Pc Value

module _ {S W Value : Type 0} (from_json : Text → Reply (Envelope Value)) (ops : IdempotencyStore S)
    (handler : Handler W Value) where
  -- One turn of a dispatch. The decoding and the validation touch nothing that is shared.
  unfoldable pub turn : S → W → Text → Pc Value → S × W × Pc Value
  turn s w payload start = elim (from_json payload) [
    | Reply.failed e ↦ (s, w, finished (some (DispatchError.decode e)))
    | Reply.ok ev ↦ elim (validate ev) [
      | some e ↦ (s, w, finished (some (DispatchError.broker e)))
      | none ↦ elim (ops.seen s ev.event_id) [
        | Reply.failed e ↦ (s, w, finished (some (DispatchError.check_failed ev.event_id e)))
        | Reply.ok true ↦ (s, w, finished none)
        | Reply.ok false ↦ (s, w, to_handle ev)
      ]
    ]
  ]
  turn s w payload (to_handle ev) = elim (handler w ev).1 [
    | Reply.failed e ↦ (s, (handler w ev).0, finished (some (DispatchError.handler_failed e)))
    | Reply.ok _ ↦ (s, (handler w ev).0, to_mark ev (handler w ev).2.event_id)
  ]
  turn s w payload (to_mark ev marked_id) = elim (ops.mark s marked_id).1 [
    | Reply.failed e ↦
        ((ops.mark s marked_id).0, w, finished (some (DispatchError.mark_failed marked_id e)))
    | Reply.ok _ ↦ ((ops.mark s marked_id).0, w, finished none)
  ]
  turn s w payload (finished e) = (s, w, finished e)

  -- The shared store and world, and the deliveries in flight, each with its payload.
  pub record System : Type 0 where
    pub store : S
    pub world : W
    pub deliveries : List (Text × Pc Value)

  pub data Step (r r' : System) : Type 0 where
    deliver :
        (payload : Text)
        → r' ≡ record r { deliveries = (payload, start) ∷ r.deliveries }
        → Step r r'
    move :
        (before after : List (Text × Pc Value)) (payload : Text) (pc : Pc Value)
        → r.deliveries ≡ before ++ (payload, pc) ∷ after
        → r' ≡ record {
          store = (turn r.store r.world payload pc).0;
          world = (turn r.store r.world payload pc).1;
          deliveries = before ++ (payload, (turn r.store r.world payload pc).2) ∷ after;
        }
        → Step r r'
    die :
        (before after : List (Text × Pc Value)) (payload : Text) (pc : Pc Value)
        → r.deliveries ≡ before ++ (payload, pc) ∷ after
        → r' ≡ record r { deliveries = before ++ after }
        → Step r r'

  pub data Reach (r : System) : System → Type 0 where
    here : Reach r r
    next : {r' r'' : System} → Reach r r' → Step r' r'' → Reach r r''
