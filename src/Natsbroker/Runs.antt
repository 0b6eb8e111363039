-- ===== src/Natsbroker/Runs.antt =====
-- At-least-once delivery: a run of a durable consumer. The server delivers any pending message any
-- number of times. A message is pending no more once its ack is confirmed, or if the server loses
-- it: the stream's limits (`EnsureStream` keeps messages up to an age and a size, and then discards
-- the oldest) and the consumer's `MaxDeliver` may make any pending message go at any time.
pub mod Accounted
use go_platform_kit.Common.{◌≡◌, Bool, true, false, none, some, List, [], ◌∷◌, ◌++◌, Text}
use go_platform_kit.Broker.Envelope.{Envelope}
use go_platform_kit.Broker.Publish.{Reply}
use go_platform_kit.Broker.Dispatch.{IdempotencyStore, Dispatched, Handler}
use go_platform_kit.Natsbroker.{Consumer, Message, Action, on_message}

-- The consumer's store and world, and the messages: all that arrived, those that are to be delivered
-- yet, those whose ack was confirmed, and those that the server lost.
pub record Run (S W : Type 0) : Type 0 where
  pub store : S
  pub world : W
  pub arrived : List Message
  pub pending : List Message
  pub confirmed : List Message
  pub lost : List Message

-- The ack arrived if the callback acks and the server confirms.
abbrev pub acked : List Action → Bool
acked (Action.ack ∷ []) = true
acked _ = false

module _ {S W Value : Type 0} (from_json : Text → Reply (Envelope Value)) (ops : IdempotencyStore S)
    (handler : Handler W Value) where
  abbrev consumer : Consumer S W Value (Unit {0}) (Unit {0})
  consumer = record { cons = some tt; store = some ops; handler = some handler; cc = none }

  abbrev pub called : Run S W → Message → Reply (Unit {0}) → Dispatched S W × List Action
  called r m reply = on_message from_json consumer r.store r.world m reply

  -- A message arrives, a delivery is confirmed or not, or the server loses a message.
  pub data Step (r r' : Run S W) : Type 0 where
    arrive :
        (m : Message)
        → r' ≡ record r { arrived = m ∷ r.arrived; pending = m ∷ r.pending }
        → Step r r'
    confirm :
        (before after : List Message) (m : Message) (reply : Reply (Unit {0}))
        → r.pending ≡ before ++ m ∷ after
        → acked (called r m reply).1 ≡ true
        → r' ≡ record {
          store = (called r m reply).0.store;
          world = (called r m reply).0.world;
          arrived = r.arrived;
          pending = before ++ after;
          confirmed = m ∷ r.confirmed;
          lost = r.lost;
        }
        → Step r r'
    hold :
        (before after : List Message) (m : Message) (reply : Reply (Unit {0}))
        → r.pending ≡ before ++ m ∷ after
        → acked (called r m reply).1 ≡ false
        → r' ≡ record r { store = (called r m reply).0.store; world = (called r m reply).0.world }
        → Step r r'
    lose :
        (before after : List Message) (m : Message)
        → r.pending ≡ before ++ m ∷ after
        → r' ≡ record r { pending = before ++ after; lost = m ∷ r.lost }
        → Step r r'

  pub data Reach (r : Run S W) : Run S W → Type 0 where
    here : Reach r r
    next : {r' r'' : Run S W} → Reach r r' → Step r' r'' → Reach r r''
