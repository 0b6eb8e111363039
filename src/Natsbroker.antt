-- ===== src/Natsbroker.antt =====
-- broker/natsbroker: the JetStream client that its files call, the errors, a connection and a
-- consumer, and the consumer's callback over `Dispatch`. JetStream is a parameter: a call of it is a
-- function that replies. Durations are nanoseconds.
pub mod Connect
pub mod Stream
pub mod Lifecycle
pub mod Publishing
pub mod Runs
pub mod Delivery
pub mod Rounds
pub mod Drain
mod Tests
use go_platform_kit.Common.{Bool, true, false, Option, none, some, List, [], ◌∷◌, Text, ℤ}
use go_platform_kit.Broker.Publish.{Reply, ok, failed}
use go_platform_kit.Broker.Envelope.{Envelope}
use go_platform_kit.Broker.Dispatch.{IdempotencyStore, DispatchError, Dispatched, Handler, dispatch}

pub data NatsError : Type 0 where
  nil_handler nil_connection nil_consumer no_jetstream not_connected : NatsError
  empty_url invalid_ca : NatsError
  client_cert : Text → NatsError
  connect_failed : (url : Text) → Text → NatsError
  jetstream_failed : Text → NatsError
  ensure_consumer : (durable stream : Text) → Text → NatsError
  consume_failed : Text → NatsError
  ensure_stream_failed : (name : Text) → Text → NatsError
  publish_failed : (topic : Text) → Text → NatsError

pub data AckPolicy : Type 0 where
  ack_none ack_all ack_explicit : AckPolicy

-- What the server is asked for as a consumer.
pub record ServerConsumer : Type 0 where
  pub durable : Text
  pub filter_subject : Text
  pub ack_policy : AckPolicy
  pub ack_wait : ℤ
  pub max_deliver : ℤ

pub data Storage : Type 0 where
  file_storage memory_storage : Storage

pub data Retention : Type 0 where
  limits_policy interest_policy work_queue_policy : Retention

pub data Discard : Type 0 where
  discard_old discard_new : Discard

-- What the server is asked for as a stream.
pub record ServerStream : Type 0 where
  pub name : Text
  pub subjects : List Text
  pub storage : Storage
  pub retention : Retention
  pub max_age : ℤ
  pub max_bytes : ℤ
  pub discard : Discard
  pub duplicates : ℤ

-- What is called of a JetStream context, whose consumers are of the type `Cons`. A publish may carry
-- a message id.
pub record JetStream (Cons : Type 0) : Type 0 where
  pub publish : (topic payload : Text) → (msg_id : Option Text) → Reply (Unit {0})
  pub create_or_update_stream : ServerStream → Reply (Unit {0})
  pub create_or_update_consumer : (stream : Text) → ServerConsumer → Reply Cons

-- A connection's two pointers, which may be nil.
pub record Conn (Nc Cons : Type 0) : Type 0 where
  pub nc : Option Nc
  pub js : Option (JetStream Cons)

-- `(*Conn).JetStream`
unfoldable pub jet_stream : {Nc Cons : Type 0} → Conn Nc Cons → Option (JetStream Cons)
jet_stream c = c.js

-- `cons` is what JetStream knows the consumer by, `cc` its running subscription.
pub record Consumer (S W Value Cons Sub : Type 0) : Type 0 where
  pub cons : Option Cons
  pub store : Option (IdempotencyStore S)
  pub handler : Option (Handler W Value)
  pub cc : Option Sub

pub record Message : Type 0 where
  pub subject : Text
  pub payload : Text

-- What the callback does with a message, in order.
pub data Action : Type 0 where
  warn_dispatch : (subject : Text) → DispatchError → Action
  warn_ack : (subject : Text) → Text → Action
  nak : Action
  ack : Action

-- What follows the dispatch; the ack may fail.
unfoldable pub settle : Message → Reply (Unit {0}) → Option DispatchError → List Action
settle msg ack_reply (some e) = Action.warn_dispatch msg.subject e ∷ Action.nak ∷ []
settle msg (Reply.ok _) none = Action.ack ∷ []
settle msg (Reply.failed e) none = Action.ack ∷ Action.warn_ack msg.subject e ∷ []

module _ {S W Value Cons Sub : Type 0} (from_json : Text → Reply (Envelope Value)) where
  -- The callback that `Start` hands to JetStream.
  unfoldable pub on_message :
      Consumer S W Value Cons Sub
      → S
      → W
      → Message
      → Reply (Unit {0})
      → Dispatched S W × List Action
  unfolding settle
  on_message c s w msg ack_reply =
      let done = dispatch from_json c.store c.handler s w msg.payload in
      (done, settle msg ack_reply done.error)
