-- ===== src/Natsbroker/Lifecycle.antt =====
-- broker/natsbroker/consumer.go: a consumer's construction, `Start` and `Stop`.
pub mod Laws
use go_platform_kit.Common.{
  Option, none, some, Text, if◌then◌else◌, ℤ, le_zero, ◌⊎◌, inl, inr, List,
}
use go_platform_kit.Broker.Envelope.{Envelope}
use go_platform_kit.Broker.Publish.{Reply, ok, failed}
use go_platform_kit.Broker.Dispatch.{IdempotencyStore, Dispatched, Handler}
use go_platform_kit.Natsbroker.{
  NatsError, AckPolicy, ServerConsumer, JetStream, Conn, Consumer, Message, Action, on_message,
}

abbrev pub default_ack_wait : ℤ
default_ack_wait = ℤ.pos 30_000_000_000

pub record ConsumerConfig : Type 0 where
  pub stream : Text
  pub durable : Text
  pub filter_subject : Text
  pub ack_wait : ℤ
  pub max_deliver : ℤ

-- The consumer that is asked for.
abbrev pub server_consumer : ConsumerConfig → ServerConsumer
server_consumer cc = record {
  durable = cc.durable;
  filter_subject = cc.filter_subject;
  ack_policy = AckPolicy.ack_explicit;
  ack_wait = if le_zero cc.ack_wait then default_ack_wait else cc.ack_wait;
  max_deliver = cc.max_deliver;
}

-- `NewConsumer`. The log is not modelled: a nil one drops what the callback logs.
unfoldable pub new_consumer :
    {S W Value Nc Cons Sub : Type 0}
    → Option (Conn Nc Cons)
    → ConsumerConfig
    → Option (IdempotencyStore S)
    → Option (Handler W Value)
    → Consumer S W Value Cons Sub ⊎ NatsError
new_consumer conn cc store none = inr NatsError.nil_handler
new_consumer none cc store (some handler) = inr NatsError.nil_connection
new_consumer (some c) cc store (some handler) = elim c.js [
  | none ↦ inr NatsError.nil_connection
  | some js ↦ elim (js.create_or_update_consumer cc.stream (server_consumer cc)) [
    | Reply.failed e ↦ inr (NatsError.ensure_consumer cc.durable cc.stream e)
    | Reply.ok cons ↦
        inl (record { cons = some cons; store = store; handler = some handler; cc = none })
  ]
]

-- What `Start` hands to JetStream: from the states that a message finds, and the reply to its ack.
abbrev pub Callback : Type 0 → Type 0 → Type 0
Callback S W = S → W → Message → Reply (Unit {0}) → Dispatched S W × List Action

-- The part of the client that runs subscriptions, with states `J`.
pub record Subscriptions (S W Cons Sub J : Type 0) : Type 0 where
  pub consume : J → Cons → Callback S W → J × Reply Sub
  pub stop : J → Sub → J

module _ {S W Value Cons Sub J : Type 0} (from_json : Text → Reply (Envelope Value))
    (client : Subscriptions S W Cons Sub J) where
  -- The client's state, the consumer as it is left, and the error.
  unfoldable pub start :
      J
      → Option (Consumer S W Value Cons Sub)
      → J × Option (Consumer S W Value Cons Sub) × Option NatsError
  start j none = (j, none, some NatsError.nil_consumer)
  start j (some c) = elim c.cons [
    | none ↦ (j, some c, some NatsError.nil_consumer)
    | some cons ↦
        let done = client.consume j cons (on_message from_json c) in
        elim done.1 [
          | Reply.failed e ↦ (done.0, some c, some (NatsError.consume_failed e))
          | Reply.ok cc ↦ (done.0, some (record c { cc = some cc }), none)
        ]
  ]

  unfoldable pub stop : J → Option (Consumer S W Value Cons Sub) → J
  stop j none = j
  stop j (some c) = elim c.cc [ none ↦ j | some cc ↦ client.stop j cc ]
