-- ===== src/Natsbroker/Stream.antt =====
-- broker/natsbroker/natsbroker.go: `maxBytes`, `EnsureStream` and the publish transport.
use go_platform_kit.Common.{Option, none, some, List, Text, is_empty, if◌then◌else◌, ℤ, le_zero}
use go_platform_kit.Broker.Publish.{Reply}
use go_platform_kit.Natsbroker.{
  NatsError, ServerStream, Storage, Retention, Discard, JetStream, Conn,
}

-- `maxBytes`: JetStream spells "unlimited" as -1.
unfoldable pub max_bytes : ℤ → ℤ
max_bytes v = if le_zero v then ℤ.negsuc 0 else v

pub record StreamConfig : Type 0 where
  pub name : Text
  pub subjects : List Text
  pub max_age : ℤ
  pub max_bytes : ℤ
  pub duplicates : ℤ

abbrev pub server_stream : StreamConfig → ServerStream
server_stream sc = record {
  name = sc.name;
  subjects = sc.subjects;
  storage = Storage.file_storage;
  retention = Retention.limits_policy;
  max_age = sc.max_age;
  max_bytes = max_bytes sc.max_bytes;
  discard = Discard.discard_old;
  duplicates = sc.duplicates;
}

pub record Transport (Cons : Type 0) : Type 0 where
  pub js : Option (JetStream Cons)

module _ {Nc Cons : Type 0} where
  -- The connection may be nil, and so may its context.
  unfoldable pub ensure_stream : Option (Conn Nc Cons) → StreamConfig → Option NatsError
  ensure_stream none sc = some NatsError.nil_connection
  ensure_stream (some c) sc = elim c.js [
    | none ↦ some NatsError.nil_connection
    | some js ↦ elim (js.create_or_update_stream (server_stream sc)) [
      | Reply.failed e ↦ some (NatsError.ensure_stream_failed sc.name e)
      | Reply.ok _ ↦ none
    ]
  ]

  -- `NewTransport`
  unfoldable pub new_transport : Conn Nc Cons → Transport Cons
  new_transport c = record { js = c.js }

-- `Transport.Publish`: the key, where there is one, is the server's message id. The transport may
-- be nil. The time that a call is given is the client's concern.
unfoldable pub publish :
    {Cons : Type 0} → Option (Transport Cons) → Text → Text → Text → Option NatsError
publish none topic key payload = some NatsError.no_jetstream
publish (some t) topic key payload = elim t.js [
  | none ↦ some NatsError.no_jetstream
  | some js ↦ elim (js.publish topic payload (if is_empty key then none else some key)) [
    | Reply.failed e ↦ some (NatsError.publish_failed topic e)
    | Reply.ok _ ↦ none
  ]
]
