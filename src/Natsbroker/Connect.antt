-- ===== src/Natsbroker/Connect.antt =====
-- broker/natsbroker/natsbroker.go: `Connect`, `tlsConfig`, `Ping` and `Close`. The NATS client and
-- the TLS library are parameters; a result records what is called of the client, in order.
pub mod Laws
use go_platform_kit.Common.{
  Bool, true, false, not, ◌&&◌, ◌||◌, Option, none, some, List, [], ◌∷◌, ◌++◌, Text, is_empty, ℤ,
  if◌then◌else◌, ◌⊎◌, inl, inr,
}
use go_platform_kit.Broker.Publish.{Reply, ok, failed}
use go_platform_kit.Natsbroker.{NatsError, JetStream, Conn}

pub record Config : Type 0 where
  pub url : Text
  pub tls_cert : Text
  pub tls_key : Text
  pub tls_ca : Text
  pub name : Text

-- The least version that TLS accepts.
pub data TlsVersion : Type 0 where
  tls10 tls11 tls12 tls13 : TlsVersion

pub record TlsConfig (Cert Pool : Type 0) : Type 0 where
  pub min_version : TlsVersion
  pub certificates : List Cert
  pub root_cas : Option Pool

pub data ClientOption (Cert Pool : Type 0) : Type 0 where
  connection_name : Text → ClientOption Cert Pool
  max_reconnects : ℤ → ClientOption Cert Pool
  reconnect_wait : ℤ → ClientOption Cert Pool
  secure : TlsConfig Cert Pool → ClientOption Cert Pool

-- `tls.X509KeyPair`, a new pool with `AppendCertsFromPEM`, `nats.Connect`, `jetstream.New` and
-- `IsConnected`.
pub record NatsClient (Cert Pool Nc Cons : Type 0) : Type 0 where
  pub x509_key_pair : (cert key : Text) → Reply Cert
  pub certs_from_pem : Text → Option Pool
  pub dial : (url : Text) → List (ClientOption Cert Pool) → Reply Nc
  pub new_jet_stream : Nc → Reply (JetStream Cons)
  pub is_connected : Nc → Bool

pub data ConnCall (Cert Pool Nc : Type 0) : Type 0 where
  dialled : (url : Text) → List (ClientOption Cert Pool) → Reply Nc → ConnCall Cert Pool Nc
  closed : Nc → ConnCall Cert Pool Nc
  drained : Nc → ConnCall Cert Pool Nc

abbrev pub base_options : {Cert Pool : Type 0} → Config → List (ClientOption Cert Pool)
base_options cfg =
    ClientOption.connection_name cfg.name
    ∷ ClientOption.max_reconnects (ℤ.negsuc 0)
    ∷ ClientOption.reconnect_wait (ℤ.pos 2_000_000_000)
    ∷ []

module _ {Cert Pool Nc Cons : Type 0} (client : NatsClient Cert Pool Nc Cons) where
  -- The roots, on a configuration that has its certificates.
  unfoldable pub with_roots : Config → TlsConfig Cert Pool → TlsConfig Cert Pool ⊎ NatsError
  with_roots cfg t =
      if is_empty cfg.tls_ca then inl t else (elim (client.certs_from_pem cfg.tls_ca) [
        | none ↦ inr NatsError.invalid_ca
        | some pool ↦ inl (record t { root_cas = some pool })
      ])

  -- `tlsConfig`
  unfoldable pub tls_config : Config → TlsConfig Cert Pool ⊎ NatsError
  tls_config cfg =
      let t : TlsConfig Cert Pool = record {
        min_version = TlsVersion.tls12;
        certificates = [];
        root_cas = none;
      } in
      if not (is_empty cfg.tls_cert) && not (is_empty cfg.tls_key)
      then (elim (client.x509_key_pair cfg.tls_cert cfg.tls_key) [
        | Reply.failed e ↦ inr (NatsError.client_cert e)
        | Reply.ok cert ↦ with_roots cfg (record t { certificates = cert ∷ [] })
      ])
      else with_roots cfg t

  -- From `nats.Connect` on.
  unfoldable pub open_conn :
      Config
      → List (ClientOption Cert Pool)
      → (Conn Nc Cons ⊎ NatsError) × List (ConnCall Cert Pool Nc)
  open_conn cfg opts =
      let reply = client.dial cfg.url opts in
      elim reply [
        | Reply.failed e ↦ (
          inr (NatsError.connect_failed cfg.url e),
          ConnCall.dialled cfg.url opts (Reply.failed e) ∷ [],
        )
        | Reply.ok nc ↦ elim (client.new_jet_stream nc) [
          | Reply.failed e ↦ (
            inr (NatsError.jetstream_failed e),
            ConnCall.dialled cfg.url opts (Reply.ok nc) ∷ ConnCall.closed nc ∷ [],
          )
          | Reply.ok js ↦ (
            inl (record { nc = some nc; js = some js }),
            ConnCall.dialled cfg.url opts (Reply.ok nc) ∷ [],
          )
        ]
      ]

  -- `Connect`
  unfoldable pub connect : Config → (Conn Nc Cons ⊎ NatsError) × List (ConnCall Cert Pool Nc)
  connect cfg =
      if is_empty cfg.url
      then (inr NatsError.empty_url, [])
      else if not (is_empty cfg.tls_cert) || not (is_empty cfg.tls_ca)
      then (elim (tls_config cfg) [
        | inr e ↦ (inr e, [])
        | inl t ↦ open_conn cfg (base_options cfg ++ ClientOption.secure t ∷ [])
      ])
      else open_conn cfg (base_options cfg)

  -- `Ping`
  unfoldable pub ping : Option (Conn Nc Cons) → Option NatsError
  ping none = some NatsError.nil_connection
  ping (some c) = elim c.nc [
    | none ↦ some NatsError.nil_connection
    | some nc ↦ if client.is_connected nc then none else some NatsError.not_connected
  ]

  -- `Close`; the drain's error is dropped.
  unfoldable pub close : Option (Conn Nc Cons) → List (ConnCall Cert Pool Nc)
  close none = []
  close (some c) = elim c.nc [ none ↦ [] | some nc ↦ ConnCall.drained nc ∷ [] ]
