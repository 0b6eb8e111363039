-- ===== src/Config.antt =====
-- config/config.go: the base configuration, its bindings and the broker's secrets. viper, Azugo's
-- and OpenTelemetry's sections, the secret store and the validator are parameters.
pub mod Laws
mod Tests
use go_platform_kit.Common.{Option, none, some, [], Text, ◌++◌, bytes, is_empty, if◌then◌else◌}
use go_platform_kit.Broker.Publish.{Reply, ok, failed}

-- What is called of viper, with states `V`: a default, and an environment variable's name for a key.
pub record ViperOps (V : Type 0) : Type 0 where
  pub set_default : V → (key value : Text) → V
  pub bind_env : V → (key name : Text) → V

-- The configuration of tracing; what the kit does not read of it is `Rest`.
pub record Telemetry (Rest : Type 0) : Type 0 where
  pub service_name : Text
  pub rest : Rest

-- `Broker`
pub record BrokerSection : Type 0 where
  pub url : Text
  pub tls_cert : Text
  pub tls_key : Text
  pub tls_ca : Text

pub record BaseConfiguration (Core Rest : Type 0) : Type 0 where
  pub core : Core
  pub service_name : Text
  pub telemetry : Option (Telemetry Rest)
  pub broker : Option BrokerSection

-- `New`, over Azugo's new configuration.
unfoldable pub new : {Core Rest : Type 0} → Core → BaseConfiguration Core Rest
new core = record { core = core; service_name = []; telemetry = none; broker = none }

module _ {V : Type 0} (viper : ViperOps V) (load_remote_secret : Text → Reply Text) where
  -- `loadSecret`
  unfoldable pub load_secret : V → (key name : Text) → V
  load_secret v key name = elim (load_remote_secret name) [
    | Reply.failed e ↦ v
    | Reply.ok secret ↦ if is_empty secret then v else viper.set_default v key secret
  ]

  -- The secrets of `(*Broker).Bind`.
  unfoldable pub load_secrets : (prefix : Text) → V → V
  load_secrets prefix v =
      let v = load_secret v (prefix ++ bytes ".tls_cert") (bytes "BROKER_TLS_CERT") in
      let v = load_secret v (prefix ++ bytes ".tls_key") (bytes "BROKER_TLS_KEY") in
      load_secret v (prefix ++ bytes ".tls_ca") (bytes "BROKER_TLS_CA")

  -- `(*Broker).Bind`
  unfoldable pub bind_broker : (prefix : Text) → V → V
  bind_broker prefix v =
      let v = load_secrets prefix v in
      let v = viper.bind_env v (prefix ++ bytes ".url") (bytes "BROKER_URL") in
      let v = viper.bind_env v (prefix ++ bytes ".tls_cert") (bytes "BROKER_TLS_CERT") in
      let v = viper.bind_env v (prefix ++ bytes ".tls_key") (bytes "BROKER_TLS_KEY") in
      viper.bind_env v (prefix ++ bytes ".tls_ca") (bytes "BROKER_TLS_CA")

  -- The binding of sections: Azugo's, a section of the library's own, and one that is given its
  -- `Bind`. A section that is nil may be made.
  pub record Binders (Core Rest : Type 0) : Type 0 where
    pub bind_core : Core → V → Core × V
    pub bind_telemetry : Option (Telemetry Rest) → (prefix : Text) → V → Option (Telemetry Rest) × V
    pub bind_section :
        (Text → V → V) → Option BrokerSection → (prefix : Text) → V → Option BrokerSection × V

  -- `(*BaseConfiguration).Bind`
  unfoldable pub bind :
      {Core Rest : Type 0}
      → Binders Core Rest
      → BaseConfiguration Core Rest
      → V
      → BaseConfiguration Core Rest × V
  bind binders c v =
      let core = binders.bind_core c.core v in
      let telemetry = binders.bind_telemetry c.telemetry (bytes "telemetry") core.1 in
      let broker = binders.bind_section bind_broker c.broker (bytes "broker") telemetry.1 in
      (
        record {
          core = core.0;
          service_name = c.service_name;
          telemetry = telemetry.0;
          broker = broker.0;
        },
        viper.bind_env broker.1 (bytes "service_name") (bytes "SERVICE_NAME"),
      )

-- `Validate` of the base configuration and of the broker's section: the validator's error.
unfoldable pub validate : {C : Type 0} → (validate_struct : C → Option Text) → C → Option Text
validate validate_struct c = validate_struct c
