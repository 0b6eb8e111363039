-- ===== src/Natsbroker/Tests/Connection.antt =====
-- A connection, publishing over it, and a consumer that is started twice.
use go_platform_kit.Common.{
  ◌≡◌, ◌↔◌, refl, true, ℕ, Option, none, some, List, [], ◌∷◌, ◌++◌, arith, nat_eq, nat_beq_iff,
  Text, bytes, length, text_eq, ◌==◌, if◌then◌else◌,
}
use go_platform_kit.Broker.Envelope.{Envelope, validate}
use go_platform_kit.Broker.Publish.{Reply, ok, failed, publish_stamped}
use go_platform_kit.Broker.Samples.{event, decode}
use go_platform_kit.Natsbroker.{JetStream, Conn, Consumer}
use go_platform_kit.Natsbroker.Connect.{Config, NatsClient, connect}
use go_platform_kit.Natsbroker.Connect.Laws.{Ends, connect-Ends}
use go_platform_kit.Natsbroker.Lifecycle.{Subscriptions, stop}
use go_platform_kit.Natsbroker.Lifecycle.Laws.{SubscriptionsLaws, starts, stop-starts}
use go_platform_kit.Natsbroker.Publishing.{publisher_over, publish_stamped-publish_over}

-- A server with one stream, "audit".
abbrev js : JetStream Text
js = record {
  publish =
      λ topic payload msg_id. if topic == bytes "audit" then ok tt else failed (bytes "no stream");
  create_or_update_stream = λ s. ok tt;
  create_or_update_consumer = λ stream c. ok c.durable;
}

abbrev client : NatsClient Text Text Text Text
client = record {
  x509_key_pair = λ cert key. ok cert;
  certs_from_pem = λ pem. some pem;
  dial = λ url opts. ok url;
  new_jet_stream = λ nc. ok js;
  is_connected = λ nc. true;
}

abbrev config : Config
config = record {
  url = bytes "tls://broker:4222";
  tls_cert = [];
  tls_key = [];
  tls_ca = bytes "PEM";
  name = bytes "bff";
}

connect-Ends_example : Ends client config (connect client config)
connect-Ends_example = connect-Ends client config

abbrev conn : Conn Text Text
conn = record { nc = some (bytes "tls://broker:4222"); js = some js }

abbrev encode : Envelope Text → Reply Text
encode ev = ok ev.event_id

a-valid : validate (event (bytes "a")) ≡ none
unfolding validate bytes
a-valid = refl

publish_stamped-publish_over_example :
    ((publish_stamped encode
        (some (publisher_over (λ e. bytes "nats") conn (bytes "bff")))
        (bytes "audit")
        (some (event (bytes "a")))).0
      ≡ none)
    ↔ (js.publish (bytes "audit") (bytes "a") (some (bytes "a")) ≡ ok tt)
publish_stamped-publish_over_example =
    publish_stamped-publish_over (λ e. bytes "nats") conn js encode (bytes "bff") (bytes "audit")
      (event (bytes "a")) (bytes "a") refl a-valid refl

-- A client whose state is the list of its running subscriptions, the newest first.
abbrev without : ℕ → List ℕ → List ℕ
without sub [] = []
without sub (s ∷ j) = let rest = without sub j in if s == sub then j else s ∷ rest

abbrev subscriptions : Subscriptions (Unit {0}) (Unit {0}) Text ℕ (List ℕ)
subscriptions = record {
  consume = λ j cons f. (length j ∷ j, ok (length j));
  stop = λ j sub. without sub j;
}

without_newest : (j : List ℕ) (sub : ℕ) (rest : List ℕ) → j ≡ sub ∷ rest → without sub j ≡ rest
without_newest j sub rest e = ground (arith, nat_beq_iff sub sub)

abbrev subscriptions-SubscriptionsLaws : SubscriptionsLaws decode subscriptions
subscriptions-SubscriptionsLaws = record {
  running = λ j. j;
  consumes = λ j cons f. (length j, refl, refl);
  stops = without_newest;
}

abbrev sink : Consumer (Unit {0}) (Unit {0}) Text Text ℕ
sink = record { cons = some (bytes "sink"); store = none; handler = none; cc = none }

abbrev started_twice : List ℕ × Option (Consumer (Unit {0}) (Unit {0}) Text Text ℕ)
started_twice = starts decode subscriptions 2 [] sink

stop-starts_example :
    (earlier : List ℕ) × (length earlier ≡ 1)
    × (stop decode subscriptions started_twice.0 started_twice.1 ≡ earlier ++ [])
unfolding stop
stop-starts_example =
    stop-starts decode subscriptions subscriptions-SubscriptionsLaws 1 [] sink (bytes "sink") refl
