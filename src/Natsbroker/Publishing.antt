-- ===== src/Natsbroker/Publishing.antt =====
-- The publisher of the package broker over the transport of a NATS connection.
use go_platform_kit.Common.{
  ◌≡◌, ◌↔◌, inl, inr, refl, false, Option, none, some, Text, arith, is_empty,
}
use go_platform_kit.Broker.Envelope.{Envelope, validate}
use go_platform_kit.Broker.Publish.{Reply, ok, failed, Publisher, new_publisher, publish_stamped}
use go_platform_kit.Broker.Publish.Laws.{publish_stamped-Sent}
use go_platform_kit.Natsbroker.{NatsError, JetStream, Conn}
use go_platform_kit.Natsbroker.Stream.{new_transport, publish}

-- What the transport replies, an error by its text.
unfoldable pub reply_of : (NatsError → Text) → Option NatsError → Reply (Unit {0})
reply_of error_text none = ok tt
reply_of error_text (some e) = failed (error_text e)

module _ {Nc Cons : Type 0} (error_text : NatsError → Text) where
  -- A publisher over a connection.
  unfoldable pub publisher_over : Conn Nc Cons → Text → Publisher
  publisher_over c service =
      new_publisher
        (some (λ topic key payload.
          reply_of error_text (publish (some (new_transport c)) topic key payload)))
        service

  module _ (c : Conn Nc Cons) (js : JetStream Cons) where
    reply-publish :
        (topic key payload : Text)
        → c.js ≡ some js
        → is_empty key ≡ false
        → (reply_of error_text (publish (some (new_transport c)) topic key payload) ≡ ok tt)
          ↔ (js.publish topic payload (some key) ≡ ok tt)
    unfolding reply_of publish new_transport
    reply-publish topic key payload has keyed = ground arith

    module _ {Value : Type 0} (to_json : Envelope Value → Reply Text) where
      valid-keyed : (ev : Envelope Value) → validate ev ≡ none → is_empty ev.event_id ≡ false
      unfolding validate
      valid-keyed ev v = ground arith

      -- Publishing a valid envelope over a connection with a JetStream context returns nil exactly if
      -- JetStream takes its encoding, on the topic and with the event id for the message id.
      pub publish_stamped-publish_over :
          (service topic : Text) (ev : Envelope Value) (payload : Text)
          → c.js ≡ some js
          → validate ev ≡ none
          → to_json ev ≡ ok payload
          → ((publish_stamped to_json (some (publisher_over c service)) topic (some ev)).0 ≡ none)
            ↔ (js.publish topic payload (some ev.event_id) ≡ ok tt)
      unfolding publisher_over new_publisher
      publish_stamped-publish_over service topic ev payload has v good =
          let transport : Text → Text → Text → Reply (Unit {0}) =
            λ t k q. reply_of error_text (publish (some (new_transport c)) t k q) in
          elim (publish_stamped-Sent to_json (publisher_over c service) transport topic ev refl) [
            | inr (inl invalid, _, _) ↦ absurd (invalid v)
            | inr (inr (e, bad), _, _) ↦ absurd (ground arith)
            | inl (payload', _, good', _, taken) ↦
                let same : payload' ≡ payload = ground arith in
                let at_key = reply-publish topic ev.event_id payload has (valid-keyed ev v) in
                (λ h. at_key.0 (rw same at (taken.0 h)), λ h. taken.1 (rw same (at_key.1 h)))
          ]
