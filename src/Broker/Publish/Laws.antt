-- ===== src/Broker/Publish/Laws.antt =====
-- Stamping and publishing: what is sent, and when.
use go_platform_kit.Common.{
  ℕ, ◌≡◌, ◌≢◌, ◌↔◌, ◌⊎◌, inl, inr, refl, ap, ◌∙◌, lookup, text_eq, if◌then◌else◌, false, Option,
  none, some, List, [], ◌∷◌, Text, arith, Unicode, is_empty, Option-cases,
}
use go_platform_kit.Broker.Envelope.{Envelope, validate}
use go_platform_kit.Broker.Tokens.Laws.{is_token_key, lookup-strip_tokens, strip_tokens_idem}
use go_platform_kit.Broker.Dispatch.Branches.{Reply-cases}
use go_platform_kit.Broker.Publish.{
  Ids, Call, PublishError, Reply, ok, failed, stamp, outcome_of, Publisher, send, publish_stamped,
  publish,
}

module _ (u : Unicode) {Value : Type 0} (new_id : Text) (now : ℕ) (ids : Ids)
    (ev : Envelope Value) where
  -- With a fresh id at hand, a stamped envelope is valid exactly when the caller has set the event
  -- type, a category and the outcome.
  pub validate-stamp :
      is_empty new_id ≡ false
      → (validate (stamp u new_id now ids ev) ≡ none) ↔ (
          (is_empty ev.event_type ≡ false)
          × (is_empty ev.categories ≡ false)
          × (is_empty ev.outcome ≡ false))
  unfolding validate stamp
  validate-stamp fresh = ground arith

  -- A stamp that is complete is final: stamping again, for any other request at any other time,
  -- changes nothing.
  pub stamp_again :
      (new_id' : Text) (now' : ℕ) (ids' : Ids)
      → is_empty new_id ≡ false
      → is_empty ids.correlation_id ≡ false
      → is_empty ids.trace_id ≡ false
      → stamp u new_id' now' ids' (stamp u new_id now ids ev) ≡ stamp u new_id now ids ev
  unfolding stamp
  stamp_again new_id' now' ids' fresh correlated traced =
      ground (arith, strip_tokens_idem u ev.attributes)

module _ {Value : Type 0} (to_json : Envelope Value → Reply Text) where
  -- Publishing from a request is stamping and then publishing what is stamped: an outbox that keeps
  -- the envelope and publishes it later sends the same.
  pub publish_stamped-publish :
      (u : Unicode) (new_id : Text) (now : ℕ) (ids : Ids) (p : Option Publisher) (topic : Text)
      (ev : Option (Envelope Value))
      → publish_stamped to_json p topic (publish to_json u new_id now ids p topic ev).0
        ≡ (publish to_json u new_id now ids p topic ev).1
  unfolding publish publish_stamped
  publish_stamped-publish u new_id now ids none topic ev = refl
  publish_stamped-publish u new_id now ids (some p) topic none = ground arith
  publish_stamped-publish u new_id now ids (some p) topic (some ev) = ground arith

  module _ (p : Publisher) (transport : Text → Text → Text → Reply (Unit {0})) (topic : Text)
      (ev : Envelope Value) where
    -- A valid envelope that can be encoded is sent once, with its event id for the key, and counted
    -- once by its outcome.
    abbrev pub Sent : Option PublishError × List Call → Type 0
    Sent r =
        (payload : Text) × (validate ev ≡ none)
        × (to_json ev ≡ ok payload)
        × (r.1
            ≡ Call.transport_publish topic ev.event_id payload
              ∷ Call.inc_publish p.service topic (outcome_of (transport topic ev.event_id payload))
              ∷ [])
        × ((r.0 ≡ none) ↔ (transport topic ev.event_id payload ≡ ok tt))

    -- Any other is refused with an error before anything is called.
    abbrev pub Refused : Option PublishError × List Call → Type 0
    Refused r =
        ((validate ev ≢ none) ⊎ ((e : Text) × (to_json ev ≡ failed e))) × (r.0 ≢ none) × (r.1 ≡ [])

    send-calls :
        (payload : Text)
        → ((send to_json p.service transport topic ev payload).1
            ≡ Call.transport_publish topic ev.event_id payload
              ∷ Call.inc_publish p.service topic (outcome_of (transport topic ev.event_id payload))
              ∷ [])
          × (((send to_json p.service transport topic ev payload).0 ≡ none)
              ↔ (transport topic ev.event_id payload ≡ ok tt))
    unfolding send
    send-calls payload = ground arith

    publish_stamped_of_valid :
        (payload : Text)
        → p.transport ≡ some transport
        → validate ev ≡ none
        → to_json ev ≡ ok payload
        → publish_stamped to_json (some p) topic (some ev)
          ≡ send to_json p.service transport topic ev payload
    unfolding publish_stamped
    publish_stamped_of_valid payload t v good = ground arith

    -- With a transport at hand, an envelope that is valid and can be encoded is handed to it exactly
    -- once, under its event id, and counted once by the outcome, and nil is returned exactly if the
    -- transport takes it; any other is refused with an error and nothing is called.
    pub publish_stamped-Sent :
        p.transport ≡ some transport
        → Sent (publish_stamped to_json (some p) topic (some ev))
          ⊎ Refused (publish_stamped to_json (some p) topic (some ev))
    unfolding publish_stamped
    publish_stamped-Sent t = elim (Option-cases (validate ev)) [
      | inr (e, v) ↦ inr (ground arith)
      | inl v ↦ elim (Reply-cases (to_json ev)) [
        | inl (e, bad) ↦ inr (ground arith)
        | inr (payload, good) ↦
            rw (publish_stamped_of_valid payload t v good)
              (inl (payload, v, good, (send-calls payload).0, (send-calls payload).1))
      ]
    ]

module _ (u : Unicode) {Value : Type 0} (to_json : Envelope Value → Reply Text) (new_id : Text)
    (now : ℕ) (ids : Ids) (p : Publisher) (transport : Text → Text → Text → Reply (Unit {0}))
    (topic : Text) (ev : Envelope Value) where
  abbrev pub published : Option (Envelope Value) × (Option PublishError × List Call)
  published = publish to_json u new_id now ids (some p) topic (some ev)

  abbrev stamped : Envelope Value
  stamped = stamp u new_id now ids ev

  -- What is sent is the encoding of the envelope `left`, once, or nothing.
  abbrev pub SendsOnly : Envelope Value → List Call → Type 0
  SendsOnly left calls =
      ((payload : Text) × (to_json left ≡ ok payload)
        × (calls
            ≡ Call.transport_publish topic left.event_id payload
              ∷ Call.inc_publish p.service topic
                  (outcome_of (transport topic left.event_id payload))
              ∷ []))
      ⊎ (calls ≡ [])

  publish-stamped :
      p.transport ≡ some transport
      → published ≡ (some stamped, publish_stamped to_json (some p) topic (some stamped))
  unfolding publish
  publish-stamped t = ground arith

  -- `Publish` over a transport leaves an envelope of whose attributes no key looks like a
  -- credential, and which has every other attribute as the caller gave it; and all that it sends, if
  -- it sends anything, is the encoding of this envelope.
  pub lookup-publish :
      (j : Text)
      → p.transport ≡ some transport
      → (left : Envelope Value) × (published.0 ≡ some left)
        × (lookup j left.attributes ≡ (if is_token_key u j then none else lookup j ev.attributes))
        × SendsOnly left published.1.1
  unfolding stamp
  lookup-publish j t =
      let e = publish-stamped t in
      (
        stamped,
        ap (λ r. r.0) e,
        lookup-strip_tokens u ev.attributes j,
        elim (publish_stamped-Sent to_json p transport topic stamped t) [
          | inl (payload, v, good, calls, _) ↦ inl (payload, good, ap (λ r. r.1.1) e ∙ calls)
          | inr (_, _, calls) ↦ inr (ap (λ r. r.1.1) e ∙ calls)
        ],
      )
