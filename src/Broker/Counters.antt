-- ===== src/Broker/Counters.antt =====
-- The counters of the package broker, in the registry of the metrics library: what a publish counts.
pub mod Laws
pub mod Consume
mod Tests
use go_platform_kit.Common.{
  ◌≡◌, ◌≢◌, ◌⊎◌, inl, inr, refl, ap, sym, ◌∙◌, ℕ, zero, suc, Bool, true, false, Option, none, some,
  List, [], ◌∷◌, Text, text_eq, ◌==◌, text_beq, text_beq_iff, text_beq_refl, All, map, ◌↔◌, bytes,
  arith, lookup, if◌then◌else◌, Bool-cases,
}
use go_platform_kit.Broker.Envelope.{Envelope, validate}
use go_platform_kit.Broker.Publish.{
  Call, transport_publish, inc_publish, PublishError, Reply, ok, failed, Publisher, outcome_of,
  publish_stamped,
}
use go_platform_kit.Broker.Publish.Laws.{Sent, Refused, publish_stamped-Sent}
use go_platform_kit.Broker.Dispatch.Branches.{Reply-cases}
use go_platform_kit.Broker.Counters.Laws.{CounterLaws}
use go_platform_kit.Observability.Metrics.{
  RegistryOps, label_service, label_topic, label_outcome, outcome_success, outcome_error,
  metric_broker_publish_total, series, inc_counter,
}
use go_platform_kit.Observability.Metrics.Injective.{IsDelimited, Lacks, any-Lacks, series_inj}

-- The labels that a publish counts under.
abbrev pub publish_labels : (service topic outcome : Text) → List (Text × Text)
publish_labels service topic outcome =
    (label_service, service) ∷ (label_topic, topic) ∷ (label_outcome, outcome) ∷ []

module _ (quote : Text → Text) {M Seconds : Type 0} (ops : RegistryOps M Seconds) where
  -- The registry after the calls of a publish.
  unfoldable pub recorded : M → List Call → M
  recorded m [] = m
  recorded m (transport_publish _ _ _ ∷ calls) = recorded m calls
  recorded m (inc_publish service topic outcome ∷ calls) =
      recorded
        (inc_counter quote ops m metric_broker_publish_total (publish_labels service topic outcome))
        calls

  abbrev pub publish_series : (service topic outcome : Text) → Text
  publish_series service topic outcome =
      series quote metric_broker_publish_total (publish_labels service topic outcome)

  outcome_at :
      (service topic outcome : Text)
      → lookup label_outcome (publish_labels service topic outcome) ≡ some outcome
  unfolding lookup bytes text_beq
  outcome_at service topic outcome = refl

  name-Lacks : Lacks b'{' metric_broker_publish_total
  unfolding bytes
  name-Lacks = any-Lacks b'{' metric_broker_publish_total refl

  labels-Lack :
      (service topic outcome : Text)
      → All (Lacks b'=') (map (λ e. e.0) (publish_labels service topic outcome))
  unfolding bytes
  labels-Lack service topic outcome = (
    any-Lacks b'=' label_service refl,
    (any-Lacks b'=' label_topic refl, (any-Lacks b'=' label_outcome refl, tt)),
  )

  series_differ :
      (service topic outcome outcome' : Text)
      → IsDelimited quote
      → outcome ≢ outcome'
      → publish_series service topic outcome ≢ publish_series service topic outcome'
  series_differ service topic outcome outcome' delimited differ e =
      let (_, same) =
        series_inj quote metric_broker_publish_total metric_broker_publish_total
          (publish_labels service topic outcome) (publish_labels service topic outcome') delimited
          name-Lacks name-Lacks (labels-Lack service topic outcome)
          (labels-Lack service topic outcome') e in
      let both : some outcome ≡ some outcome' =
        sym (outcome_at service topic outcome)
        ∙ (same label_outcome ∙ outcome_at service topic outcome') in
      differ (ground arith)

  module _ (laws : CounterLaws ops) (delimited : IsDelimited quote) (m : M) where
    -- One count more of the outcome, and none of the other.
    abbrev pub Counted : (service topic outcome other : Text) → M → Type 0
    Counted service topic outcome other m' =
        (laws.count m' (publish_series service topic outcome)
          ≡ suc (laws.count m (publish_series service topic outcome)))
        × (laws.count m' (publish_series service topic other)
            ≡ laws.count m (publish_series service topic other))

    inc_publish-Counted :
        (service topic outcome other : Text)
        → outcome ≢ other
        → Counted service topic outcome other (
            inc_counter quote ops m metric_broker_publish_total
              (publish_labels service topic outcome))
    unfolding inc_counter
    inc_publish-Counted service topic outcome other differ =
        let this = publish_series service topic outcome in
        let that = publish_series service topic other in
        (
          ground (arith, laws.count_inc m this this, text_beq_refl this),
          ground (
            arith,
            laws.count_inc m this that,
            text_beq_iff this that,
            series_differ service topic outcome other delimited differ,
          ),
        )

    outcomes_differ : outcome_success ≢ outcome_error
    unfolding bytes
    outcomes_differ e = ground arith

    not_ok : {r : Reply (Unit {0})} (e : Text) → r ≡ failed e → r ≢ ok tt
    not_ok e bad good = ground arith

    module _ {Value : Type 0} (to_json : Envelope Value → Reply Text) (p : Publisher)
        (transport : Text → Text → Text → Reply (Unit {0})) (topic : Text)
        (ev : Envelope Value) where
      abbrev pub published : Option PublishError × List Call
      published = publish_stamped to_json (some p) topic (some ev)

      -- A success that is counted, a transport's error that is counted, or a refusal that is not.
      abbrev pub CountsOnce : Type 0
      CountsOnce =
          ((published.0 ≡ none)
            × Counted p.service topic outcome_success outcome_error (recorded m published.1))
          ⊎ ((published.0 ≢ none)
              × ((payload : Text) × (to_json ev ≡ ok payload)
                  × (transport topic ev.event_id payload ≢ ok tt))
              × Counted p.service topic outcome_error outcome_success (recorded m published.1))
          ⊎ ((published.0 ≢ none)
              × ((validate ev ≢ none) ⊎ ((e : Text) × (to_json ev ≡ failed e)))
              × (recorded m published.1 ≡ m))

      -- What a publish with a transport leaves in the registry of a metrics library that keeps its
      -- laws, with a quoting that is delimited: nil counts one success, and an error that the
      -- transport gave counts one error, each under the publisher's service and the topic, and the
      -- other outcome's count stays; an envelope that is not valid, or cannot be encoded, is refused
      -- and counts nothing.
      pub publish_stamped-CountsOnce : p.transport ≡ some transport → CountsOnce
      unfolding recorded outcome_of
      publish_stamped-CountsOnce has =
          elim (publish_stamped-Sent to_json p transport topic ev has) [
            | inr (why, bad, no_calls) ↦ inr (inr (bad, why, rw no_calls refl))
            | inl (payload, v, good, called, taken) ↦
                elim (Reply-cases (transport topic ev.event_id payload)) [
                  | inr (_, fine) ↦ inl (
                    taken.1 fine,
                    rw called (
                        rw fine (
                          inc_publish-Counted p.service topic outcome_success outcome_error
                            outcomes_differ)),
                  )
                  | inl (e, wrong) ↦ inr (
                      inl (
                        λ h. not_ok e wrong (taken.0 h),
                        (payload, good, not_ok e wrong),
                        rw called (
                            rw wrong (
                              inc_publish-Counted p.service topic outcome_error outcome_success
                                (λ h. outcomes_differ (sym h)))),
                      ))
                ]
          ]
