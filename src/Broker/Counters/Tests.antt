-- ===== src/Broker/Counters/Tests.antt =====
-- One publish, counted in a registry that lists what was incremented.
use go_platform_kit.Common.{
  ◌≡◌, ℕ, zero, suc, ◌+◌, Option, some, List, [], ◌∷◌, Text, text_eq, ◌==◌, bytes, if◌then◌else◌,
  refl,
}
use go_platform_kit.Broker.Envelope.{Envelope}
use go_platform_kit.Broker.Publish.{Reply, ok, Publisher}
use go_platform_kit.Broker.Samples.{event, decode, note_event, store}
use go_platform_kit.Broker.Memory.{memory_ops}
use go_platform_kit.Broker.Dispatch.{DispatchError}
use go_platform_kit.Broker.Counters.Consume.{
  fine, wrong, acks, naks, dispatch_all, dispatch_all-counts,
}
use go_platform_kit.Observability.Metrics.{RegistryOps}
use go_platform_kit.Observability.Tests.{escape, escape-IsDelimited}
use go_platform_kit.Broker.Counters.Laws.{CounterLaws}
use go_platform_kit.Broker.Counters.{CountsOnce, publish_stamped-CountsOnce}

abbrev registry : RegistryOps (List Text) (Unit {0})
registry = record { inc = λ m name. name ∷ m; update = λ m name seconds. m }

abbrev count : List Text → Text → ℕ
count [] asked = zero
count (name ∷ m) asked = let rest = count m asked in if name == asked then suc rest else rest

registry-CounterLaws : CounterLaws registry
registry-CounterLaws = record { count = count; count_inc = λ m name asked. refl }

abbrev encode : Envelope Text → Reply Text
encode ev = ok ev.event_id

abbrev accept : Text → Text → Text → Reply (Unit {0})
accept topic key payload = ok tt

abbrev publisher : Publisher
publisher = record { transport = some accept; service = bytes "bff" }

publish_stamped-CountsOnce_example :
    CountsOnce escape registry registry-CounterLaws escape-IsDelimited [] encode publisher accept
      (bytes "audit")
      (event (bytes "a"))
publish_stamped-CountsOnce_example =
    publish_stamped-CountsOnce escape registry registry-CounterLaws escape-IsDelimited [] encode
      publisher accept (bytes "audit") (event (bytes "a")) refl

-- Two payloads that do not decode, an event, and its redelivery.
abbrev payloads : List Text
payloads = [] ∷ bytes "a" ∷ bytes "a" ∷ [] ∷ []

abbrev after : List Text × List (Option DispatchError)
after =
    dispatch_all escape registry registry-CounterLaws escape-IsDelimited decode memory_ops
      note_event store [] [] payloads

dispatch_all-counts_example :
    (fine escape registry registry-CounterLaws escape-IsDelimited after.0
      ≡ fine escape registry registry-CounterLaws escape-IsDelimited [] + acks after.1)
    × (wrong escape registry registry-CounterLaws escape-IsDelimited after.0
        ≡ wrong escape registry registry-CounterLaws escape-IsDelimited [] + naks after.1)
dispatch_all-counts_example =
    dispatch_all-counts escape registry registry-CounterLaws escape-IsDelimited decode memory_ops
      note_event payloads store [] []
