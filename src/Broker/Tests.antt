-- ===== src/Broker/Tests.antt =====
-- Instances of the theorems on the package broker at concrete inputs.
use go_platform_kit.Common.{
  ◌≡◌, ◌↔◌, ◌⊎◌, refl, true, false, none, some, List, [], ◌∷◌, Text, text_eq, bytes, Unicode,
  is_empty, ℤ, length, ◌<◌, arith, lookup, if◌then◌else◌,
}
use go_platform_kit.Broker.Store.{
  evict, MemoryIdempotencyStore, new_memory_idempotency_store_with_capacity, is_seen,
  mark_processed,
}
use go_platform_kit.Broker.Store.Window.{notes, window}
use go_platform_kit.Broker.Store.Laws.{new_store-IsValid}
use go_platform_kit.Broker.Store.History.{Tracks, run_marks, run_marks-Tracks, run_marks-remembers}
use go_platform_kit.Broker.Envelope.{Envelope, validate}
use go_platform_kit.Broker.Tokens.Laws.{is_token_key}
use go_platform_kit.Broker.Publish.{Ids, Publisher, Reply, ok, failed, publish_stamped}
use go_platform_kit.Broker.Publish.Laws.{
  published, SendsOnly, lookup-publish, Sent, Refused, publish_stamped-Sent,
}
use go_platform_kit.Broker.Dispatch.{Handler, dispatch, dedupe, handle_event}
use go_platform_kit.Broker.Dispatch.Laws.{
  KeepsId, result, Settled, dispatch-Settled, dispatch_again,
}
use go_platform_kit.Broker.Memory.{memory_mark, memory_ops, memory_laws}

abbrev ascii : Unicode
ascii = record { lower_wide = λ s. s; trim_wide = λ s. s }

abbrev two_places : MemoryIdempotencyStore
two_places = new_memory_idempotency_store_with_capacity (ℤ.pos 2)

two_places-Tracks : Tracks 2 two_places []
unfolding new_memory_idempotency_store_with_capacity window
two_places-Tracks = record { valid = new_store-IsValid (ℤ.pos 2); capacity = refl; order = refl }

abbrev three_ids : List Text
three_ids = bytes "a" ∷ bytes "b" ∷ bytes "c" ∷ []

run_marks-Tracks_example :
    (s' : MemoryIdempotencyStore) × (run_marks two_places three_ids ≡ some s')
    × Tracks 2 s' (notes 2 [] three_ids)
run_marks-Tracks_example = run_marks-Tracks three_ids 2 two_places [] two_places-Tracks

two_places_empty : is_seen two_places (bytes "a") ≡ false
unfolding new_memory_idempotency_store_with_capacity is_seen lookup
two_places_empty = refl

two_places_room : length (bytes "b" ∷ []) < two_places.capacity
unfolding new_memory_idempotency_store_with_capacity
two_places_room = omega arith

run_marks-remembers_example :
    (s' : MemoryIdempotencyStore) × (run_marks two_places (bytes "a" ∷ bytes "b" ∷ []) ≡ some s')
    × (is_seen s' (bytes "a") ≡ true)
run_marks-remembers_example =
    run_marks-remembers two_places (bytes "a") (bytes "b" ∷ []) (new_store-IsValid (ℤ.pos 2))
      two_places_empty two_places_room

-- An event with the id that the payload is.
abbrev event : Text → Envelope Text
event id = record {
  event_id = id;
  occurred_at = some 7;
  correlation_id = [];
  trace_id = [];
  categories = bytes "signing" ∷ [];
  event_type = bytes "document.signed";
  actor = none;
  data_subjects = [];
  resource = none;
  operation = [];
  lawful_basis = [];
  purpose = [];
  outcome = bytes "success";
  ip = [];
  device = [];
  prev_hash = [];
  hash = [];
  attributes = [];
}

abbrev decode : Text → Reply (Envelope Text)
decode [] = failed (bytes "unexpected end of JSON input")
decode (c ∷ s) = ok (event (c ∷ s))

-- A handler that notes the ids that it handled.
abbrev note_event : Handler (List Text) Text
note_event w ev = (ev.event_id ∷ w, ok tt, ev)

dispatch-Settled_example :
    ((result decode memory_ops note_event two_places [] (bytes "a")).error ≡ none) ↔ (
      (ev : Envelope Text) × (decode (bytes "a") ≡ ok ev)
      × Settled decode memory_ops note_event two_places [] ev
          (result decode memory_ops note_event two_places [] (bytes "a")).store
          (result decode memory_ops note_event two_places [] (bytes "a")).world)
dispatch-Settled_example = dispatch-Settled decode memory_ops note_event two_places [] (bytes "a")

first_delivery : (result decode memory_ops note_event two_places [] (bytes "a")).error ≡ none
unfolding dispatch dedupe handle_event validate memory_mark mark_processed evict
    new_memory_idempotency_store_with_capacity is_seen lookup bytes
first_delivery = refl

note_event-KeepsId : KeepsId decode memory_ops note_event
note_event-KeepsId w ev = refl

dispatch_again_example :
    ((result decode memory_ops note_event
        (result decode memory_ops note_event two_places [] (bytes "a")).store
        []
        (bytes "a")).error
      ≡ none)
    × ((result decode memory_ops note_event
          (result decode memory_ops note_event two_places [] (bytes "a")).store
          []
          (bytes "a")).store
        ≡ (result decode memory_ops note_event two_places [] (bytes "a")).store)
    × ((result decode memory_ops note_event
          (result decode memory_ops note_event two_places [] (bytes "a")).store
          []
          (bytes "a")).world
        ≡ [])
dispatch_again_example =
    dispatch_again decode memory_ops note_event memory_laws note_event-KeepsId two_places [] []
      (bytes "a") (new_store-IsValid (ℤ.pos 2)) first_delivery

-- One key looks like a credential, the other does not.
abbrev labels : List (Text × Text)
labels = (bytes "X-Token", bytes "secret value") ∷ (bytes "color", bytes "red") ∷ []

abbrev request_ids : Ids
request_ids = record { correlation_id = bytes "c-1"; trace_id = bytes "t-1"; span_id = [] }

fresh_id : is_empty (bytes "id-1") ≡ false
unfolding bytes
fresh_id = refl

correlated : is_empty request_ids.correlation_id ≡ false
unfolding bytes
correlated = refl

traced : is_empty request_ids.trace_id ≡ false
unfolding bytes
traced = refl

abbrev encode : Envelope Text → Reply Text
encode ev = ok ev.event_id

abbrev accept : Text → Text → Text → Reply (Unit {0})
accept topic key payload = ok tt

abbrev publisher : Publisher
publisher = record { transport = some accept; service = bytes "document-svc" }

publish_stamped-Sent_example :
    Sent encode publisher accept
      (bytes "audit")
      (event (bytes "a"))
      (publish_stamped encode (some publisher) (bytes "audit") (some (event (bytes "a"))))
    ⊎ Refused encode publisher accept
        (bytes "audit")
        (event (bytes "a"))
        (publish_stamped encode (some publisher) (bytes "audit") (some (event (bytes "a"))))
publish_stamped-Sent_example =
    publish_stamped-Sent encode publisher accept (bytes "audit") (event (bytes "a")) refl

-- An event with the labels for its attributes.
abbrev labelled : Envelope Text
labelled = record (event (bytes "a")) { attributes = labels }

lookup-publish_example :
    (left : Envelope Text) × ((published ascii encode
        (bytes "id-1")
        7
        request_ids
        publisher
        accept
        (bytes "audit")
        labelled).0
      ≡ some left)
    × (lookup (bytes "X-Token") left.attributes
        ≡ (if is_token_key ascii (bytes "X-Token") then none else lookup (bytes "X-Token") labels))
    × SendsOnly ascii encode
        (bytes "id-1")
        7
        request_ids
        publisher
        accept
        (bytes "audit")
        labelled
        left
        (published ascii encode
          (bytes "id-1")
          7
          request_ids
          publisher
          accept
          (bytes "audit")
          labelled).1.1
lookup-publish_example =
    lookup-publish ascii encode (bytes "id-1") 7 request_ids publisher accept (bytes "audit")
      labelled (bytes "X-Token") refl
