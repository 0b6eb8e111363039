-- ===== src/Broker/Samples.antt =====
-- A stream's events, a decoder, a handler that notes ids and an empty store, for tests.
use go_platform_kit.Common.{
  ◌≡◌, ◌≢◌, refl, true, none, some, List, [], ◌∷◌, Text, text_eq, text_beq_refl, ◌==◌, bytes, any,
  ℤ, arith, lookup,
}
use go_platform_kit.Broker.Store.{
  MemoryIdempotencyStore, new_memory_idempotency_store_with_capacity, is_seen,
}
use go_platform_kit.Broker.Envelope.{Envelope}
use go_platform_kit.Broker.Publish.{Reply, ok, failed}
use go_platform_kit.Broker.Dispatch.{Handler}
use go_platform_kit.Broker.Dispatch.Laws.{HandlerLaws}
use go_platform_kit.Broker.Memory.{memory_ops}

abbrev pub event : Text → Envelope Text
event id = record {
  event_id = id;
  occurred_at = some 7;
  correlation_id = [];
  trace_id = [];
  categories = bytes "signing" ∷ [];
  event_type = bytes "document.signed";
  actor = none;
  data_subjects = [];
  resource = none;
  operation = [];
  lawful_basis = [];
  purpose = [];
  outcome = bytes "success";
  ip = [];
  device = [];
  prev_hash = [];
  hash = [];
  attributes = [];
}

abbrev pub decode : Text → Reply (Envelope Text)
decode [] = failed (bytes "unexpected end of JSON input")
decode (c ∷ s) = ok (event (c ∷ s))

abbrev pub note_event : Handler (List Text) Text
note_event w ev = (ev.event_id ∷ w, ok tt, ev)

abbrev pub Noted : List Text → Text → Type 0
Noted w k = any (λ j. j == k) w ≡ true

pub note_event-HandlerLaws : HandlerLaws decode memory_ops note_event Noted
note_event-HandlerLaws = record {
  does = λ w ev _. ground (arith, text_beq_refl ev.event_id);
  keeps = λ w ev k h. ground arith;
  same_id = λ w ev. refl;
}

abbrev pub store : MemoryIdempotencyStore
store = new_memory_idempotency_store_with_capacity (ℤ.pos 2)

pub nothing_seen : (k : Text) → memory_ops.seen store k ≢ ok true
unfolding new_memory_idempotency_store_with_capacity is_seen lookup
nothing_seen k h = cc
