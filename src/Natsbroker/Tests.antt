-- ===== src/Natsbroker/Tests.antt =====
-- The delivery of messages over the memory store, at concrete inputs.
mod Connection
use go_platform_kit.Common.{
  ◌≡◌, ℕ, zero, suc, refl, true, List, [], ◌∷◌, Text, text_eq, bytes, ℤ, lookup, All,
}
use go_platform_kit.Broker.Store.{
  evict, MemoryIdempotencyStore, new_memory_idempotency_store_with_capacity, is_seen,
  mark_processed,
}
use go_platform_kit.Broker.Store.Laws.{new_store-IsValid}
use go_platform_kit.Broker.Envelope.{Envelope, validate}
use go_platform_kit.Broker.Publish.{Reply, ok, failed}
use go_platform_kit.Broker.Dispatch.{Handler, dispatch, dedupe, handle_event}
use go_platform_kit.Broker.Memory.{memory_mark, memory_ops, memory_laws}
use go_platform_kit.Broker.Samples.{
  decode, note_event, Noted, note_event-HandlerLaws, store, nothing_seen,
}
use go_platform_kit.Natsbroker.{Message, on_message, settle}
use go_platform_kit.Natsbroker.Runs.{Run, called, acked, Reach, here, next, arrive, confirm, lose}
use go_platform_kit.Natsbroker.Runs.Accounted.{IsAccounted}
use go_platform_kit.Natsbroker.Delivery.{Handled, Reach-Handled}
use go_platform_kit.Natsbroker.Rounds.{Left}

abbrev good : Message
good = record { subject = bytes "audit"; payload = bytes "a" }

abbrev bad : Message
bad = record { subject = bytes "audit"; payload = [] }

abbrev start : Run MemoryIdempotencyStore (List Text)
start = record { store = store; world = []; arrived = []; pending = []; confirmed = []; lost = [] }

-- Two messages are there.
abbrev both : Run MemoryIdempotencyStore (List Text)
both = record start { arrived = bad ∷ good ∷ []; pending = bad ∷ good ∷ [] }

-- One is confirmed and the other is lost.
abbrev after_good : Run MemoryIdempotencyStore (List Text)
after_good = record {
  store = (called decode memory_ops note_event both good (ok tt)).0.store;
  world = (called decode memory_ops note_event both good (ok tt)).0.world;
  arrived = bad ∷ good ∷ [];
  pending = [];
  confirmed = good ∷ [];
  lost = bad ∷ [];
}

good-acked : acked (called decode memory_ops note_event both good (ok tt)).1 ≡ true
unfolding on_message settle dispatch dedupe handle_event validate memory_mark mark_processed evict
    new_memory_idempotency_store_with_capacity is_seen lookup bytes
good-acked = refl

one_lost : Reach decode memory_ops note_event start after_good
one_lost =
    next
      (next (next (next here (arrive good refl)) (arrive bad refl))
        (confirm (bad ∷ []) [] good (ok tt) refl good-acked refl))
      (lose [] [] bad refl refl)

Reach-Handled_example :
    IsAccounted after_good
    × All
        (Handled decode memory_ops note_event Noted memory_laws note_event-HandlerLaws
          after_good.world)
        after_good.confirmed
Reach-Handled_example =
    Reach-Handled decode memory_ops note_event Noted memory_laws note_event-HandlerLaws start
      after_good (new_store-IsValid (ℤ.pos 2)) nothing_seen refl refl refl refl one_lost

-- A handler that fails as often as the world's counter says, and then notes each id.
abbrev flaky : Handler (List Text × ℕ) Text
flaky (w, zero) ev = ((ev.event_id ∷ w, zero), ok tt, ev)
flaky (w, suc n) ev = ((w, n), failed (bytes "down"), ev)

abbrev NotedIn : List Text × ℕ → Text → Type 0
NotedIn w k = Noted w.0 k

-- A network that loses as many acks as its counter says.
abbrev lossy : ℕ → Message → ℕ × Reply (Unit {0})
lossy zero m = (zero, ok tt)
lossy (suc n) m = (n, failed (bytes "lost"))

abbrev other : Message
other = record { subject = bytes "audit"; payload = bytes "b" }

-- Two messages, three failures of the handler and one lost ack, with a limit of five deliveries.
abbrev undelivered : Left decode memory_ops flaky lossy
undelivered = record { store = store; world = ([], 3); network = 1; pending = good ∷ other ∷ [] }
