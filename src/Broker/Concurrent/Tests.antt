-- ===== src/Broker/Concurrent/Tests.antt =====
-- Interleaved dispatches over the memory store, at concrete inputs.
use go_platform_kit.Common.{refl, [], ◌∷◌, text_eq, bytes, ℤ}
use go_platform_kit.Broker.Store.Laws.{new_store-IsValid}
use go_platform_kit.Broker.Memory.{memory_ops, memory_laws}
use go_platform_kit.Broker.Samples.{
  decode, note_event, Noted, note_event-HandlerLaws, store, nothing_seen,
}
use go_platform_kit.Broker.Concurrent.{start, turn, System, Reach, here, next, deliver, move, die}
use go_platform_kit.Broker.Concurrent.Safety.{IsConsistent, Reach-IsConsistent}

abbrev idle : System decode memory_ops note_event
idle = record { store = store; world = []; deliveries = [] }

-- Two replicas have the same message, and the second has taken one turn.
abbrev one_ahead : System decode memory_ops note_event
one_ahead = record {
  store = (turn decode memory_ops note_event store [] (bytes "a") start).0;
  world = (turn decode memory_ops note_event store [] (bytes "a") start).1;
  deliveries =
      (bytes "a", start)
      ∷ (bytes "a", (turn decode memory_ops note_event store [] (bytes "a") start).2)
      ∷ [];
}

-- The first dies.
abbrev one_left : System decode memory_ops note_event
one_left = record one_ahead {
  deliveries = (bytes "a", (turn decode memory_ops note_event store [] (bytes "a") start).2) ∷ [];
}

one_left-Reach : Reach decode memory_ops note_event idle one_left
one_left-Reach =
    next
      (next (next (next here (deliver (bytes "a") refl)) (deliver (bytes "a") refl))
        (move ((bytes "a", start) ∷ []) [] (bytes "a") start refl refl))
      (die [] _ (bytes "a") start refl refl)

Reach-IsConsistent_example :
    IsConsistent decode memory_ops note_event Noted memory_laws note_event-HandlerLaws one_left
Reach-IsConsistent_example =
    Reach-IsConsistent decode memory_ops note_event Noted memory_laws note_event-HandlerLaws idle
      one_left (new_store-IsValid (ℤ.pos 2)) nothing_seen refl one_left-Reach
