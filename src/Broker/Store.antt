-- ===== src/Broker/Store.antt =====
-- broker/consume.go: `MemoryIdempotencyStore`, a bounded set of processed event ids with FIFO
-- eviction. A run-time panic (`order[0]` of an empty slice) is `none`.
pub mod Window
pub mod Laws
pub mod History
use go_platform_kit.Common.{
  ℕ, ◌≡◌, Bool, true, false, Option, none, some, List, [], ◌∷◌, ◌++◌, Text, text_eq, lookup, insert,
  delete, length, leb, is_some, if◌then◌else◌, ℤ, le_zero, to_ℕ,
}

abbrev pub default_idempotency_capacity : ℕ
default_idempotency_capacity = 65536

pub record MemoryIdempotencyStore : Type 0 where
  pub seen : List (Text × Unit {0})
  pub order : List Text
  pub capacity : ℕ

unfoldable pub new_memory_idempotency_store_with_capacity : ℤ → MemoryIdempotencyStore
new_memory_idempotency_store_with_capacity capacity = record {
  seen = [];
  order = [];
  capacity = if le_zero capacity then default_idempotency_capacity else to_ℕ capacity;
}

unfoldable pub new_memory_idempotency_store : MemoryIdempotencyStore
unfolding new_memory_idempotency_store_with_capacity
new_memory_idempotency_store =
    new_memory_idempotency_store_with_capacity (ℤ.pos default_idempotency_capacity)

-- `Seen`
unfoldable pub is_seen : MemoryIdempotencyStore → Text → Bool
is_seen s event_id = is_some (lookup event_id s.seen)

-- The loop of `MarkProcessed` that makes room.
unfoldable pub evict :
    ℕ → List (Text × Unit {0}) → List Text → Option (List (Text × Unit {0}) × List Text)
evict capacity seen [] = if leb capacity 0 then none else some (seen, [])
evict capacity seen (oldest ∷ order) =
    let rest = evict capacity (delete oldest seen) order in
    if leb capacity (length (oldest ∷ order)) then rest else some (seen, oldest ∷ order)

abbrev record_id :
    MemoryIdempotencyStore → Text → List (Text × Unit {0}) × List Text → MemoryIdempotencyStore
record_id s event_id (seen, order) = record s {
  seen = insert event_id tt seen;
  order = order ++ event_id ∷ [];
}

unfoldable pub mark_processed : MemoryIdempotencyStore → Text → Option MemoryIdempotencyStore
mark_processed s event_id =
    if is_some (lookup event_id s.seen) then some s else elim (evict s.capacity s.seen s.order) [
      | none ↦ none
      | some room ↦ some (record_id s event_id room)
    ]
