-- ===== src/Broker/Store/Laws.antt =====
-- The store refines the window of its history.
use go_platform_kit.Common.{
  ℕ, zero, suc, ◌-◌, ◌≤◌, ◌<◌, ◌≡◌, refl, sym, ◌∙◌, true, false, some, List, [], ◌∷◌, ◌++◌, arith,
  inl, inr, Text, text_eq, nat_eq, text_beq_iff, ◌==◌, length, if◌then◌else◌, length-append,
  Bool-cases, lookup, insert, delete, lookup-insert, lookup-delete, ℤ,
}
use go_platform_kit.Broker.Store.{
  MemoryIdempotencyStore, new_memory_idempotency_store_with_capacity, is_seen, evict,
  mark_processed,
}
use go_platform_kit.Broker.Store.Window.{
  elem, elem-cons, window, Distinct, elem-concat, Distinct-concat,
}

-- The map holds exactly the ids of the slice, each of which stands there once, and they fit.
pub record IsValid (s : MemoryIdempotencyStore) : Type 0 where
  pub positive : 0 < s.capacity
  pub bounded : length s.order ≤ s.capacity
  pub distinct : Distinct s.order
  pub agree : (k : Text) → is_seen s k ≡ elem k s.order

-- With room left the loop makes no round.
evict_room :
    (cap : ℕ) (seen : List (Text × Unit {0})) (order : List Text)
    → length order < cap
    → evict cap seen order ≡ some (seen, order)
unfolding evict
evict_room cap seen [] h = ground arith
evict_room cap seen (o ∷ os) h = ground arith

-- When it is full the loop makes one round.
evict_full :
    (cap : ℕ) (seen : List (Text × Unit {0})) (o : Text) (os : List Text)
    → length (o ∷ os) ≡ cap
    → evict cap seen (o ∷ os) ≡ some (delete o seen, os)
unfolding evict
evict_full cap seen o os h = ground (arith, evict_room cap (delete o seen) os)

-- What a mark does to the ids in order: nothing to an id that is there, else it is appended and
-- the oldest goes if there are too many.
abbrev pub marked : ℕ → List Text → Text → List Text
marked cap order k = if elem k order then order else window cap (order ++ k ∷ [])

pub record Marked (s s' : MemoryIdempotencyStore) (k : Text) : Type 0 where
  pub valid : IsValid s'
  pub capacity : s'.capacity ≡ s.capacity
  pub order : s'.order ≡ marked s.capacity s.order k

abbrev store_of : List (Text × Unit {0}) → List Text → ℕ → MemoryIdempotencyStore
store_of seen order cap = record { seen = seen; order = order; capacity = cap }

abbrev MarkGoal : MemoryIdempotencyStore → Text → Type 0
MarkGoal s k = (s' : MemoryIdempotencyStore) × (mark_processed s k ≡ some s') × Marked s s' k

module _ (seen : List (Text × Unit {0})) (cap : ℕ) (k : Text) where
  mark_old :
      (order : List Text)
      → IsValid (store_of seen order cap)
      → is_seen (store_of seen order cap) k ≡ true
      → MarkGoal (store_of seen order cap) k
  unfolding mark_processed is_seen
  mark_old order v h =
      let there : elem k order ≡ true = sym (v.agree k) ∙ h in
      (store_of seen order cap, rw h, record { valid = v; capacity = refl; order = rw there })

  mark_room :
      (order : List Text)
      → IsValid (store_of seen order cap)
      → elem k order ≡ false
      → length order < cap
      → MarkGoal (store_of seen order cap) k
  unfolding mark_processed is_seen window
  mark_room order v h room = (
    store_of (insert k tt seen) (order ++ k ∷ []) cap,
    ground (arith, evict_room cap seen order room, v.agree k),
    record {
      valid = record {
        positive = v.positive;
        bounded = omega (arith, length-append order (k ∷ []));
        distinct = Distinct-concat order k v.distinct h;
        agree = λ j. ground (arith, v.agree j, lookup-insert k j tt seen, elem-concat j k order);
      };
      capacity = refl;
      order =
          let e : length (order ++ k ∷ []) - cap ≡ 0 =
            omega (arith, length-append order (k ∷ [])) in
          rw (h, e);
    },
  )

  mark_full :
      (o : Text) (os : List Text)
      → IsValid (store_of seen (o ∷ os) cap)
      → elem k (o ∷ os) ≡ false
      → length (o ∷ os) ≡ cap
      → MarkGoal (store_of seen (o ∷ os) cap) k
  unfolding mark_processed is_seen window
  mark_full o os v h full = (
    store_of (insert k tt (delete o seen)) (os ++ k ∷ []) cap,
    ground (arith, evict_full cap seen o os full, v.agree k),
    record {
      valid = record {
        positive = v.positive;
        bounded = omega (arith, length-append os (k ∷ []));
        distinct = Distinct-concat os k v.distinct.1 (ground (arith, elem-cons k o os));
        agree = λ j. ground (
          arith,
          v.agree j,
          lookup-insert k j tt (delete o seen),
          lookup-delete o j seen,
          elem-concat j k os,
          elem-cons j o os,
          text_beq_iff o j,
        );
      };
      capacity = refl;
      order =
          let e : length (o ∷ os ++ k ∷ []) - cap ≡ 1 = omega (arith, length-append os (k ∷ [])) in
          rw (h, e);
    },
  )

  mark_fresh :
      (order : List Text)
      → IsValid (store_of seen order cap)
      → elem k order ≡ false
      → MarkGoal (store_of seen order cap) k
  mark_fresh [] v h = mark_room [] v h v.positive
  mark_fresh (o ∷ os) v h = elim (Bool-cases (length (o ∷ os) == cap)) [
    | inl full ↦ mark_full o os v h (ground arith)
    | inr room ↦ mark_room (o ∷ os) v h (let b = v.bounded in ground arith)
  ]

  mark_either :
      (order : List Text) → IsValid (store_of seen order cap) → MarkGoal (store_of seen order cap) k
  mark_either order v = elim (Bool-cases (elem k order)) [
    | inl old ↦ mark_old order v (v.agree k ∙ old)
    | inr fresh ↦ mark_fresh order v fresh
  ]

-- On a valid store `MarkProcessed` never panics; it keeps the store valid, and its ids in order are
-- those of the bounded FIFO set.
pub mark_processed-Marked :
    (s : MemoryIdempotencyStore) (k : Text)
    → IsValid s
    → (s' : MemoryIdempotencyStore) × (mark_processed s k ≡ some s') × Marked s s' k
mark_processed-Marked s k v = mark_either s.seen s.capacity k s.order v

-- Both constructors build a valid, empty store.
pub new_store-IsValid :
    (capacity : ℤ) → IsValid (new_memory_idempotency_store_with_capacity capacity)
unfolding new_memory_idempotency_store_with_capacity is_seen lookup elem
new_store-IsValid (ℤ.pos zero) = record {
  positive = omega arith;
  bounded = omega arith;
  distinct = tt;
  agree = λ k. refl;
}
new_store-IsValid (ℤ.pos (suc n)) = record {
  positive = omega arith;
  bounded = omega arith;
  distinct = tt;
  agree = λ k. refl;
}
new_store-IsValid (ℤ.negsuc n) = record {
  positive = omega arith;
  bounded = omega arith;
  distinct = tt;
  agree = λ k. refl;
}
