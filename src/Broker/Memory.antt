-- ===== src/Broker/Memory.antt =====
-- The memory store as an implementation of the interface that `Dispatch` takes.
use go_platform_kit.Common.{
  ◌≡◌, ◌⊎◌, inl, inr, refl, ap, sym, ◌∙◌, Bool, true, false, none, some, List, [], ◌∷◌, ◌++◌, Text,
  bytes, arith, Bool-cases, text_eq, text_beq_iff, length, drop, zero, suc, ℕ, ◌-◌, ◌<◌,
}
use go_platform_kit.Broker.Publish.{Reply, ok, failed}
use go_platform_kit.Broker.Store.{MemoryIdempotencyStore, is_seen, mark_processed}
use go_platform_kit.Broker.Store.Window.{elem, elem-cons, elem-concat, elem-window, window}
use go_platform_kit.Broker.Store.Laws.{IsValid, Marked, marked, mark_processed-Marked}
use go_platform_kit.Broker.Dispatch.{IdempotencyStore}
use go_platform_kit.Broker.Dispatch.Laws.{StoreLaws}

-- A panic would not return; it is given an error's text, and does not occur on a valid store.
unfoldable pub memory_mark :
    MemoryIdempotencyStore → Text → MemoryIdempotencyStore × Reply (Unit {0})
memory_mark s k = elim (mark_processed s k) [
  | none ↦ (s, failed (bytes "panic"))
  | some s' ↦ (s', ok tt)
]

abbrev pub memory_ops : IdempotencyStore MemoryIdempotencyStore
memory_ops = record { seen = λ s k. ok (is_seen s k); mark = memory_mark }

memory_mark_lem :
    (s : MemoryIdempotencyStore) (k : Text)
    → IsValid s
    → (s' : MemoryIdempotencyStore) × (memory_mark s k ≡ (s', ok tt)) × Marked s s' k
unfolding memory_mark
memory_mark_lem s k v = let (s', e, m) = mark_processed-Marked s k v in (s', rw (e, memory_mark), m)

elem-drop : (n : ℕ) (k : Text) (xs : List Text) → elem k (drop n xs) ≡ true → elem k xs ≡ true
elem-drop zero k xs h = h
elem-drop (suc n) k [] h = h
elem-drop (suc n) k (x ∷ xs) h = ground (arith, elem-cons k x xs, elem-drop n k xs)

marked_new :
    (cap : ℕ) (order : List Text) (k : Text)
    → elem k order ≡ false
    → marked cap order k ≡ window cap (order ++ k ∷ [])
marked_new cap order k new = rw new

elem-window-only :
    (cap : ℕ) (xs : List Text) (j : Text) → elem j (window cap xs) ≡ true → elem j xs ≡ true
unfolding window
elem-window-only cap xs j h = elem-drop (length xs - cap) j xs h

elem-marked :
    (cap : ℕ) (order : List Text) (k j : Text)
    → elem j (marked cap order k) ≡ true
    → (k ≡ j) ⊎ (elem j order ≡ true)
elem-marked cap order k j h = elim (Bool-cases (elem k order)) [
  | inl old ↦ inr (rw old at h)
  | inr new ↦
      let there : elem j (order ++ k ∷ []) ≡ true =
        elem-window-only cap (order ++ k ∷ []) j
          (ap (elem j) (sym (marked_new cap order k new)) ∙ h) in
      ground (arith, elem-concat j k order, text_beq_iff k j)
]

elem-marked_self :
    (cap : ℕ) (order : List Text) (k : Text) → 0 < cap → elem k (marked cap order k) ≡ true
elem-marked_self cap order k positive = elim (Bool-cases (elem k order)) [
  | inl old ↦ rw old old
  | inr new ↦ rw (marked_new cap order k new) (elem-window cap order [] k positive)
]

abbrev MarkLaws : MemoryIdempotencyStore → Text → Type 0
MarkLaws s k =
    IsValid (memory_mark s k).0
    × ((memory_mark s k).1 ≡ ok tt)
    × (is_seen (memory_mark s k).0 k ≡ true)
    × ((j : Text) → is_seen (memory_mark s k).0 j ≡ true → (k ≡ j) ⊎ (is_seen s j ≡ true))

-- On a valid store a mark succeeds and keeps the store valid; the id is then seen, and no other id
-- that was not seen before.
pub memory_mark-laws : (s : MemoryIdempotencyStore) (k : Text) → IsValid s → MarkLaws s k
memory_mark-laws s k v =
    let (s', e, m) = memory_mark_lem s k v in
    let seen_in : (j : Text) → is_seen s' j ≡ elem j (marked s.capacity s.order k) =
      λ j. m.valid.agree j ∙ ap (elem j) m.order in
    rw e (
      m.valid,
      refl,
      seen_in k ∙ elem-marked_self s.capacity s.order k v.positive,
      λ j h. was_seen s k j v (elem-marked s.capacity s.order k j (sym (seen_in j) ∙ h)),
    )
  where
    was_seen :
        (s : MemoryIdempotencyStore) (k j : Text)
        → IsValid s
        → (k ≡ j) ⊎ (elem j s.order ≡ true)
        → (k ≡ j) ⊎ (is_seen s j ≡ true)
    was_seen s k j v (inl e) = inl e
    was_seen s k j v (inr h) = inr (v.agree j ∙ h)

ok_inj : (a b : Bool) → ok a ≡ ok b → a ≡ b
ok_inj a b h = cc

pub seen_only :
    (s : MemoryIdempotencyStore) (k j : Text)
    → IsValid s
    → memory_ops.seen (memory_ops.mark s k).0 j ≡ ok true
    → (k ≡ j) ⊎ (memory_ops.seen s j ≡ ok true)
seen_only s k j v h = elim ((memory_mark-laws s k v).3 j (ok_inj _ _ h)) [
  | inl e ↦ inl e
  | inr seen ↦ inr (ap ok seen)
]

-- The memory store meets what `Dispatch` relies on.
abbrev pub memory_laws : StoreLaws memory_ops
memory_laws = record {
  Valid = IsValid;
  mark_valid = λ s k v. (memory_mark-laws s k v).0;
  mark_seen = λ s k v _. ap ok (memory_mark-laws s k v).2;
  mark_only = λ s k j v h. seen_only s k j v h;
}
