-- ===== src/Broker/Store/History.antt =====
-- Runs of marks: the store is the window of its history, and remembers an id long enough.
use go_platform_kit.Common.{
  ℕ, ◌<◌, ◌≡◌, refl, ap, sym, ◌∙◌, true, false, Option, none, some, List, [], ◌∷◌, ◌++◌, arith,
  Text, text_eq, length, Bool-cases, append_assoc, inl, inr,
}
use go_platform_kit.Broker.Store.{MemoryIdempotencyStore, is_seen, mark_processed}
use go_platform_kit.Broker.Store.Window.{
  elem, window, note, notes, notes_grow, window-concat, window_of_length-le, elem-window,
}
use go_platform_kit.Broker.Store.Laws.{IsValid, marked, mark_processed-Marked}

-- One mark after the other, as a consumer makes them.
unfoldable pub run_marks : MemoryIdempotencyStore → List Text → Option MemoryIdempotencyStore
run_marks s [] = some s
run_marks s (k ∷ ks) = elim (mark_processed s k) [ none ↦ none | some s' ↦ run_marks s' ks ]

-- The store is valid, and its ids in order are the last ones of the history.
pub record Tracks (cap : ℕ) (s : MemoryIdempotencyStore) (h : List Text) : Type 0 where
  pub valid : IsValid s
  pub capacity : s.capacity ≡ cap
  pub order : s.order ≡ window cap h

marked-note :
    (cap : ℕ) (h : List Text) (k : Text) → marked cap (window cap h) k ≡ window cap (note cap h k)
unfolding note
marked-note cap h k = elim (Bool-cases (elem k (window cap h))) [
  | inl old ↦ rw old
  | inr new ↦ rw new (window-concat cap h k)
]

Tracks-mark :
    (cap : ℕ) (s : MemoryIdempotencyStore) (h : List Text) (k : Text)
    → Tracks cap s h
    → (s' : MemoryIdempotencyStore) × (mark_processed s k ≡ some s') × Tracks cap s' (note cap h k)
Tracks-mark cap s h k t =
    let (s', e, m) = mark_processed-Marked s k t.valid in
    (
      s',
      e,
      record {
        valid = m.valid;
        capacity = m.capacity ∙ t.capacity;
        order = m.order ∙ (rw (t.capacity, t.order) (marked-note cap h k));
      },
    )

-- From a store that is the window of a history, any run of marks succeeds, and leaves the store
-- that is the window of the history with the ids noted.
pub run_marks-Tracks :
    (ks : List Text) (cap : ℕ) (s : MemoryIdempotencyStore) (h : List Text)
    → Tracks cap s h
    → (s' : MemoryIdempotencyStore) × (run_marks s ks ≡ some s') × Tracks cap s' (notes cap h ks)
unfolding run_marks
run_marks-Tracks [] cap s h t = (s, refl, t)
run_marks-Tracks (k ∷ ks) cap s h t =
    let (s', e, t') = Tracks-mark cap s h k t in
    let (s'', e', t'') = run_marks-Tracks ks cap s' (note cap h k) t' in
    (s'', rw (e, run_marks) e', t'')

notes_hold :
    (cap : ℕ) (h ks : List Text) (k : Text)
    → length ks < cap
    → elem k (window cap (notes cap (h ++ k ∷ []) ks)) ≡ true
notes_hold cap h ks k few =
    let (added, e, le) = notes_grow cap (h ++ k ∷ []) ks in
    let e' : notes cap (h ++ k ∷ []) ks ≡ h ++ k ∷ added = e ∙ append_assoc h (k ∷ []) added in
    rw e' (elem-window cap h added k (omega arith))

-- An id that is newly marked on a valid store is still seen after any further marks, if these are
-- fewer than the capacity.
pub run_marks-remembers :
    (s : MemoryIdempotencyStore) (k : Text) (ks : List Text)
    → IsValid s
    → is_seen s k ≡ false
    → length ks < s.capacity
    → (s' : MemoryIdempotencyStore) × (run_marks s (k ∷ ks) ≡ some s') × (is_seen s' k ≡ true)
unfolding note
run_marks-remembers s k ks v new few =
    let start : s.order ≡ window s.capacity s.order =
      sym (window_of_length-le s.capacity s.order v.bounded) in
    let fresh : elem k (window s.capacity s.order) ≡ false =
      ap (elem k) (sym start) ∙ sym (v.agree k) ∙ new in
    let noted : note s.capacity s.order k ≡ s.order ++ k ∷ [] = rw fresh in
    let (s', e, t) =
      run_marks-Tracks (k ∷ ks) s.capacity s s.order
        (record { valid = v; capacity = refl; order = start }) in
    (
      s',
      e,
      t.valid.agree k
          ∙ ap (elem k) t.order
          ∙ ap (λ h. elem k (window s.capacity (notes s.capacity h ks))) noted
          ∙ notes_hold s.capacity s.order ks k few,
    )
