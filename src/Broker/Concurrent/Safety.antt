-- ===== src/Broker/Concurrent/Safety.antt =====
-- At-least-once handling under any interleaving.
use go_platform_kit.Common.{
  ◌≡◌, ◌≢◌, ◌⊎◌, inl, inr, sym, subst, true, false, none, some, List, [], ◌∷◌, ◌++◌, Text, All,
  All-append, Option-cases,
}
use go_platform_kit.Broker.Envelope.{Envelope, validate}
use go_platform_kit.Broker.Publish.{Reply, ok}
use go_platform_kit.Broker.Dispatch.{IdempotencyStore, Handler}
use go_platform_kit.Broker.Dispatch.Laws.{StoreLaws, HandlerLaws}
use go_platform_kit.Broker.Dispatch.Branches.{Reply-cases}
use go_platform_kit.Broker.Concurrent.{
  Pc, start, to_handle, to_mark, finished, turn, System, Step, deliver, move, die, Reach, here,
  next,
}

-- A list with one element in the middle.
All-middle {ℓ κ} :
    {A : Type ℓ} (P : A → Type κ) (xs : List A) (y : A) (ys : List A)
    → All P (xs ++ y ∷ ys)
    → All P xs × P y × All P ys
All-middle P [] y ys h = (tt, h.0, h.1)
All-middle P (x ∷ xs) y ys h =
    let (before, mid, after) = All-middle P xs y ys h.1 in ((h.0, before), mid, after)

module _ {S W Value : Type 0} (from_json : Text → Reply (Envelope Value)) (ops : IdempotencyStore S)
    (handler : Handler W Value) (Did : W → Text → Type 0) (laws : StoreLaws ops)
    (does : HandlerLaws from_json ops handler Did) where
  -- The payload holds a valid event.
  abbrev pub Holds : Text → Envelope Value → Type 0
  Holds payload ev = (from_json payload ≡ ok ev) × (validate ev ≡ none)

  -- What is known of a delivery by where it stands: one that returned nil is of a valid event whose
  -- effect is in the world, and so is one that is about to mark its id.
  abbrev pub Known : W → Text × Pc Value → Type 0
  Known w (payload, start) = Unit
  Known w (payload, to_handle ev) = Holds payload ev
  Known w (payload, to_mark ev marked_id) =
      Holds payload ev × Did w ev.event_id × (marked_id ≡ ev.event_id)
  Known w (payload, finished none) = (ev : Envelope Value) × Holds payload ev × Did w ev.event_id
  Known w (payload, finished (some e)) = Unit

  pub record IsConsistent (r : System from_json ops handler) : Type 0 where
    pub valid : laws.Valid r.store
    pub marked : (k : Text) → ops.seen r.store k ≡ ok true → Did r.world k
    pub known : All (Known r.world) r.deliveries

  Known-keeps :
      (w w' : W)
      → ((k : Text) → Did w k → Did w' k)
      → (d : Text × Pc Value) → Known w d
      → Known w' d
  Known-keeps w w' keep (payload, start) h = tt
  Known-keeps w w' keep (payload, to_handle ev) h = h
  Known-keeps w w' keep (payload, to_mark ev marked_id) (h, did, e) = (h, keep ev.event_id did, e)
  Known-keeps w w' keep (payload, finished none) (ev, h, did) = (ev, h, keep ev.event_id did)
  Known-keeps w w' keep (payload, finished (some e)) h = tt

  All-Known :
      (w w' : W)
      → ((k : Text) → Did w k → Did w' k)
      → (ds : List (Text × Pc Value)) → All (Known w) ds
      → All (Known w') ds
  All-Known w w' keep [] h = tt
  All-Known w w' keep (d ∷ ds) (p, h) = (Known-keeps w w' keep d p, All-Known w w' keep ds h)

  -- What a turn leaves.
  record Turned (w : W) (payload : Text) (t : S × W × Pc Value) : Type 0 where
    valid : laws.Valid t.0
    marked : (k : Text) → ops.seen t.0 k ≡ ok true → Did t.1 k
    kept : (k : Text) → Did w k → Did t.1 k
    known : Known t.1 (payload, t.2)

  module _ (s : S) (w : W) (payload : Text) (valid : laws.Valid s)
      (marked : (k : Text) → ops.seen s k ≡ ok true → Did w k) where
    Turned-same : (pc : Pc Value) → Known w (payload, pc) → Turned w payload (s, w, pc)
    Turned-same pc h = record { valid = valid; marked = marked; kept = λ k did. did; known = h }

    Turned-start : Turned w payload (turn from_json ops handler s w payload start)
    unfolding turn
    Turned-start = elim (Reply-cases (from_json payload)) [
      | inl (e, bad) ↦ rw (bad, turn) (Turned-same _ tt)
      | inr (ev, good) ↦ elim (Option-cases (validate ev)) [
        | inr (e, v) ↦ rw (good, turn) (rw v (Turned-same _ tt))
        | inl v ↦ elim (Reply-cases (ops.seen s ev.event_id)) [
          | inl (e, c) ↦ rw (good, turn) (rw v (rw c (Turned-same _ tt)))
          | inr (true, c) ↦
              rw (good, turn) (rw v (rw c (Turned-same _ (ev, (good, v), marked ev.event_id c))))
          | inr (false, c) ↦ rw (good, turn) (rw v (rw c (Turned-same _ (good, v))))
        ]
      ]
    ]

    Turned-handle :
        (ev : Envelope Value)
        → Holds payload ev
        → Turned w payload (turn from_json ops handler s w payload (to_handle ev))
    unfolding turn
    Turned-handle ev h = elim (Reply-cases (handler w ev).1) [
      | inl (e, f) ↦
          rw (f, turn)
            (record {
              valid = valid;
              marked = λ k seen. does.keeps w ev k (marked k seen);
              kept = does.keeps w ev;
              known = tt;
            })
      | inr (_, f) ↦
          rw (f, turn)
            (record {
              valid = valid;
              marked = λ k seen. does.keeps w ev k (marked k seen);
              kept = does.keeps w ev;
              known = (h, does.does w ev f, does.same_id w ev);
            })
    ]

    new_mark :
        (marked_id k : Text)
        → Did w marked_id
        → (marked_id ≡ k) ⊎ (ops.seen s k ≡ ok true)
        → Did w k
    new_mark marked_id k did (inl e) = subst (Did w) e did
    new_mark marked_id k did (inr seen) = marked k seen

    Turned-mark :
        (ev : Envelope Value) (marked_id : Text)
        → Known w (payload, to_mark ev marked_id)
        → Turned w payload (turn from_json ops handler s w payload (to_mark ev marked_id))
    unfolding turn
    Turned-mark ev marked_id (h, did, e) =
        let same : Did w marked_id = subst (Did w) (sym e) did in
        let valid' = laws.mark_valid s marked_id valid in
        elim (Reply-cases (ops.mark s marked_id).1) [
          | inl (_, m) ↦
              rw (m, turn)
                (record {
                  valid = valid';
                  marked =
                      λ k seen. new_mark marked_id k same (laws.mark_only s marked_id k valid seen);
                  kept = λ k d. d;
                  known = tt;
                })
          | inr (_, m) ↦
              rw (m, turn)
                (record {
                  valid = valid';
                  marked =
                      λ k seen. new_mark marked_id k same (laws.mark_only s marked_id k valid seen);
                  kept = λ k d. d;
                  known = (ev, h, did);
                })
        ]

    turn-Turned :
        (pc : Pc Value)
        → Known w (payload, pc)
        → Turned w payload (turn from_json ops handler s w payload pc)
    turn-Turned start h = Turned-start
    turn-Turned (to_handle ev) h = Turned-handle ev h
    turn-Turned (to_mark ev marked_id) h = Turned-mark ev marked_id h
    turn-Turned (finished none) h = unfold turn in Turned-same (finished none) h
    turn-Turned (finished (some e)) h = unfold turn in Turned-same (finished (some e)) h

  -- One step of one replica keeps the system consistent.
  pub Step-IsConsistent :
      {r r' : System from_json ops handler}
      → Step from_json ops handler r r'
      → IsConsistent r
      → IsConsistent r'
  Step-IsConsistent {r} (deliver payload e) safe =
      rw e (record { valid = safe.valid; marked = safe.marked; known = (tt, safe.known) })
  Step-IsConsistent {r} (move before after payload pc split e) safe =
      let (hb, h, ha) =
        All-middle (Known r.world) before (payload, pc) after (rw split at (safe.known)) in
      let t = turn-Turned r.store r.world payload safe.valid safe.marked pc h in
      rw e (record {
        valid = t.valid;
        marked = t.marked;
        known =
            All-append (Known _) before _ (All-Known r.world _ t.kept before hb)
              (t.known, All-Known r.world _ t.kept after ha);
      })
  Step-IsConsistent {r} (die before after payload pc split e) safe =
      let (hb, h, ha) =
        All-middle (Known r.world) before (payload, pc) after (rw split at (safe.known)) in
      rw e (record {
        valid = safe.valid;
        marked = safe.marked;
        known = All-append (Known r.world) before after hb ha;
      })

  -- Any number of replicas, whose calls of one store and one handler interleave in any order and
  -- which may die at any point, over a store and a handler that keep their laws: if nothing was
  -- marked and delivered before, then in every reachable state the store is valid, each id that it
  -- has seen has its effect in the world, and so has the valid event of each delivery that returned
  -- nil.
  pub Reach-IsConsistent :
      (r r' : System from_json ops handler)
      → laws.Valid r.store
      → ((k : Text) → ops.seen r.store k ≢ ok true)
      → r.deliveries ≡ []
      → Reach from_json ops handler r r'
      → IsConsistent r'
  Reach-IsConsistent r r' valid fresh empty here = record {
    valid = valid;
    marked = λ k seen. absurd (fresh k seen);
    known = rw empty tt;
  }
  Reach-IsConsistent r r' valid fresh empty (next run step) =
      Step-IsConsistent step (Reach-IsConsistent r _ valid fresh empty run)
