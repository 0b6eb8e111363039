-- ===== src/Broker/Dispatch/Branches.antt =====
-- Every branch of `Dispatch` over a store: what is left, returned and called.
use go_platform_kit.Common.{
  ◌≡◌, ◌⊎◌, inl, inr, refl, true, false, Option, none, some, List, [], ◌∷◌, Text, bytes,
  Option-cases,
}
use go_platform_kit.Broker.Envelope.{Envelope, BrokerError, validate}
use go_platform_kit.Broker.Publish.{Reply, ok, failed}
use go_platform_kit.Broker.Dispatch.{
  IdempotencyStore, DispatchError, Call, Dispatched, Handler, handle_event, dedupe, dispatch,
}

pub Reply-cases {ℓ} :
    {A : Type ℓ} (r : Reply A) → ((e : Text) × (r ≡ failed e)) ⊎ ((a : A) × (r ≡ ok a))
Reply-cases (failed e) = inl (e, refl)
Reply-cases (ok a) = inr (a, refl)

module _ {S W Value : Type 0} (from_json : Text → Reply (Envelope Value)) (ops : IdempotencyStore S)
    (handler : Handler W Value) (s : S) (w : W) (payload : Text) where
  abbrev pub left : S → W → Option DispatchError → List Call → Dispatched S W
  left s' w' error calls = record { store = s'; world = w'; error = error; calls = calls }

  -- The seven ways in which a dispatch ends. Only the last two call the store's mark, and only after
  -- the handler succeeded.
  pub data Branch (r : Dispatched S W) : Type 0 where
    undecoded :
        (e : Text)
        → from_json payload ≡ failed e
        → r ≡ left s w (some (DispatchError.decode e)) (Call.inc_consume (bytes "invalid") ∷ [])
        → Branch r
    invalid :
        (ev : Envelope Value) (e : BrokerError)
        → from_json payload ≡ ok ev
        → validate ev ≡ some e
        → r ≡ left s w (some (DispatchError.broker e)) (Call.inc_consume (bytes "invalid") ∷ [])
        → Branch r
    unchecked :
        (ev : Envelope Value) (e : Text)
        → from_json payload ≡ ok ev
        → validate ev ≡ none
        → ops.seen s ev.event_id ≡ failed e
        → r
          ≡ left s w
              (some (DispatchError.check_failed ev.event_id e))
              (Call.check ev.event_id ∷ Call.inc_consume (bytes "error") ∷ [])
        → Branch r
    duplicate :
        (ev : Envelope Value)
        → from_json payload ≡ ok ev
        → validate ev ≡ none
        → ops.seen s ev.event_id ≡ ok true
        → r ≡ left s w none (Call.check ev.event_id ∷ Call.inc_consume (bytes "duplicate") ∷ [])
        → Branch r
    unhandled :
        (ev : Envelope Value) (e : Text)
        → from_json payload ≡ ok ev
        → validate ev ≡ none
        → ops.seen s ev.event_id ≡ ok false
        → (handler w ev).1 ≡ failed e
        → r
          ≡ left s (handler w ev).0 (some (DispatchError.handler_failed e)) (
              Call.check ev.event_id
              ∷ Call.handle ev.event_id false
              ∷ Call.inc_consume (bytes "error")
              ∷ [])
        → Branch r
    unmarked :
        (ev : Envelope Value) (e : Text)
        → from_json payload ≡ ok ev
        → validate ev ≡ none
        → ops.seen s ev.event_id ≡ ok false
        → (handler w ev).1 ≡ ok tt
        → (ops.mark s (handler w ev).2.event_id).1 ≡ failed e
        → r
          ≡ left
              (ops.mark s (handler w ev).2.event_id).0
              (handler w ev).0
              (some (DispatchError.mark_failed (handler w ev).2.event_id e))
              (Call.check ev.event_id
                ∷ Call.handle ev.event_id true
                ∷ Call.mark (handler w ev).2.event_id
                ∷ Call.inc_consume (bytes "error")
                ∷ [])
        → Branch r
    processed :
        (ev : Envelope Value)
        → from_json payload ≡ ok ev
        → validate ev ≡ none
        → ops.seen s ev.event_id ≡ ok false
        → (handler w ev).1 ≡ ok tt
        → (ops.mark s (handler w ev).2.event_id).1 ≡ ok tt
        → r
          ≡ left (ops.mark s (handler w ev).2.event_id).0 (handler w ev).0 none (
              Call.check ev.event_id
              ∷ Call.handle ev.event_id true
              ∷ Call.mark (handler w ev).2.event_id
              ∷ Call.inc_consume (bytes "success")
              ∷ [])
        → Branch r

  handled-Branch :
      (ev : Envelope Value)
      → from_json payload ≡ ok ev
      → validate ev ≡ none
      → ops.seen s ev.event_id ≡ ok false
      → Branch (handle_event (some ops) handler s w ev.event_id ev (Call.check ev.event_id ∷ []))
  unfolding handle_event
  handled-Branch ev good v c = elim (Reply-cases (handler w ev).1) [
    | inl (e, f) ↦ unhandled ev e good v c f (rw (f, handle_event))
    | inr (_, f) ↦ elim (Reply-cases (ops.mark s (handler w ev).2.event_id).1) [
      | inl (e, m) ↦ unmarked ev e good v c f m (rw (f, handle_event) (rw m))
      | inr (_, m) ↦ processed ev good v c f m (rw (f, handle_event) (rw m))
    ]
  ]

  dedupe-Branch :
      (ev : Envelope Value)
      → from_json payload ≡ ok ev
      → validate ev ≡ none
      → Branch (dedupe (some ops) handler s w ev)
  unfolding dedupe
  dedupe-Branch ev good v = elim (Reply-cases (ops.seen s ev.event_id)) [
    | inl (e, c) ↦ unchecked ev e good v c (rw c)
    | inr (true, c) ↦ duplicate ev good v c (rw c)
    | inr (false, c) ↦ rw (c, dedupe) (handled-Branch ev good v c)
  ]

  -- Every dispatch over a store and a handler ends in one of seven ways, each with its error, its
  -- calls in order and the states that it leaves: the payload does not decode, the event is not
  -- valid, the check fails, a duplicate, the handler fails, the mark fails, or success.
  pub dispatch-Branch : Branch (dispatch from_json (some ops) (some handler) s w payload)
  unfolding dispatch
  dispatch-Branch = elim (Reply-cases (from_json payload)) [
    | inl (e, bad) ↦ undecoded e bad (rw (bad, dispatch))
    | inr (ev, good) ↦ elim (Option-cases (validate ev)) [
      | inr (e, v) ↦ invalid ev e good v (rw (good, dispatch) (rw v))
      | inl v ↦ rw (good, dispatch) (rw v (dedupe-Branch ev good v))
    ]
  ]
