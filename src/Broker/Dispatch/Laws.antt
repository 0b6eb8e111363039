-- ===== src/Broker/Dispatch/Laws.antt =====
-- What `Dispatch` promises: an event is acknowledged only if it was handled.
use go_platform_kit.Common.{
  ◌≡◌, ◌↔◌, ◌⊎◌, inl, inr, refl, ap, sym, ◌∙◌, true, false, none, some, Text, arith,
}
use go_platform_kit.Broker.Envelope.{Envelope, validate}
use go_platform_kit.Broker.Publish.{Reply, ok}
use go_platform_kit.Broker.Dispatch.{
  IdempotencyStore, Dispatched, Handler, handle_event, dedupe, dispatch,
}

-- The laws of a store that `Dispatch` relies on: an id that is marked with success is seen.
pub record StoreLaws {S : Type 0} (ops : IdempotencyStore S) : Type 1 where
  pub Valid : S → Type 0
  pub mark_valid : (s : S) (k : Text) → Valid s → Valid (ops.mark s k).0
  pub mark_seen :
      (s : S) (k : Text)
      → Valid s
      → (ops.mark s k).1 ≡ ok tt
      → ops.seen (ops.mark s k).0 k ≡ ok true
  pub mark_only :
      (s : S) (k j : Text)
      → Valid s
      → ops.seen (ops.mark s k).0 j ≡ ok true
      → (k ≡ j) ⊎ (ops.seen s j ≡ ok true)

module _ {S W Value : Type 0} (from_json : Text → Reply (Envelope Value)) (ops : IdempotencyStore S)
    (handler : Handler W Value) where
  -- The event is valid, and a duplicate, which changes nothing, or handled and marked with success.
  abbrev pub Settled : S → W → Envelope Value → S → W → Type 0
  Settled s w ev s' w' =
      (validate ev ≡ none)
      × (((ops.seen s ev.event_id ≡ ok true) × (s' ≡ s) × (w' ≡ w))
          ⊎ ((ops.seen s ev.event_id ≡ ok false)
              × ((handler w ev).1 ≡ ok tt)
              × ((ops.mark s (handler w ev).2.event_id).1 ≡ ok tt)
              × (s' ≡ (ops.mark s (handler w ev).2.event_id).0)
              × (w' ≡ (handler w ev).0)))

  -- The handler does not change the event id of the envelope that it is given.
  abbrev pub KeepsId : Type 0
  KeepsId = (w : W) (ev : Envelope Value) → (handler w ev).2.event_id ≡ ev.event_id

  -- What the handler leaves in the world for an event id. It is there after a success, and no call
  -- of the handler takes it away. The handler does not change the event id.
  pub record HandlerLaws (Did : W → Text → Type 0) : Type 0 where
    pub does :
        (w : W) (ev : Envelope Value) → (handler w ev).1 ≡ ok tt → Did (handler w ev).0 ev.event_id
    pub keeps : (w : W) (ev : Envelope Value) (k : Text) → Did w k → Did (handler w ev).0 k
    pub same_id : (w : W) (ev : Envelope Value) → (handler w ev).2.event_id ≡ ev.event_id

  Settled-seen :
      (laws : StoreLaws ops) (keeps : KeepsId) (s : S) (w : W) (ev : Envelope Value) (s' : S)
      (w' : W)
      → laws.Valid s
      → Settled s w ev s' w'
      → ops.seen s' ev.event_id ≡ ok true
  Settled-seen laws keeps s w ev s' w' valid (v, inl (seen, e, _)) = rw e seen
  Settled-seen laws keeps s w ev s' w' valid (v, inr (_, _, marked, e, _)) =
      rw (e, keeps w ev) (laws.mark_seen s ev.event_id valid (rw (keeps w ev) at marked))

  module _ (s : S) (w : W) (payload : Text) where
    abbrev pub result : Dispatched S W
    result = dispatch from_json (some ops) (some handler) s w payload

    -- From a valid event on: no error exactly if the event is settled.
    dedupe-Settled :
        (ev : Envelope Value)
        → validate ev ≡ none
        → (dedupe (some ops) handler s w ev).error ≡ none
        → Settled s w ev
            (dedupe (some ops) handler s w ev).store
            (dedupe (some ops) handler s w ev).world
    unfolding dedupe handle_event
    dedupe-Settled ev v h = ground arith

    dedupe_of_Settled :
        (ev : Envelope Value) (s' : S) (w' : W)
        → Settled s w ev s' w'
        → ((dedupe (some ops) handler s w ev).error ≡ none)
          × ((dedupe (some ops) handler s w ev).store ≡ s')
          × ((dedupe (some ops) handler s w ev).world ≡ w')
    unfolding dedupe handle_event
    dedupe_of_Settled ev s' w' h = ground arith

    dispatch_of_valid :
        (ev : Envelope Value)
        → from_json payload ≡ ok ev
        → validate ev ≡ none
        → result ≡ dedupe (some ops) handler s w ev
    unfolding dispatch
    dispatch_of_valid ev good v = rw (good, dispatch) (rw v)

    dispatch-valid :
        result.error ≡ none
        → (ev : Envelope Value) × (from_json payload ≡ ok ev) × (validate ev ≡ none)
    unfolding dispatch
    dispatch-valid h = ground arith

    -- `Dispatch` over a store returns nil exactly when the payload decodes to a valid event that is
    -- settled: seen before, with nothing changed, or not seen, handled and then marked, both with
    -- success, with the states that the handler and the mark leave.
    pub dispatch-Settled : (result.error ≡ none) ↔ (
        (ev : Envelope Value) × (from_json payload ≡ ok ev)
        × Settled s w ev result.store result.world)
    dispatch-Settled = (
      λ h.
          let (ev, good, v) = dispatch-valid h in
          let e = dispatch_of_valid ev good v in
          let h' : (dedupe (some ops) handler s w ev).error ≡ none =
            ap (λ r. r.error) (sym e) ∙ h in
          (ev, good, rw e (dedupe-Settled ev v h')),
      λ p.
          let (ev, good, settled) = p in
          let e = dispatch_of_valid ev good settled.0 in
          rw e (dedupe_of_Settled ev result.store result.world settled).0,
    )

  -- With a store that keeps its laws and a handler that leaves the event id as it is: a redelivery of
  -- a payload that a dispatch from a valid store acknowledged, to any world and to the store that
  -- this dispatch left, is acknowledged and changes neither the store nor the world.
  pub dispatch_again :
      (laws : StoreLaws ops) (keeps : KeepsId) (s : S) (w w' : W) (payload : Text)
      → laws.Valid s
      → (result s w payload).error ≡ none
      → ((result (result s w payload).store w' payload).error ≡ none)
        × ((result (result s w payload).store w' payload).store ≡ (result s w payload).store)
        × ((result (result s w payload).store w' payload).world ≡ w')
  dispatch_again laws keeps s w w' payload valid h =
      let (ev, good, settled) = (dispatch-Settled s w payload).0 h in
      let s' = (result s w payload).store in
      let again : result s' w' payload ≡ dedupe (some ops) handler s' w' ev =
        dispatch_of_valid s' w' payload ev good settled.0 in
      let seen : ops.seen s' ev.event_id ≡ ok true =
        Settled-seen laws keeps s w ev s' (result s w payload).world valid settled in
      rw again (dedupe_of_Settled s' w' payload ev s' w' (settled.0, inl (seen, refl, refl)))
