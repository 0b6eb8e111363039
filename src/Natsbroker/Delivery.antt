-- ===== src/Natsbroker/Delivery.antt =====
-- A run of a durable consumer keeps its store and its world in step with what was confirmed.
use mathlib.Core.List.Perm
use go_platform_kit.Common.{
  sym, ◌∙◌, ◌≢◌, subst, ◌≡◌, ◌⊎◌, inl, inr, true, Option, none, List, [], ◌∷◌, Text, arith, All,
}
use go_platform_kit.Broker.Envelope.{Envelope, validate}
use go_platform_kit.Broker.Publish.{Reply, ok}
use go_platform_kit.Broker.Dispatch.{IdempotencyStore, DispatchError, Dispatched, Handler}
use go_platform_kit.Broker.Dispatch.Laws.{StoreLaws, HandlerLaws}
use go_platform_kit.Broker.Dispatch.Branches.{
  Branch, undecoded, invalid, unchecked, duplicate, unhandled, unmarked, processed, dispatch-Branch,
}
use go_platform_kit.Natsbroker.{Message, on_message, settle}
use go_platform_kit.Natsbroker.Runs.{
  Run, acked, called, Step, arrive, confirm, hold, lose, Reach, here, next,
}
use go_platform_kit.Natsbroker.Runs.Accounted.{IsAccounted, Step-IsAccounted}

module _ {S W Value : Type 0} (from_json : Text → Reply (Envelope Value)) (ops : IdempotencyStore S)
    (handler : Handler W Value) where
  module _ (Did : W → Text → Type 0) (laws : StoreLaws ops)
      (does : HandlerLaws from_json ops handler Did) where
    -- The message holds a valid event, which the world has.
    abbrev pub Handled : W → Message → Type 0
    Handled w m =
        (ev : Envelope Value) × (from_json m.payload ≡ ok ev)
        × (validate ev ≡ none)
        × Did w ev.event_id

    pub record IsSafe (r : Run S W) : Type 0 where
      pub valid : laws.Valid r.store
      pub marked : (k : Text) → ops.seen r.store k ≡ ok true → Did r.world k
      pub handled : All (Handled r.world) r.confirmed

    -- What one dispatch leaves, from a store whose marks are all done.
    pub record Keeps (s : S) (w : W) (m : Message) (d : Dispatched S W) : Type 0 where
      pub valid : laws.Valid d.store
      pub marked : (k : Text) → ops.seen d.store k ≡ ok true → Did d.world k
      pub kept : (k : Text) → Did w k → Did d.world k
      pub settled : d.error ≡ none → Handled d.world m

    module _ (s : S) (w : W) (m : Message) (valid : laws.Valid s)
        (marked : (k : Text) → ops.seen s k ≡ ok true → Did w k) where
      -- The handler ran with success on a valid event, and a mark was tried.
      Keeps-marked :
          (ev : Envelope Value) (error : Option DispatchError) (calls : _)
          → from_json m.payload ≡ ok ev
          → validate ev ≡ none
          → (handler w ev).1 ≡ ok tt
          → Keeps s w m (record {
            store = (ops.mark s (handler w ev).2.event_id).0;
            world = (handler w ev).0;
            error = error;
            calls = calls;
          })
      Keeps-marked ev error calls good v f = record {
        valid = laws.mark_valid s (handler w ev).2.event_id valid;
        marked = λ k seen. new_mark k (laws.mark_only s (handler w ev).2.event_id k valid seen);
        kept = λ k h. does.keeps w ev k h;
        settled = λ _. (ev, good, v, does.does w ev f);
      }
        where
          new_mark :
              (k : Text)
              → ((handler w ev).2.event_id ≡ k) ⊎ (ops.seen s k ≡ ok true)
              → Did (handler w ev).0 k
          new_mark k (inl e) =
              subst (Did (handler w ev).0) (sym (does.same_id w ev) ∙ e) (does.does w ev f)
          new_mark k (inr seen) = does.keeps w ev k (marked k seen)

      -- Nothing changed.
      Keeps-same :
          (error : Option DispatchError) (calls : _)
          → (error ≡ none → Handled w m)
          → Keeps s w m (record { store = s; world = w; error = error; calls = calls })
      Keeps-same error calls settled = record {
        valid = valid;
        marked = marked;
        kept = λ k h. h;
        settled = settled;
      }

      Branch-Keeps :
          (d : Dispatched S W) → Branch from_json ops handler s w m.payload d → Keeps s w m d
      Branch-Keeps d (undecoded e bad same) = rw same (Keeps-same _ _ (λ h. absurd (ground arith)))
      Branch-Keeps d (invalid ev e good v same) =
          rw same (Keeps-same _ _ (λ h. absurd (ground arith)))
      Branch-Keeps d (unchecked ev e good v c same) =
          rw same (Keeps-same _ _ (λ h. absurd (ground arith)))
      Branch-Keeps d (duplicate ev good v c same) =
          rw same (Keeps-same _ _ (λ _. (ev, good, v, marked ev.event_id c)))
      Branch-Keeps d (unhandled ev e good v c f same) = rw same (record {
        valid = valid;
        marked = λ k seen. does.keeps w ev k (marked k seen);
        kept = λ k h. does.keeps w ev k h;
        settled = λ h. absurd (ground arith);
      })
      Branch-Keeps d (unmarked ev e good v c f m' same) = rw same (Keeps-marked ev _ _ good v f)
      Branch-Keeps d (processed ev good v c f m' same) = rw same (Keeps-marked ev _ _ good v f)

    pub called-Keeps :
        (r : Run S W) (m : Message) (reply : Reply (Unit {0}))
        → IsSafe r
        → Keeps r.store r.world m (called from_json ops handler r m reply).0
    unfolding on_message
    called-Keeps r m reply safe =
        Branch-Keeps r.store r.world m safe.valid safe.marked _
          (dispatch-Branch from_json ops handler r.store r.world m.payload)

    -- An acknowledged message had no error.
    pub acked-settled :
        (r : Run S W) (m : Message) (reply : Reply (Unit {0}))
        → acked (called from_json ops handler r m reply).1 ≡ true
        → (called from_json ops handler r m reply).0.error ≡ none
    unfolding on_message settle
    acked-settled r m reply h = ground arith

    All-Handled :
        (w w' : W)
        → ((k : Text) → Did w k → Did w' k)
        → (ms : List Message) → All (Handled w) ms
        → All (Handled w') ms
    All-Handled w w' keep [] h = tt
    All-Handled w w' keep (m ∷ ms) ((ev, good, v, did), h) =
        ((ev, good, v, keep ev.event_id did), All-Handled w w' keep ms h)

    -- A step keeps the run safe.
    pub Step-IsSafe : {r r' : Run S W} → Step from_json ops handler r r' → IsSafe r → IsSafe r'
    Step-IsSafe {r} (arrive m e) safe =
        rw e (record { valid = safe.valid; marked = safe.marked; handled = safe.handled })
    Step-IsSafe {r} (confirm before after m reply split done e) safe =
        let k = called-Keeps r m reply safe in
        rw e (record {
          valid = k.valid;
          marked = k.marked;
          handled = (
            k.settled (acked-settled r m reply done),
            All-Handled r.world _ k.kept r.confirmed safe.handled,
          );
        })
    Step-IsSafe {r} (hold before after m reply split held e) safe =
        let k = called-Keeps r m reply safe in
        rw e (record {
          valid = k.valid;
          marked = k.marked;
          handled = All-Handled r.world _ k.kept r.confirmed safe.handled;
        })
    Step-IsSafe {r} (lose before after m split e) safe =
        rw e (record { valid = safe.valid; marked = safe.marked; handled = safe.handled })

  module _ (Did : W → Text → Type 0) (laws : StoreLaws ops)
      (does : HandlerLaws from_json ops handler Did) where
    -- In every run that starts with no message, a valid store and nothing marked, over a store and a
    -- handler that keep their laws, whatever fails on the way: each message that arrived is, as
    -- often as it did, still to be delivered, or lost by the server, or confirmed; and each
    -- confirmed message holds a valid event whose effect is in the world.
    pub Reach-Handled :
        (r r' : Run S W)
        → laws.Valid r.store
        → ((k : Text) → ops.seen r.store k ≢ ok true)
        → r.arrived ≡ []
        → r.pending ≡ []
        → r.confirmed ≡ []
        → r.lost ≡ []
        → Reach from_json ops handler r r'
        → IsAccounted r' × All (Handled Did laws does r'.world) r'.confirmed
    Reach-Handled r r' valid fresh none_arrived none_pending none_confirmed none_lost run =
        ((Reach-both run).0, (Reach-both run).1.handled)
      where
        start : IsSafe Did laws does r
        start = record {
          valid = valid;
          marked = λ k seen. absurd (fresh k seen);
          handled = rw none_confirmed tt;
        }

        Reach-both :
            {r'' : Run S W}
            → Reach from_json ops handler r r''
            → IsAccounted r'' × IsSafe Did laws does r''
        Reach-both here =
            (rw (none_arrived, none_pending, none_confirmed, none_lost) Perm.nil, start)
        Reach-both (next run step) =
            let (accounted, safe) = Reach-both run in
            (
              Step-IsAccounted from_json ops handler step accounted,
              Step-IsSafe Did laws does step safe,
            )
