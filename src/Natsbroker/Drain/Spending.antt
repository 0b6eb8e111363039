-- ===== src/Natsbroker/Drain/Spending.antt =====
-- What a delivery of a valid event may use up: the failures of a handler and of acks.
use go_platform_kit.Common.{◌≡◌, ◌⊎◌, inl, inr, refl, ℕ, ◌≤◌, ◌<◌, Bool, none, Text, arith}
use go_platform_kit.Broker.Envelope.{Envelope}
use go_platform_kit.Broker.Publish.{Reply, ok}
use go_platform_kit.Broker.Dispatch.{IdempotencyStore, Dispatched, Handler}
use go_platform_kit.Broker.Dispatch.Laws.{StoreLaws}
use go_platform_kit.Broker.Dispatch.Branches.{
  Branch, undecoded, invalid, unchecked, duplicate, unhandled, unmarked, processed,
}
use go_platform_kit.Natsbroker.{Message}
use go_platform_kit.Natsbroker.Rounds.{IsGood}

-- The handler fails at most `budget w` times from the world `w` on.
pub record FailsFinitely {W Value : Type 0} (handler : Handler W Value) (budget : W → ℕ)
    : Type 0 where
  pub never_grows : (w : W) (ev : Envelope Value) → budget (handler w ev).0 ≤ budget w
  pub succeeds :
      (w : W) (ev : Envelope Value)
      → ((handler w ev).1 ≡ ok tt) ⊎ (budget (handler w ev).0 < budget w)

-- At most `failing a` acks fail from the network `a` on.
pub record AcksFinitely {A : Type 0} (ack : A → Message → A × Reply (Unit {0})) (failing : A → ℕ)
    : Type 0 where
  pub never_grows : (a : A) (m : Message) → failing (ack a m).0 ≤ failing a
  pub succeeds : (a : A) (m : Message) → ((ack a m).1 ≡ ok tt) ⊎ (failing (ack a m).0 < failing a)

-- A store that does not fail.
pub record IsReliable {S : Type 0} (ops : IdempotencyStore S) (laws : StoreLaws ops) : Type 0 where
  pub seen_ok : (s : S) (k : Text) → laws.Valid s → (b : Bool) × (ops.seen s k ≡ ok b)
  pub mark_ok : (s : S) (k : Text) → laws.Valid s → (ops.mark s k).1 ≡ ok tt

module _ {S W Value : Type 0} (from_json : Text → Reply (Envelope Value)) (ops : IdempotencyStore S)
    (handler : Handler W Value) (laws : StoreLaws ops) (reliable : IsReliable ops laws)
    (budget : W → ℕ) (finitely : FailsFinitely handler budget) where
  -- A dispatch of a valid event returns nil, or uses up some of the budget.
  pub record Spends (w : W) (d : Dispatched S W) : Type 0 where
    pub shrunk : budget d.world ≤ budget w
    pub spent : (d.error ≡ none) ⊎ (budget d.world < budget w)

  pub Branch-Spends :
      (s : S) (w : W) (m : Message) (d : Dispatched S W)
      → laws.Valid s
      → IsGood from_json m
      → Branch from_json ops handler s w m.payload d
      → Spends w d
  Branch-Spends s w m d valid (g, good', v') (undecoded e bad same) = absurd (ground arith)
  Branch-Spends s w m d valid (g, good', v') (invalid ev e good v same) = absurd (ground arith)
  Branch-Spends s w m d valid g (unchecked ev e good v c same) =
      let (b, seen) = reliable.seen_ok s ev.event_id valid in absurd (ground arith)
  Branch-Spends s w m d valid g (duplicate ev good v c same) =
      rw same (record { shrunk = omega arith; spent = inl refl })
  Branch-Spends s w m d valid g (unhandled ev e good v c f same) = rw same (record {
    shrunk = finitely.never_grows w ev;
    spent = elim (finitely.succeeds w ev) [
      | inl fine ↦ absurd (ground arith)
      | inr less ↦ inr less
    ];
  })
  Branch-Spends s w m d valid g (unmarked ev e good v c f m' same) =
      let marked = reliable.mark_ok s (handler w ev).2.event_id valid in absurd (ground arith)
  Branch-Spends s w m d valid g (processed ev good v c f m' same) =
      rw same (record { shrunk = finitely.never_grows w ev; spent = inl refl })
