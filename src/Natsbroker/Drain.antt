-- ===== src/Natsbroker/Drain.antt =====
-- The rounds end: nothing is left pending, and everything is handled.
pub mod Spending
mod Held
use go_platform_kit.Common.{◌≡◌, ◌⊎◌, ℕ, ◌≤◌, ◌<◌, ◌+◌, true, List, [], Text, All}
use go_platform_kit.Broker.Envelope.{Envelope}
use go_platform_kit.Broker.Publish.{Reply, ok}
use go_platform_kit.Broker.Dispatch.{IdempotencyStore, Handler}
use go_platform_kit.Broker.Dispatch.Laws.{StoreLaws, HandlerLaws}
use go_platform_kit.Natsbroker.Drain.Spending.{FailsFinitely, AcksFinitely, IsReliable}
use go_platform_kit.Natsbroker.{Message}
use go_platform_kit.Natsbroker.Delivery.{Handled}
use go_platform_kit.Natsbroker.Rounds.{after_ack, delivered, Left, IsGood}

module _ {S W A Value : Type 0} (from_json : Text → Reply (Envelope Value))
    (ops : IdempotencyStore S) (handler : Handler W Value)
    (ack : A → Message → A × Reply (Unit {0})) where
  module _ (Did : W → Text → Type 0) (laws : StoreLaws ops)
      (does : HandlerLaws from_json ops handler Did) (budget : W → ℕ) (failing : A → ℕ) where
    module _ (reliable : IsReliable ops laws) (finitely : FailsFinitely handler budget)
        (acks : AcksFinitely ack failing) where
      -- The failures that may be still to come, of the handler and of acks.
      abbrev total : W → A → ℕ
      total w a = budget w + failing a

      -- What a round, or several, leave of the pending messages `ms`.
      record Passed (w : W) (a : A) (ms : List Message) (t : Left from_json ops handler ack)
          : Type 0 where
        valid : laws.Valid t.store
        marked : (k : Text) → ops.seen t.store k ≡ ok true → Did t.world k
        kept : (k : Text) → Did w k → Did t.world k
        good : All (IsGood from_json) t.pending
        shrunk : total t.world t.network ≤ total w a
        spent : (t.pending ≡ []) ⊎ (total t.world t.network < total w a)
        settled :
            (w' : W)
            → ((k : Text) → Did t.world k → Did w' k)
            → All (Handled from_json ops handler Did laws does w') t.pending
            → All (Handled from_json ops handler Did laws does w') ms

      abbrev next_network : S → W → A → Message → A
      next_network s w a m = after_ack ack (delivered from_json ops handler ack s w a m).0.error a m

      -- Everything is handled and nothing is pending.
      abbrev pub Drained : Left from_json ops handler ack → Left from_json ops handler ack → Type 0
      Drained t t' =
          (t'.pending ≡ []) × All (Handled from_json ops handler Did laws does t'.world) t.pending
