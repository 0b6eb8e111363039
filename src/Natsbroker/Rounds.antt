-- ===== src/Natsbroker/Rounds.antt =====
-- Redelivery in rounds: the server delivers each pending message once a round, in their order, and
-- keeps those without a confirmed ack, until each was delivered `MaxDeliver` times, where that is set.
-- An ack may fail, by the state of the network. The stream's limits are taken to be wide enough: no
-- message is lost here.
use go_platform_kit.Common.{
  ◌≡◌, refl, ℕ, zero, suc, ◌≤◌, ℤ, leb, Option, none, some, List, [], ◌∷◌, Text, arith,
  if◌then◌else◌,
}
use go_platform_kit.Broker.Envelope.{Envelope, validate}
use go_platform_kit.Broker.Publish.{Reply, ok}
use go_platform_kit.Broker.Dispatch.{IdempotencyStore, DispatchError, Dispatched, Handler}
use go_platform_kit.Natsbroker.{Message, Action}
use go_platform_kit.Natsbroker.Runs.{Run, acked, called}

-- How often a message is delivered in `n` rounds, at most; a `MaxDeliver` that is not positive is no
-- limit.
abbrev pub allowed : (max_deliver : ℤ) → ℕ → ℕ
allowed (ℤ.negsuc _) n = n
allowed (ℤ.pos zero) n = n
allowed (ℤ.pos (suc c)) n = if leb n (suc c) then n else suc c

-- The limit, if any, leaves room for `n` deliveries.
abbrev pub Permits : (max_deliver : ℤ) → ℕ → Type 0
Permits (ℤ.negsuc _) n = Unit
Permits (ℤ.pos zero) n = Unit
Permits (ℤ.pos (suc c)) n = n ≤ suc c

pub allowed_of_Permits :
    (max_deliver : ℤ) (n : ℕ) → Permits max_deliver n → allowed max_deliver n ≡ n
allowed_of_Permits (ℤ.negsuc _) n h = refl
allowed_of_Permits (ℤ.pos zero) n h = refl
allowed_of_Permits (ℤ.pos (suc c)) n h = ground arith

-- The network after what followed a dispatch: an ack is tried exactly if there was no error.
abbrev pub after_ack :
    {A : Type 0} → (A → Message → A × Reply (Unit {0})) → Option DispatchError → A → Message → A
after_ack ack none a m = (ack a m).0
after_ack ack (some _) a m = a

-- The message holds a valid event.
abbrev pub IsGood : {Value : Type 0} → (Text → Reply (Envelope Value)) → Message → Type 0
IsGood {Value} from_json m =
    (ev : Envelope Value) × (from_json m.payload ≡ ok ev) × (validate ev ≡ none)

module _ {S W A Value : Type 0} (from_json : Text → Reply (Envelope Value))
    (ops : IdempotencyStore S) (handler : Handler W Value)
    (ack : A → Message → A × Reply (Unit {0})) where
  abbrev pub alone : S → W → Run S W
  alone s w = record { store = s; world = w; arrived = []; pending = []; confirmed = []; lost = [] }

  -- One delivery.
  abbrev pub delivered : S → W → A → Message → Dispatched S W × List Action
  delivered s w a m = called from_json ops handler (alone s w) m (ack a m).1

  -- The stores, the world and the network after some deliveries, and what is still pending.
  pub record Left : Type 0 where
    pub store : S
    pub world : W
    pub network : A
    pub pending : List Message

  -- One round.
  unfoldable pub pass : S → W → A → List Message → Left
  pass s w a [] = record { store = s; world = w; network = a; pending = [] }
  pass s w a (m ∷ ms) =
      let d = delivered s w a m in
      let rest = pass d.0.store d.0.world (after_ack ack d.0.error a m) ms in
      record rest { pending = if acked d.1 then rest.pending else (m ∷ rest.pending) }

  unfoldable pub rounds : ℕ → Left → Left
  rounds zero t = t
  rounds (suc n) t = rounds n (pass t.store t.world t.network t.pending)

  -- The rounds of a consumer with a `MaxDeliver`.
  unfoldable pub drain : (max_deliver : ℤ) → ℕ → Left → Left
  drain max_deliver n t = rounds (allowed max_deliver n) t
