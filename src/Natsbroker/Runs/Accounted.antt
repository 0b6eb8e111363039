-- ===== src/Natsbroker/Runs/Accounted.antt =====
-- Where the messages of a run are.
use mathlib.Core.List.{Perm, perm_middle}
use mathlib.Core.List.Perm
use go_platform_kit.Common.{List, ◌∷◌, ◌++◌, Text}
use go_platform_kit.Broker.Envelope.{Envelope}
use go_platform_kit.Broker.Publish.{Reply}
use go_platform_kit.Broker.Dispatch.{IdempotencyStore, Handler}
use go_platform_kit.Natsbroker.Runs.{Run, Step, arrive, confirm, hold, lose}

-- A message that is taken out of the middle of a list, for a list behind it.
perm_out :
    {A : Type 0} (m : A) (before after rest : List A)
    → Perm ((before ++ m ∷ after) ++ rest) ((before ++ after) ++ m ∷ rest)
perm_out m before after rest =
    Perm.trans (Perm.append_right rest (perm_middle {a = m} before after))
      (Perm.symm (perm_middle {a = m} (before ++ after) rest))

perm_last :
    {A : Type 0} (m : A) (before after mid rest : List A)
    → Perm ((before ++ m ∷ after) ++ (mid ++ rest)) ((before ++ after) ++ (mid ++ m ∷ rest))
perm_last m before after mid rest =
    Perm.trans (perm_out m before after (mid ++ rest))
      (Perm.append_left (before ++ after) (Perm.symm (perm_middle {a = m} mid rest)))

-- Each message that arrived is pending, confirmed or lost, as often as it arrived.
abbrev pub IsAccounted : {S W : Type 0} → Run S W → Type 0
IsAccounted r = Perm r.arrived (r.pending ++ (r.confirmed ++ r.lost))

module _ {S W Value : Type 0} (from_json : Text → Reply (Envelope Value)) (ops : IdempotencyStore S)
    (handler : Handler W Value) where
  pub Step-IsAccounted :
      {r r' : Run S W} → Step from_json ops handler r r' → IsAccounted r → IsAccounted r'
  Step-IsAccounted {r} (arrive m e) h = rw e (Perm.cons m h)
  Step-IsAccounted {r} (confirm before after m reply split done e) h =
      rw e (Perm.trans h (rw split (perm_out m before after (r.confirmed ++ r.lost))))
  Step-IsAccounted {r} (hold before after m reply split held e) h = rw e h
  Step-IsAccounted {r} (lose before after m split e) h =
      rw e (Perm.trans h (rw split (perm_last m before after r.confirmed r.lost)))
