-- ===== src/Natsbroker/Drain/Held.antt =====
-- A message that a round keeps exactly if it was not acknowledged.
use go_platform_kit.Common.{
  ◌≡◌, ◌⊎◌, inl, inr, refl, ℕ, ◌≤◌, ◌<◌, Bool, true, false, List, [], ◌∷◌, arith, All,
  if◌then◌else◌,
}

pub keep_held :
    {A : Type 0} (b : Bool) (m : A) (P : A → Type 0) (ms : List A)
    → P m
    → All P ms
    → All P (if b then ms else (m ∷ ms))
keep_held true m P ms p h = h
keep_held false m P ms p h = (p, h)

pub held_settled :
    {A : Type 0} (b : Bool) (m : A) (P : A → Type 0) (ms ns : List A)
    → (b ≡ true → P m)
    → (All P ns → All P ms)
    → All P (if b then ns else (m ∷ ns))
    → All P (m ∷ ms)
held_settled true m P ms ns done rest h = (done refl, rest h)
held_settled false m P ms ns done rest h = (h.0, rest h.1)

pub held_spent :
    {A : Type 0} (b : Bool) (m : A) (ms : List A) (i j k : ℕ)
    → k ≤ j
    → j ≤ i
    → (b ≡ true) ⊎ (j < i)
    → (ms ≡ []) ⊎ (k < j)
    → ((if b then ms else (m ∷ ms)) ≡ []) ⊎ (k < i)
held_spent true m ms i j k kj ji first (inl e) = inl e
held_spent true m ms i j k kj ji first (inr less) = inr (omega arith)
held_spent false m ms i j k kj ji (inl absurd_ack) rest = absurd (ground arith)
held_spent false m ms i j k kj ji (inr less) rest = inr (omega arith)
