-- ===== src/Natsbroker/Lifecycle/Laws.antt =====
-- What `Start` and `Stop` do to the subscriptions that run.
use go_platform_kit.Common.{
  ◌≡◌, refl, ap, ◌∙◌, ℕ, zero, suc, Option, none, some, List, [], ◌∷◌, ◌++◌, Text, length,
}
use go_platform_kit.Broker.Envelope.{Envelope}
use go_platform_kit.Broker.Publish.{Reply, ok}
use go_platform_kit.Natsbroker.{Consumer, on_message}
use go_platform_kit.Natsbroker.Lifecycle.{Subscriptions, Callback, start, stop}

module _ {S W Value Cons Sub J : Type 0} (from_json : Text → Reply (Envelope Value))
    (client : Subscriptions S W Cons Sub J) where
  -- The subscriptions that run, the newest first: a call to consume adds one, and a call to stop the
  -- newest takes it away. The client does not fail.
  pub record SubscriptionsLaws : Type 0 where
    pub running : J → List Sub
    pub consumes :
        (j : J) (cons : Cons) (f : Callback S W)
        → (sub : Sub) × ((client.consume j cons f).1 ≡ ok sub)
          × (running (client.consume j cons f).0 ≡ sub ∷ running j)
    pub stops :
        (j : J) (sub : Sub) (rest : List Sub)
        → running j ≡ sub ∷ rest
        → running (client.stop j sub) ≡ rest

  -- A number of calls of `Start` in a row.
  unfoldable pub starts :
      ℕ → J → Consumer S W Value Cons Sub → J × Option (Consumer S W Value Cons Sub)
  starts zero j c = (j, some c)
  starts (suc n) j c =
      let r = starts n j c in let r' = start from_json client r.0 r.1 in (r'.0, r'.1)

  module _ (laws : SubscriptionsLaws) where
    -- A start of a consumer that is made succeeds, and adds a subscription, which the consumer holds.
    pub start_lem :
        (j : J) (c : Consumer S W Value Cons Sub) (cons : Cons)
        → c.cons ≡ some cons
        → (sub : Sub) × ((start from_json client j (some c)).1 ≡ some (record c { cc = some sub }))
          × ((start from_json client j (some c)).2 ≡ none)
          × (laws.running (start from_json client j (some c)).0 ≡ sub ∷ laws.running j)
    unfolding start
    start_lem j c cons made =
        let (sub, answer, runs) = laws.consumes j cons (on_message from_json c) in
        (
          sub,
          simp (made, start, answer),
          simp (made, start, answer),
          simp (made, start, answer, runs),
        )

    -- The consumer is made, and a number of new subscriptions run over the earlier ones.
    Ready : Cons → ℕ → J → J × Option (Consumer S W Value Cons Sub) → Type 0
    Ready cons n j t =
        (c : Consumer S W Value Cons Sub) × (t.1 ≡ some c)
        × (c.cons ≡ some cons)
        × ((new : List Sub) × (length new ≡ n) × (laws.running t.0 ≡ new ++ laws.running j))

    starts-Ready :
        (n : ℕ) (j : J) (c : Consumer S W Value Cons Sub) (cons : Cons)
        → c.cons ≡ some cons
        → Ready cons n j (starts n j c)
    unfolding starts Ready
    starts-Ready zero j c cons made = (c, refl, made, ([], refl, refl))
    starts-Ready (suc n) j c cons made =
        let (c', e, made', (new, count, runs)) = starts-Ready n j c cons made in
        let (sub, left, fine, runs') = start_lem (starts n j c).0 c' cons made' in
        (
          record c' { cc = some sub },
          rw e left,
          made',
          (sub ∷ new, ap suc count, rw e (runs' ∙ ap (λ xs. sub ∷ xs) runs)),
        )

    -- With a client that keeps its laws: `n + 1` calls of `Start` of a consumer that is made, and then
    -- one of `Stop`, leave the subscriptions running that ran before and `n` more: the subscriptions
    -- of the first `n` calls are not stopped.
    pub stop-starts :
        (n : ℕ) (j : J) (c : Consumer S W Value Cons Sub) (cons : Cons)
        → c.cons ≡ some cons
        → let r = starts (suc n) j c in
          (earlier : List Sub) × (length earlier ≡ n)
          × (laws.running (stop from_json client r.0 r.1) ≡ earlier ++ laws.running j)
    unfolding Ready starts stop
    stop-starts n j c cons made =
        let (c', e, made', (new, count, runs)) = starts-Ready n j c cons made in
        let (sub, left, fine, runs') = start_lem (starts n j c).0 c' cons made' in
        (new, count, rw e (rw left (laws.stops _ sub _ runs' ∙ runs)))
