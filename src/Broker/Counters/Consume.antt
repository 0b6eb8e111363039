-- ===== src/Broker/Counters/Consume.antt =====
-- broker/consume.go: `incConsume`, and what a run of dispatches counts.
use go_platform_kit.Common.{
  ◌≡◌, refl, sym, ◌∙◌, ℕ, zero, suc, ◌+◌, Bool, Option, none, some, List, [], ◌∷◌, map, All, Text,
  text_eq, ◌==◌, text_beq, text_beq_iff, bytes, arith, lookup, if◌then◌else◌,
}
use go_platform_kit.Broker.Envelope.{Envelope}
use go_platform_kit.Broker.Publish.{Reply}
use go_platform_kit.Broker.Dispatch.{
  IdempotencyStore, DispatchError, Call, check, handle, mark, Dispatched, Handler, dispatch,
}
use go_platform_kit.Broker.Dispatch.Branches.{
  Branch, undecoded, invalid, unchecked, duplicate, unhandled, unmarked, processed, dispatch-Branch,
}
use go_platform_kit.Observability.Metrics.{
  RegistryOps, label_outcome, outcome_success, outcome_error, metric_broker_consume_total, series,
  inc_counter,
}
use go_platform_kit.Observability.Metrics.Injective.{IsDelimited, Lacks, any-Lacks, series_inj}
use go_platform_kit.Broker.Counters.Laws.{CounterLaws}

abbrev pub outcome_duplicate : Text
outcome_duplicate = bytes "duplicate"

abbrev pub outcome_invalid : Text
outcome_invalid = bytes "invalid"

abbrev pub consume_labels : (outcome : Text) → List (Text × Text)
consume_labels outcome = (label_outcome, outcome) ∷ []

-- How many returned nil, and how many an error.
abbrev pub acks : List (Option DispatchError) → ℕ
acks [] = zero
acks (none ∷ es) = suc (acks es)
acks (some _ ∷ es) = acks es

abbrev pub naks : List (Option DispatchError) → ℕ
naks [] = zero
naks (none ∷ es) = naks es
naks (some _ ∷ es) = suc (naks es)

module _ (quote : Text → Text) {M Seconds : Type 0} (ops : RegistryOps M Seconds) where
  -- `incConsume`
  unfoldable pub inc_consume : M → (outcome : Text) → M
  inc_consume m outcome =
      inc_counter quote ops m metric_broker_consume_total (consume_labels outcome)

  -- The registry after the calls of a dispatch.
  unfoldable pub counted : M → List Call → M
  counted m [] = m
  counted m (Call.inc_consume outcome ∷ calls) = counted (inc_consume m outcome) calls
  counted m (check _ ∷ calls) = counted m calls
  counted m (handle _ _ ∷ calls) = counted m calls
  counted m (mark _ ∷ calls) = counted m calls

  abbrev consume_series : Text → Text
  consume_series outcome = series quote metric_broker_consume_total (consume_labels outcome)

  outcome_at : (outcome : Text) → lookup label_outcome (consume_labels outcome) ≡ some outcome
  unfolding lookup bytes text_beq
  outcome_at outcome = refl

  name-Lacks : Lacks b'{' metric_broker_consume_total
  unfolding bytes
  name-Lacks = any-Lacks b'{' metric_broker_consume_total refl

  labels-Lack : (outcome : Text) → All (Lacks b'=') (map (λ e. e.0) (consume_labels outcome))
  unfolding bytes
  labels-Lack outcome = (any-Lacks b'=' label_outcome refl, tt)

  consume_series_inj :
      (o o' : Text) → IsDelimited quote → consume_series o ≡ consume_series o' → o ≡ o'
  consume_series_inj o o' delimited e =
      let (_, same) =
        series_inj quote metric_broker_consume_total metric_broker_consume_total (consume_labels o)
          (consume_labels o') delimited name-Lacks name-Lacks (labels-Lack o) (labels-Lack o') e in
      let both : some o ≡ some o' = sym (outcome_at o) ∙ (same label_outcome ∙ outcome_at o') in
      ground arith

  module _ (laws : CounterLaws ops) (delimited : IsDelimited quote) where
    count_at : M → Text → ℕ
    count_at m outcome = laws.count m (consume_series outcome)

    count_at-inc_consume :
        (m : M) (o asked : Text)
        → count_at (inc_consume m o) asked
          ≡ (if o == asked then suc (count_at m asked) else count_at m asked)
    unfolding count_at inc_consume inc_counter
    count_at-inc_consume m o asked = ground (
      arith,
      laws.count_inc m (consume_series o) (consume_series asked),
      text_beq_iff (consume_series o) (consume_series asked),
      text_beq_iff o asked,
      consume_series_inj o asked delimited,
    )

    -- The counts of dispatches that returned nil, and of those that returned an error.
    pub fine : M → ℕ
    fine m = count_at m outcome_success + count_at m outcome_duplicate

    pub wrong : M → ℕ
    wrong m = count_at m outcome_error + count_at m outcome_invalid

    Adds : ℕ → ℕ → M → M → Type 0
    Adds a b m m' = (fine m' ≡ fine m + a) × (wrong m' ≡ wrong m + b)

    add_one : ℕ → Bool → ℕ
    add_one n b = if b then suc n else n

    fine-inc_consume :
        (m : M) (o : Text)
        → (fine (inc_consume m o)
            ≡ add_one (count_at m outcome_success) (o == outcome_success)
              + add_one (count_at m outcome_duplicate) (o == outcome_duplicate))
          × (wrong (inc_consume m o)
              ≡ add_one (count_at m outcome_error) (o == outcome_error)
                + add_one (count_at m outcome_invalid) (o == outcome_invalid))
    unfolding fine wrong add_one
    fine-inc_consume m o = (
      rw (count_at-inc_consume m o outcome_success, count_at-inc_consume m o outcome_duplicate)
          refl,
      rw (count_at-inc_consume m o outcome_error, count_at-inc_consume m o outcome_invalid) refl,
    )

    Adds-success : (m : M) → Adds 1 0 m (inc_consume m outcome_success)
    unfolding Adds fine wrong add_one bytes text_beq
    Adds-success m = omega (arith, fine-inc_consume m outcome_success)

    Adds-duplicate : (m : M) → Adds 1 0 m (inc_consume m outcome_duplicate)
    unfolding Adds fine wrong add_one bytes text_beq
    Adds-duplicate m = omega (arith, fine-inc_consume m outcome_duplicate)

    Adds-error : (m : M) → Adds 0 1 m (inc_consume m outcome_error)
    unfolding Adds fine wrong add_one bytes text_beq
    Adds-error m = omega (arith, fine-inc_consume m outcome_error)

    Adds-invalid : (m : M) → Adds 0 1 m (inc_consume m outcome_invalid)
    unfolding Adds fine wrong add_one bytes text_beq
    Adds-invalid m = omega (arith, fine-inc_consume m outcome_invalid)

    module _ {S W Value : Type 0} (from_json : Text → Reply (Envelope Value))
        (store : IdempotencyStore S) (handler : Handler W Value) where
      abbrev pub dispatched : S → W → Text → Dispatched S W
      dispatched s w payload = dispatch from_json (some store) (some handler) s w payload

      Branch-Adds :
          (s : S) (w : W) (payload : Text) (m : M) (d : Dispatched S W)
          → Branch from_json store handler s w payload d
          → Adds (acks (d.error ∷ [])) (naks (d.error ∷ [])) m (counted m d.calls)
      unfolding counted
      Branch-Adds s w payload m d (undecoded e bad same) = rw same (Adds-invalid m)
      Branch-Adds s w payload m d (invalid ev e good v same) = rw same (Adds-invalid m)
      Branch-Adds s w payload m d (unchecked ev e good v c same) = rw same (Adds-error m)
      Branch-Adds s w payload m d (duplicate ev good v c same) = rw same (Adds-duplicate m)
      Branch-Adds s w payload m d (unhandled ev e good v c f same) = rw same (Adds-error m)
      Branch-Adds s w payload m d (unmarked ev e good v c f g same) = rw same (Adds-error m)
      Branch-Adds s w payload m d (processed ev good v c f g same) = rw same (Adds-success m)

      -- Payloads one after the other: the registry that is left, and what each dispatch returned.
      unfoldable pub dispatch_all : S → W → M → List Text → M × List (Option DispatchError)
      dispatch_all s w m [] = (m, [])
      dispatch_all s w m (payload ∷ payloads) =
          let d = dispatched s w payload in
          let rest = dispatch_all d.store d.world (counted m d.calls) payloads in
          (rest.0, d.error ∷ rest.1)

      -- In a registry of a metrics library that keeps its laws, and with a quoting that is
      -- delimited: a run of dispatches over a store adds to the counts of successes and duplicates
      -- together one for each that returned nil, and to those of errors and invalid events together
      -- one for each that returned an error.
      pub dispatch_all-counts :
          (payloads : List Text) (s : S) (w : W) (m : M)
          → (fine (dispatch_all s w m payloads).0 ≡ fine m + acks (dispatch_all s w m payloads).1)
            × (wrong (dispatch_all s w m payloads).0
                ≡ wrong m + naks (dispatch_all s w m payloads).1)
      unfolding dispatch_all Adds
      dispatch_all-counts [] s w m = omega arith
      dispatch_all-counts (payload ∷ payloads) s w m =
          let d = dispatched s w payload in
          let one =
            Branch-Adds s w payload m d (dispatch-Branch from_json store handler s w payload) in
          let rest = dispatch_all-counts payloads d.store d.world (counted m d.calls) in
          ground (arith, one, rest)
