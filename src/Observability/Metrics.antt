-- ===== src/Observability/Metrics.antt =====
-- observability/metrics.go: `formatLabels`. A map of labels is an association list in some order of
-- its keys. `strconv.Quote`, which `%q` calls, is a parameter; `sort.Strings` sorts by bytes.
pub mod Laws
pub mod Injective
use go_platform_kit.Common.{
  ℕ, Bool, true, false, Option, none, some, List, [], ◌∷◌, ◌++◌, map, Text, text_eq, nat_eq,
  Comparable, ◌==◌, bytes, ltb, lookup, is_empty, if◌then◌else◌, option_or,
}

abbrev pub label_service : Text
label_service = bytes "service"

abbrev pub label_topic : Text
label_topic = bytes "topic"

abbrev pub label_outcome : Text
label_outcome = bytes "outcome"

abbrev pub outcome_success : Text
outcome_success = bytes "success"

abbrev pub outcome_error : Text
outcome_error = bytes "error"

abbrev pub metric_broker_publish_total : Text
metric_broker_publish_total = bytes "platform_broker_publish_total"

abbrev pub metric_broker_consume_total : Text
metric_broker_consume_total = bytes "platform_broker_consume_total"

-- The calls of the metrics library, with states `M` and durations `Seconds`: `Inc` of the counter and
-- `Update` of the histogram of a name, which are made at their first use.
pub record RegistryOps (M Seconds : Type 0) : Type 0 where
  pub inc : M → (name : Text) → M
  pub update : M → (name : Text) → Seconds → M

-- `<=` on Go's strings.
unfoldable pub text_le : Text → Text → Bool
text_le [] t = true
text_le (a ∷ s) [] = false
text_le (a ∷ s) (b ∷ t) =
    let rest = text_le s t in if ltb a b then true else if a == b then rest else false

unfoldable pub insert_sorted : Text → List Text → List Text
insert_sorted k [] = k ∷ []
insert_sorted k (j ∷ js) =
    let rest = insert_sorted k js in if text_le k j then k ∷ j ∷ js else j ∷ rest

-- `sort.Strings`
unfoldable pub sort_strings : List Text → List Text
sort_strings [] = []
sort_strings (k ∷ ks) = insert_sorted k (sort_strings ks)

module _ (quote : Text → Text) where
  -- `%s=%q`; a missing key would read as the empty string.
  unfoldable pub format_label : List (Text × Text) → Text → Text
  format_label labels k = k ++ b'=' ∷ quote (option_or (lookup k labels) [])

  -- The loop over the sorted keys; a comma stands before all but the first.
  unfoldable pub format_from : List (Text × Text) → Bool → List Text → Text
  format_from labels first [] = []
  format_from labels first (k ∷ ks) =
      let rest = format_label labels k ++ format_from labels false ks in
      if first then rest else b',' ∷ rest

  unfoldable pub format_labels : List (Text × Text) → Text
  format_labels labels =
      if is_empty labels
      then []
      else b'{' ∷ (format_from labels true (sort_strings (map (λ e. e.0) labels)) ++ b'}' ∷ [])

  -- The name of the series that `IncCounter` and `ObserveSeconds` ask for.
  unfoldable pub series : Text → List (Text × Text) → Text
  series name labels = name ++ format_labels labels

  module _ {M Seconds : Type 0} (ops : RegistryOps M Seconds) where
    -- `IncCounter`
    unfoldable pub inc_counter : M → Text → List (Text × Text) → M
    inc_counter m name labels = ops.inc m (series name labels)

    -- `ObserveSeconds`
    unfoldable pub observe_seconds : M → Text → List (Text × Text) → Seconds → M
    observe_seconds m name labels seconds = ops.update m (series name labels) seconds
