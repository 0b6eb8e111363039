-- ===== src/Broker/Counters/Laws.antt =====
-- What a counter of the metrics library is taken to do.
use go_platform_kit.Common.{◌≡◌, ℕ, suc, Text, text_eq, ◌==◌, if◌then◌else◌}
use go_platform_kit.Observability.Metrics.{RegistryOps}

-- What the metrics library documents of a counter: a call of `Inc` adds one to it, and to no other.
pub record CounterLaws {M Seconds : Type 0} (ops : RegistryOps M Seconds) : Type 0 where
  pub count : M → Text → ℕ
  pub count_inc :
      (m : M) (name asked : Text)
      → count (ops.inc m name) asked
        ≡ (if name == asked then suc (count m asked) else count m asked)
