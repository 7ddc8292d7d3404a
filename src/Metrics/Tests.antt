-- ===== src/Metrics/Tests.antt =====
-- Runs and witnesses for the metrics.
use kafka_proxy.Base.{ℕ, ◌≡◌, refl, false, List, [], ◌∷◌, arith, length}
use kafka_proxy.Metrics.{Metrics, new}
use kafka_proxy.Metrics.Latency.{
  default_buckets, with_buckets, observe, observe_all, bucket_index, add_from, expected,
  observe_all-expected,
}
use kafka_proxy.Metrics.Gating.{Call, collect, pool_hit, upstream_opens, upstream_closes}

-- 2 milliseconds, and 10 seconds.
latencies_run :
    (observe_all (with_buckets default_buckets) (2_000_000 ∷ 10_000_000_000 ∷ [])).counts
    ≡ 0 ∷ 0 ∷ 0 ∷ 1 ∷ 1 ∷ 1 ∷ 1 ∷ 1 ∷ 1 ∷ 1 ∷ 2 ∷ []
unfolding observe_all observe with_buckets bucket_index add_from
latencies_run = refl

abbrev latencies : List ℕ
latencies = 2_000_000 ∷ 10_000_000_000 ∷ []

observe_all-expected_example :
    ((observe_all (with_buckets default_buckets) latencies).counts
      ≡ expected default_buckets latencies)
    × ((observe_all (with_buckets default_buckets) latencies).count ≡ length latencies)
observe_all-expected_example =
    observe_all-expected default_buckets latencies
      (
        omega arith,
        (
          omega arith,
          (
            omega arith,
            (
              omega arith,
              (
                omega arith,
                (omega arith, (omega arith, (omega arith, (omega arith, (omega arith, tt))))),
              ),
            ),
          ),
        ),
      )
      (omega arith)

abbrev traffic : List Call
traffic = collect pool_hit ∷ upstream_opens ∷ upstream_opens ∷ upstream_closes ∷ []

abbrev off : Metrics
off = new false
