-- ===== src/Metrics/Render.antt =====
-- src/metrics.rs: `render_prometheus`. How an f64 is shown is a parameter. `none` is a panic of an
-- index.
use kafka_proxy.Base.{
  ℕ, ◌+◌, ◌-◌, ◌/◌, ◌%◌, ◌^◌, ◌>>=◌, List, [], ◌∷◌, ◌++◌, concat, Option, none, some, if◌then◌else◌,
  ltb, ◌==◌,
}
use Prim.Native.String.{String}
use kafka_proxy.Text.{Text, codes}
use kafka_proxy.Text.Decimal.{decimal}
use kafka_proxy.Metrics.{Metrics}
use kafka_proxy.Metrics.Latency.{Histogram}

-- `{}` of an f64: a number of nanoseconds and of microseconds in seconds, and `h / (h + m)`.
pub record Floats : Type 0 where
  pub show_nanos : ℕ → Text
  pub show_micros : ℕ → Text
  pub show_ratio : ℕ → ℕ → Text

-- `{}` of an i64.
abbrev pub signed : ℕ → Text
signed x = if ltb x (2 ^ 63) then decimal x else b'-' ∷ decimal (2 ^ 64 - x)

-- A line that is pushed: `# ..`, or `name value`.
pub data Line : Type 0 where
  comment : Text → Line
  sample : Text → Text → Line

unfoldable pub push_lines : List Line → Text
push_lines [] = []
push_lines (comment t ∷ ls) = b'#' ∷ b' ' ∷ (t ++ (10 ∷ push_lines ls))
push_lines (sample name value ∷ ls) = name ++ (b' ' ∷ (value ++ (10 ∷ push_lines ls)))

module _ (f : Floats) where
  unfoldable pub format_bucket : ℕ → Text
  format_bucket b =
      if b % 1_000_000_000 == 0 then decimal (b / 1_000_000_000) ++ codes ".0" else f.show_nanos b

  abbrev pub bucket_sample : Text → Text → ℕ → Line
  bucket_sample name le v =
      sample (name ++ (codes "_bucket{le=\"" ++ (le ++ codes "\"}"))) (decimal v)

  -- The buckets with their counts, and the last count for +Inf.
  unfoldable pub bucket_lines : Text → List ℕ → List ℕ → Option (List Line)
  bucket_lines name [] (inf ∷ vs) = some (bucket_sample name (codes "+Inf") inf ∷ [])
  bucket_lines name (b ∷ bs) (v ∷ vs) = do
    rest ← bucket_lines name bs vs
    some (bucket_sample name (format_bucket b) v ∷ rest)
  bucket_lines name bs [] = none

  unfoldable pub histogram_lines : Text → Histogram → Option (List Line)
  histogram_lines name h = do
    buckets ← bucket_lines name h.buckets h.counts
    some (
        buckets
        ++ (sample (name ++ codes "_sum") (f.show_micros h.sum_micros)
            ∷ sample (name ++ codes "_count") (decimal h.count)
            ∷ []))

  unfoldable pub hit_rate : ℕ → ℕ → Text
  hit_rate h m = if ltb 0 (h + m) then f.show_ratio h m else codes "0"

abbrev pub family : String → String → String → List Line → List Line
family name help kind ls =
    comment (codes "HELP " ++ (codes name ++ (b' ' ∷ codes help)))
    ∷ comment (codes "TYPE " ++ (codes name ++ (b' ' ∷ codes kind)))
    ∷ ls

abbrev pub single : String → String → String → Text → List Line
single name help kind value = family name help kind (sample (codes name) value ∷ [])

module _ (f : Floats) where
  -- The lines, with those of the three histograms.
  unfoldable pub metric_families :
      ℕ → Metrics → List Line → List Line → List Line → List (List Line)
  metric_families rss m acquire request handshake =
      family "kafka_proxy_frames_total" "Frames forwarded by direction." "counter" (
        sample (codes "kafka_proxy_frames_total{dir=\"downstream\"}") (decimal m.frames_downstream)
        ∷ sample (codes "kafka_proxy_frames_total{dir=\"upstream\"}") (decimal m.frames_upstream)
        ∷ [])
      ∷ family "kafka_proxy_bytes_total" "Bytes forwarded by direction." "counter" (
          sample (codes "kafka_proxy_bytes_total{dir=\"downstream\"}") (decimal m.bytes_downstream)
          ∷ sample (codes "kafka_proxy_bytes_total{dir=\"upstream\"}") (decimal m.bytes_upstream)
          ∷ [])
      ∷ single "kafka_proxy_requests_in_flight" "In-flight requests." "gauge"
          (signed m.requests_in_flight)
      ∷ single "kafka_proxy_downstream_connections" "Active downstream connections." "gauge"
          (signed m.downstream_connections)
      ∷ single "kafka_proxy_upstream_connections" "Active upstream pooled connections." "gauge"
          (signed m.upstream_connections)
      ∷ single "kafka_proxy_pool_hits_total" "Pool acquire hits." "counter" (decimal m.pool_hits)
      ∷ single "kafka_proxy_pool_misses_total" "Pool acquire misses." "counter"
          (decimal m.pool_misses)
      ∷ single "kafka_proxy_pool_evictions_total" "Pool connection evictions." "counter"
          (decimal m.pool_evictions)
      ∷ single "kafka_proxy_pool_waiters" "Requests waiting for a pooled connection." "gauge"
          (signed m.pool_waiters)
      ∷ single "kafka_proxy_pool_hit_rate" "Derived pool hit rate." "gauge"
          (hit_rate f m.pool_hits m.pool_misses)
      ∷ single "kafka_proxy_auth_failures_total" "Upstream authentication failures." "counter"
          (decimal m.auth_failures)
      ∷ family "kafka_proxy_acquire_duration_seconds"
          "Time waiting to acquire an upstream connection." "histogram" acquire
      ∷ family "kafka_proxy_request_duration_seconds" "End-to-end request latency." "histogram"
          request
      ∷ family "kafka_proxy_handshake_duration_seconds" "Upstream GSSAPI/TLS handshake duration."
          "histogram" handshake
      ∷ single "kafka_proxy_process_resident_memory_bytes" "Process RSS bytes." "gauge"
          (decimal rss)
      ∷ single "kafka_proxy_cid_map_entries" "correlation_id remap table entries." "gauge"
          (signed m.cid_map_entries)
      ∷ []

  -- `rss` is what `process_rss_bytes` returns.
  unfoldable pub render_prometheus : ℕ → Metrics → Option Text
  render_prometheus rss m = do
    acquire ← histogram_lines f (codes "kafka_proxy_acquire_duration_seconds") m.acquire_hist
    request ← histogram_lines f (codes "kafka_proxy_request_duration_seconds") m.request_hist
    handshake ← histogram_lines f (codes "kafka_proxy_handshake_duration_seconds") m.handshake_hist
    some (push_lines (concat (metric_families rss m acquire request handshake)))
