-- ===== src/Metrics/Exposition.antt =====
-- src/metrics.rs: `render_prometheus` shows every metric.
use kafka_proxy.Base.{ℕ, ◌≡◌, refl, ◌∙◌, List, [], ◌∷◌, concat, some, All}
use kafka_proxy.Text.{Text, codes}
use kafka_proxy.Text.Decimal.{decimal}
use kafka_proxy.Metrics.{Metrics}
use kafka_proxy.Metrics.Render.{
  Floats, Line, sample, push_lines, signed, hit_rate, metric_families, render_prometheus,
}
use kafka_proxy.Metrics.Samples.{PlainFloats, read_samples, samples_of, IsClean, read-push_lines}
use kafka_proxy.Metrics.Clean.{
  samples_of-concat, Lines-concat, decimal-IsPlain, signed-IsPlain, hit_rate-IsPlain,
  sample-IsClean, family-IsClean, single-IsClean,
}
use kafka_proxy.Metrics.Table.{IsShaped, metric_values, histogram_values, histogram_lines_lem}

metric_families-IsClean :
    (f : Floats) (floats : PlainFloats f) (rss : ℕ) (m : Metrics)
    (acquire request handshake : List Line)
    → All IsClean acquire
    → All IsClean request
    → All IsClean handshake
    → All (All IsClean) (metric_families f rss m acquire request handshake)
unfolding metric_families
metric_families-IsClean f floats rss m acquire request handshake acquire_clean request_clean
      handshake_clean =
    (
      (family-IsClean "kafka_proxy_frames_total" "Frames forwarded by direction." "counter"
          (sample (codes "kafka_proxy_frames_total{dir=\"downstream\"}")
              (decimal m.frames_downstream)
            ∷ sample (codes "kafka_proxy_frames_total{dir=\"upstream\"}")
                (decimal m.frames_upstream)
            ∷ [])
          refl refl refl
          (
            sample-IsClean "kafka_proxy_frames_total{dir=\"downstream\"}"
                (decimal m.frames_downstream) refl refl (decimal-IsPlain (m.frames_downstream)),
            (
              sample-IsClean "kafka_proxy_frames_total{dir=\"upstream\"}"
                  (decimal m.frames_upstream) refl refl (decimal-IsPlain (m.frames_upstream)),
              tt,
            ),
          )),
      (
        (family-IsClean "kafka_proxy_bytes_total" "Bytes forwarded by direction." "counter"
            (sample (codes "kafka_proxy_bytes_total{dir=\"downstream\"}")
                (decimal m.bytes_downstream)
              ∷ sample (codes "kafka_proxy_bytes_total{dir=\"upstream\"}")
                  (decimal m.bytes_upstream)
              ∷ [])
            refl refl refl
            (
              sample-IsClean "kafka_proxy_bytes_total{dir=\"downstream\"}"
                  (decimal m.bytes_downstream) refl refl (decimal-IsPlain (m.bytes_downstream)),
              (
                sample-IsClean "kafka_proxy_bytes_total{dir=\"upstream\"}"
                    (decimal m.bytes_upstream) refl refl (decimal-IsPlain (m.bytes_upstream)),
                tt,
              ),
            )),
        (
          (single-IsClean "kafka_proxy_requests_in_flight" "In-flight requests." "gauge"
              (signed m.requests_in_flight) refl refl refl refl
              (signed-IsPlain (m.requests_in_flight))),
          (
            (single-IsClean "kafka_proxy_downstream_connections" "Active downstream connections."
                "gauge" (signed m.downstream_connections) refl refl refl refl
                (signed-IsPlain (m.downstream_connections))),
            (
              (single-IsClean "kafka_proxy_upstream_connections"
                  "Active upstream pooled connections." "gauge" (signed m.upstream_connections) refl
                  refl refl refl (signed-IsPlain (m.upstream_connections))),
              (
                (single-IsClean "kafka_proxy_pool_hits_total" "Pool acquire hits." "counter"
                    (decimal m.pool_hits) refl refl refl refl (decimal-IsPlain (m.pool_hits))),
                (
                  (single-IsClean "kafka_proxy_pool_misses_total" "Pool acquire misses." "counter"
                      (decimal m.pool_misses) refl refl refl refl
                      (decimal-IsPlain (m.pool_misses))),
                  (
                    (single-IsClean "kafka_proxy_pool_evictions_total" "Pool connection evictions."
                        "counter" (decimal m.pool_evictions) refl refl refl refl
                        (decimal-IsPlain (m.pool_evictions))),
                    (
                      (single-IsClean "kafka_proxy_pool_waiters"
                          "Requests waiting for a pooled connection." "gauge"
                          (signed m.pool_waiters) refl refl refl refl
                          (signed-IsPlain (m.pool_waiters))),
                      (
                        (single-IsClean "kafka_proxy_pool_hit_rate" "Derived pool hit rate." "gauge"
                            (hit_rate f m.pool_hits m.pool_misses) refl refl refl refl
                            (hit_rate-IsPlain f floats m.pool_hits m.pool_misses)),
                        (
                          (single-IsClean "kafka_proxy_auth_failures_total"
                              "Upstream authentication failures." "counter"
                              (decimal m.auth_failures) refl refl refl refl
                              (decimal-IsPlain (m.auth_failures))),
                          (
                            (family-IsClean "kafka_proxy_acquire_duration_seconds"
                                "Time waiting to acquire an upstream connection." "histogram"
                                acquire refl refl refl acquire_clean),
                            (
                              (family-IsClean "kafka_proxy_request_duration_seconds"
                                  "End-to-end request latency." "histogram" request refl refl refl
                                  request_clean),
                              (
                                (family-IsClean "kafka_proxy_handshake_duration_seconds"
                                    "Upstream GSSAPI/TLS handshake duration." "histogram" handshake
                                    refl refl refl handshake_clean),
                                (
                                  (single-IsClean "kafka_proxy_process_resident_memory_bytes"
                                      "Process RSS bytes." "gauge" (decimal rss) refl refl refl refl
                                      (decimal-IsPlain (rss))),
                                  (
                                    (single-IsClean "kafka_proxy_cid_map_entries"
                                        "correlation_id remap table entries." "gauge"
                                        (signed m.cid_map_entries) refl refl refl refl
                                        (signed-IsPlain (m.cid_map_entries))),
                                    tt,
                                  ),
                                ),
                              ),
                            ),
                          ),
                        ),
                      ),
                    ),
                  ),
                ),
              ),
            ),
          ),
        ),
      ),
    )

samples_of-metric_families :
    (f : Floats) (rss : ℕ) (m : Metrics) (acquire request handshake : List Line)
    → samples_of acquire
      ≡ histogram_values f (codes "kafka_proxy_acquire_duration_seconds") m.acquire_hist
    → samples_of request
      ≡ histogram_values f (codes "kafka_proxy_request_duration_seconds") m.request_hist
    → samples_of handshake
      ≡ histogram_values f (codes "kafka_proxy_handshake_duration_seconds") m.handshake_hist
    → samples_of (concat (metric_families f rss m acquire request handshake))
      ≡ metric_values f rss m
unfolding metric_families metric_values
samples_of-metric_families f rss m acquire request handshake a r h =
    samples_of-concat (metric_families f rss m acquire request handshake)
    ∙ (unfold samples_of in rw (← a, ← r, ← h) refl)

-- The text for Prometheus can be read back. If each histogram has one count for each bucket and one
-- more, and a float is shown without a blank or a newline, the text is produced, and a reader who
-- takes its lines apart, passing over comments, gets every counter, gauge and histogram of the
-- proxy under its name, with its value.
pub render_prometheus-read_samples :
    (f : Floats) (rss : ℕ) (m : Metrics)
    → PlainFloats f
    → IsShaped m.acquire_hist
    → IsShaped m.request_hist
    → IsShaped m.handshake_hist
    → (t : Text) × (render_prometheus f rss m ≡ some t) × (read_samples t ≡ metric_values f rss m)
unfolding render_prometheus
render_prometheus-read_samples f rss m floats acquire request handshake =
    let (qs, a, a_values, a_clean) =
      histogram_lines_lem f floats (codes "kafka_proxy_acquire_duration_seconds") refl refl
        m.acquire_hist acquire in
    let (rs, r, r_values, r_clean) =
      histogram_lines_lem f floats (codes "kafka_proxy_request_duration_seconds") refl refl
        m.request_hist request in
    let (hs, h, h_values, h_clean) =
      histogram_lines_lem f floats (codes "kafka_proxy_handshake_duration_seconds") refl refl
        m.handshake_hist handshake in
    let ls = metric_families f rss m qs rs hs in
    (
      push_lines (concat ls),
      rw (a, r, h) refl,
      read-push_lines (concat ls) (
            Lines-concat ls
              (metric_families-IsClean f floats rss m qs rs hs a_clean r_clean h_clean))
          ∙ samples_of-metric_families f rss m qs rs hs a_values r_values h_values,
    )
