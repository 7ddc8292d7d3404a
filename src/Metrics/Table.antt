-- ===== src/Metrics/Table.antt =====
-- src/metrics.rs: the metrics by name and value, and that `render_prometheus` shows them.
use kafka_proxy.Base.{
  zero, suc, ℕ, ◌+◌, ◌/◌, ◌%◌, ◌≡◌, refl, ap, ◌∙◌, true, List, [], ◌∷◌, ◌++◌, concat, some, ◌==◌,
  All, length, arith, Bool-cases, inl, inr,
}
use kafka_proxy.Text.{Text, codes}
use kafka_proxy.Text.Decimal.{decimal}
use kafka_proxy.Text.Plain.{Without, All-append}
use kafka_proxy.Metrics.{Metrics}
use kafka_proxy.Metrics.Latency.{
  Histogram, zeros, with_buckets, add_from, bucket_index, observe, observe_all,
}
use kafka_proxy.Metrics.Render.{
  Floats, Line, sample, signed, format_bucket, bucket_sample, bucket_lines, histogram_lines,
  hit_rate,
}
use kafka_proxy.Metrics.Clean.{
  is_line, line_lem, samples_of-append, Lines-append, is_name-append, decimal-IsPlain,
}
use kafka_proxy.Metrics.Samples.{PlainFloats, samples_of, is_name, IsPlain, IsClean}

-- The name of a bucket, the count of each, and the sum and the count of all.
abbrev pub bucket_name : Text → Text → Text
bucket_name name le = name ++ (codes "_bucket{le=\"" ++ (le ++ codes "\"}"))

unfoldable pub bucket_values : Floats → Text → List ℕ → List ℕ → List (Text × Text)
bucket_values f name (b ∷ bs) (v ∷ vs) =
    (bucket_name name (format_bucket f b), decimal v) ∷ bucket_values f name bs vs
bucket_values f name [] (v ∷ vs) = (bucket_name name (codes "+Inf"), decimal v) ∷ []
bucket_values f name bs [] = []

abbrev pub histogram_values : Floats → Text → Histogram → List (Text × Text)
histogram_values f name h =
    bucket_values f name h.buckets h.counts
    ++ ((name ++ codes "_sum", f.show_micros h.sum_micros)
        ∷ (name ++ codes "_count", decimal h.count)
        ∷ [])

-- One count for each bucket and one for +Inf.
abbrev pub IsShaped : Histogram → Type 0
IsShaped h = length h.counts ≡ length h.buckets + 1

-- Every metric.
unfoldable pub metric_values : Floats → ℕ → Metrics → List (Text × Text)
metric_values f rss m = concat (
    ((codes "kafka_proxy_frames_total{dir=\"downstream\"}", decimal m.frames_downstream)
      ∷ (codes "kafka_proxy_frames_total{dir=\"upstream\"}", decimal m.frames_upstream)
      ∷ [])
    ∷ ((codes "kafka_proxy_bytes_total{dir=\"downstream\"}", decimal m.bytes_downstream)
        ∷ (codes "kafka_proxy_bytes_total{dir=\"upstream\"}", decimal m.bytes_upstream)
        ∷ [])
    ∷ ((codes "kafka_proxy_requests_in_flight", signed m.requests_in_flight) ∷ [])
    ∷ ((codes "kafka_proxy_downstream_connections", signed m.downstream_connections) ∷ [])
    ∷ ((codes "kafka_proxy_upstream_connections", signed m.upstream_connections) ∷ [])
    ∷ ((codes "kafka_proxy_pool_hits_total", decimal m.pool_hits) ∷ [])
    ∷ ((codes "kafka_proxy_pool_misses_total", decimal m.pool_misses) ∷ [])
    ∷ ((codes "kafka_proxy_pool_evictions_total", decimal m.pool_evictions) ∷ [])
    ∷ ((codes "kafka_proxy_pool_waiters", signed m.pool_waiters) ∷ [])
    ∷ ((codes "kafka_proxy_pool_hit_rate", hit_rate f m.pool_hits m.pool_misses) ∷ [])
    ∷ ((codes "kafka_proxy_auth_failures_total", decimal m.auth_failures) ∷ [])
    ∷ histogram_values f (codes "kafka_proxy_acquire_duration_seconds") m.acquire_hist
    ∷ histogram_values f (codes "kafka_proxy_request_duration_seconds") m.request_hist
    ∷ histogram_values f (codes "kafka_proxy_handshake_duration_seconds") m.handshake_hist
    ∷ ((codes "kafka_proxy_process_resident_memory_bytes", decimal rss) ∷ [])
    ∷ ((codes "kafka_proxy_cid_map_entries", signed m.cid_map_entries) ∷ [])
    ∷ [])

format_bucket_line : (f : Floats) → PlainFloats f → (b : ℕ) → Without 10 (format_bucket f b)
unfolding format_bucket
format_bucket_line f floats b = elim (Bool-cases (b % 1_000_000_000 == 0)) [
  | inl whole ↦ rw whole (
      All-append _ (decimal (b / 1_000_000_000)) (codes ".0")
        (decimal-IsPlain (b / 1_000_000_000)).0 (refl, (refl, tt)))
  | inr part ↦ rw part ((floats.show_nanos-IsPlain b).0)
]

module _ (f : Floats) (floats : PlainFloats f) (name : Text) (starts : is_name name ≡ true)
    (one_line : is_line name ≡ true) where
  bucket_sample-IsClean : (le : Text) (v : ℕ) → Without 10 le → IsClean (bucket_sample f name le v)
  bucket_sample-IsClean le v plain = (
    is_name-append name _ starts,
    All-append _ name _ (line_lem name one_line) (
        All-append _ (codes "_bucket{le=\"") _ (line_lem (codes "_bucket{le=\"") refl)
          (All-append _ le (codes "\"}") plain (line_lem (codes "\"}") refl))),
    decimal-IsPlain v,
  )

  bucket_lines_lem :
      (bs vs : List ℕ)
      → length vs ≡ length bs + 1
      → (ls : List Line) × (bucket_lines f name bs vs ≡ some ls)
        × (samples_of ls ≡ bucket_values f name bs vs)
        × All IsClean ls
  unfolding bucket_lines bucket_values samples_of
  bucket_lines_lem [] [] shaped = ground (arith, shaped)
  bucket_lines_lem (b ∷ bs) [] shaped = ground (arith, shaped)
  bucket_lines_lem [] (v ∷ w ∷ vs) shaped = ground (arith, shaped)
  bucket_lines_lem [] (v ∷ []) shaped = (
    bucket_sample f name (codes "+Inf") v ∷ [],
    refl,
    refl,
    (bucket_sample-IsClean (codes "+Inf") v (line_lem (codes "+Inf") refl), tt),
  )
  bucket_lines_lem (b ∷ bs) (v ∷ vs) shaped =
      let (ls, e, values, clean) = bucket_lines_lem bs vs (omega (arith, shaped)) in
      (
        bucket_sample f name (format_bucket f b) v ∷ ls,
        rw e refl,
        ap (λ r. (bucket_name name (format_bucket f b), decimal v) ∷ r) values,
        (bucket_sample-IsClean (format_bucket f b) v (format_bucket_line f floats b), clean),
      )

  suffix_sample-IsClean :
      (suffix value : Text)
      → is_line suffix ≡ true
      → IsPlain value
      → IsClean (sample (name ++ suffix) value)
  suffix_sample-IsClean suffix value l v = (
    is_name-append name suffix starts,
    All-append _ name suffix (line_lem name one_line) (line_lem suffix l),
    v,
  )

  pub histogram_lines_lem :
      (h : Histogram)
      → IsShaped h
      → (ls : List Line) × (histogram_lines f name h ≡ some ls)
        × (samples_of ls ≡ histogram_values f name h)
        × All IsClean ls
  unfolding histogram_lines
  histogram_lines_lem h shaped =
      let (ls, e, values, clean) = bucket_lines_lem h.buckets h.counts shaped in
      let tail : List Line =
        sample (name ++ codes "_sum") (f.show_micros h.sum_micros)
        ∷ sample (name ++ codes "_count") (decimal h.count)
        ∷ [] in
      (
        ls ++ tail,
        rw e refl,
        samples_of-append ls tail ∙ rw values (unfold samples_of in refl),
        Lines-append ls tail clean (
          suffix_sample-IsClean (codes "_sum") (f.show_micros h.sum_micros) refl
              (floats.show_micros-IsPlain h.sum_micros),
          (
            suffix_sample-IsClean (codes "_count") (decimal h.count) refl (decimal-IsPlain h.count),
            tt,
          ),
        ),
      )

length-zeros : (bs : List ℕ) → length (zeros bs) ≡ length bs + 1
length-zeros [] = omega arith
length-zeros (b ∷ bs) = omega (arith, length-zeros bs)

-- A histogram begins in that shape, and stays in it.
pub with_buckets-IsShaped : (bs : List ℕ) → IsShaped (with_buckets bs)
unfolding with_buckets
with_buckets-IsShaped bs = length-zeros bs

length-add_from : (idx : ℕ) (vs : List ℕ) → length (add_from idx vs) ≡ length vs
unfolding add_from
length-add_from idx [] = refl
length-add_from zero (v ∷ vs) = omega (arith, length-add_from zero vs)
length-add_from (suc idx) (v ∷ vs) = omega (arith, length-add_from idx vs)

pub observe_all-IsShaped : (h : Histogram) (ns : List ℕ) → IsShaped h → IsShaped (observe_all h ns)
unfolding observe_all observe
observe_all-IsShaped h [] shaped = shaped
observe_all-IsShaped h (n ∷ ns) shaped =
    observe_all-IsShaped (observe h n) ns
      (length-add_from (bucket_index h.buckets n) h.counts ∙ shaped)
