-- ===== src/Metrics/RenderTests.antt =====
-- Runs and witnesses for the text of the metrics.
use kafka_proxy.Base.{◌≡◌, refl, true, some}
use kafka_proxy.Text.{
  Text, codes, is_whitespace, trim, trim_start, trim_end, parse_unsigned, parse_digits,
}
use kafka_proxy.Text.Decimal.{decimal}
use kafka_proxy.Metrics.{Metrics, new, inc_pool_hits}
use kafka_proxy.Metrics.Latency.{observe, new as new_histogram, with_buckets}
use kafka_proxy.Metrics.Render.{Floats, render_prometheus}
use kafka_proxy.Metrics.Samples.{PlainFloats, read_samples}
use kafka_proxy.Metrics.Clean.{decimal-IsPlain}
use kafka_proxy.Metrics.Table.{metric_values}
use kafka_proxy.Metrics.Exposition.{render_prometheus-read_samples}
use kafka_proxy.Metrics.Process.{process_rss_bytes, page_size_kb, split_whitespace}

-- Floats shown as whole numbers.
abbrev floats : Floats
floats = record { show_nanos = decimal; show_micros = decimal; show_ratio = λ h m. decimal h }

plain : PlainFloats floats
plain = record {
  show_nanos-IsPlain = decimal-IsPlain;
  show_micros-IsPlain = decimal-IsPlain;
  show_ratio-IsPlain = λ h m. decimal-IsPlain h;
}

abbrev metrics : Metrics
metrics =
    let m = inc_pool_hits (new true) in record m { request_hist = observe m.request_hist 2_000_000 }

render_prometheus-read_samples_example :
    (t : Text) × (render_prometheus floats 4096 metrics ≡ some t)
    × (read_samples t ≡ metric_values floats 4096 metrics)
render_prometheus-read_samples_example =
    render_prometheus-read_samples floats 4096 metrics plain
      (unfold new inc_pool_hits new_histogram with_buckets in refl)
      (unfold new inc_pool_hits new_histogram with_buckets observe in refl)
      (unfold new inc_pool_hits new_histogram with_buckets in refl)

-- 100 pages of 4 KiB.
rss_run :
    process_rss_bytes (some (codes "500 100 7\n")) (page_size_kb (some (codes "4096\n"))) ≡ 409_600
unfolding process_rss_bytes page_size_kb split_whitespace trim trim_start trim_end is_whitespace
    parse_unsigned parse_digits
rss_run = refl
