-- ===== src/Metrics.antt =====
-- src/metrics.rs: the counters, gauges and histograms. An AtomicU64 or AtomicI64 is its 64-bit
-- pattern, and `fetch_add` and `fetch_sub` wrap; each call is one atomic step.
pub mod Latency
pub mod Gating
pub mod Render
pub mod Samples
pub mod Clean
pub mod Table
pub mod Exposition
pub mod Process
mod RenderTests
mod Tests
use kafka_proxy.Base.{ℕ, ◌+◌, ◌-◌, ◌%◌, ◌^◌, Bool, true, false, if◌then◌else◌}
use Latency
use Latency.{Histogram}

abbrev pub word64 : ℕ
word64 = 2 ^ 64

abbrev pub fetch_add : ℕ → ℕ → ℕ
fetch_add x n = (x + n) % word64

abbrev pub fetch_sub : ℕ → ℕ → ℕ
fetch_sub x n = (x + word64 - n % word64) % word64

pub record Metrics : Type 0 where
  pub enabled : Bool
  pub frames_downstream : ℕ
  pub frames_upstream : ℕ
  pub bytes_downstream : ℕ
  pub bytes_upstream : ℕ
  pub requests_in_flight : ℕ
  pub downstream_connections : ℕ
  pub upstream_connections : ℕ
  pub pool_hits : ℕ
  pub pool_misses : ℕ
  pub pool_evictions : ℕ
  pub pool_waiters : ℕ
  pub auth_failures : ℕ
  pub acquire_hist : Histogram
  pub request_hist : Histogram
  pub handshake_hist : Histogram
  pub cid_map_entries : ℕ

unfoldable pub new : Bool → Metrics
new enabled = record {
  enabled = enabled;
  frames_downstream = 0;
  frames_upstream = 0;
  bytes_downstream = 0;
  bytes_upstream = 0;
  requests_in_flight = 0;
  downstream_connections = 0;
  upstream_connections = 0;
  pool_hits = 0;
  pool_misses = 0;
  pool_evictions = 0;
  pool_waiters = 0;
  auth_failures = 0;
  acquire_hist = Latency.new;
  request_hist = Latency.new;
  handshake_hist = Latency.new;
  cid_map_entries = 0;
}

-- Counted only while metrics are enabled, but for the connection gauges, which are always kept.
unfoldable pub inc_frames_downstream : Metrics → Metrics
inc_frames_downstream m =
    if m.enabled then record m { frames_downstream = fetch_add m.frames_downstream 1 } else m

unfoldable pub add_bytes_downstream : ℕ → Metrics → Metrics
add_bytes_downstream n m =
    if m.enabled then record m { bytes_downstream = fetch_add m.bytes_downstream n } else m

unfoldable pub inc_frames_upstream : Metrics → Metrics
inc_frames_upstream m =
    if m.enabled then record m { frames_upstream = fetch_add m.frames_upstream 1 } else m

unfoldable pub add_bytes_upstream : ℕ → Metrics → Metrics
add_bytes_upstream n m =
    if m.enabled then record m { bytes_upstream = fetch_add m.bytes_upstream n } else m

unfoldable pub inc_requests_in_flight : Metrics → Metrics
inc_requests_in_flight m =
    if m.enabled then record m { requests_in_flight = fetch_add m.requests_in_flight 1 } else m

unfoldable pub dec_requests_in_flight : Metrics → Metrics
dec_requests_in_flight m =
    if m.enabled then record m { requests_in_flight = fetch_sub m.requests_in_flight 1 } else m

unfoldable pub inc_downstream_connections : Metrics → Metrics
inc_downstream_connections m = record m {
  downstream_connections = fetch_add m.downstream_connections 1;
}

unfoldable pub dec_downstream_connections : Metrics → Metrics
dec_downstream_connections m = record m {
  downstream_connections = fetch_sub m.downstream_connections 1;
}

unfoldable pub inc_upstream_connections : Metrics → Metrics
inc_upstream_connections m = record m { upstream_connections = fetch_add m.upstream_connections 1 }

unfoldable pub dec_upstream_connections : Metrics → Metrics
dec_upstream_connections m = record m { upstream_connections = fetch_sub m.upstream_connections 1 }

unfoldable pub inc_auth_failures : Metrics → Metrics
inc_auth_failures m =
    if m.enabled then record m { auth_failures = fetch_add m.auth_failures 1 } else m

unfoldable pub inc_pool_hits : Metrics → Metrics
inc_pool_hits m = if m.enabled then record m { pool_hits = fetch_add m.pool_hits 1 } else m

unfoldable pub inc_pool_misses : Metrics → Metrics
inc_pool_misses m = if m.enabled then record m { pool_misses = fetch_add m.pool_misses 1 } else m

unfoldable pub inc_pool_evictions : Metrics → Metrics
inc_pool_evictions m =
    if m.enabled then record m { pool_evictions = fetch_add m.pool_evictions 1 } else m

unfoldable pub inc_pool_waiters : Metrics → Metrics
inc_pool_waiters m = if m.enabled then record m { pool_waiters = fetch_add m.pool_waiters 1 } else m

unfoldable pub dec_pool_waiters : Metrics → Metrics
dec_pool_waiters m = if m.enabled then record m { pool_waiters = fetch_sub m.pool_waiters 1 } else m

unfoldable pub inc_cid_map_entries : Metrics → Metrics
inc_cid_map_entries m =
    if m.enabled then record m { cid_map_entries = fetch_add m.cid_map_entries 1 } else m

unfoldable pub dec_cid_map_entries : Metrics → Metrics
dec_cid_map_entries m =
    if m.enabled then record m { cid_map_entries = fetch_sub m.cid_map_entries 1 } else m

unfoldable pub sub_cid_map_entries : ℕ → Metrics → Metrics
sub_cid_map_entries n m =
    if m.enabled then record m { cid_map_entries = fetch_sub m.cid_map_entries n } else m
