-- ===== src/Metrics/Gating.antt =====
-- src/metrics.rs: what `metrics_enabled = false` switches off.
use kafka_proxy.Base.{ℕ, ◌≡◌, refl, false, arith, List, [], ◌∷◌}
use kafka_proxy.Metrics.{
  Metrics, inc_frames_downstream, add_bytes_downstream, inc_frames_upstream, add_bytes_upstream,
  inc_requests_in_flight, dec_requests_in_flight, inc_downstream_connections,
  dec_downstream_connections, inc_upstream_connections, dec_upstream_connections, inc_auth_failures,
  inc_pool_hits, inc_pool_misses, inc_pool_evictions, inc_pool_waiters, dec_pool_waiters,
  inc_cid_map_entries, dec_cid_map_entries, sub_cid_map_entries, fetch_add, fetch_sub,
}

-- The calls that count, other than those of the two connection gauges.
pub data Collect : Type 0 where
  frame_downstream frame_upstream request_begins request_ends auth_failure pool_hit : Collect
  pool_miss pool_eviction waiter_begins waiter_ends cid_begins cid_ends : Collect
  bytes_down bytes_up cids_end : ℕ → Collect

pub data Call : Type 0 where
  collect : Collect → Call
  downstream_opens downstream_closes upstream_opens upstream_closes : Call

unfoldable pub collected : Collect → Metrics → Metrics
collected frame_downstream = inc_frames_downstream
collected frame_upstream = inc_frames_upstream
collected request_begins = inc_requests_in_flight
collected request_ends = dec_requests_in_flight
collected auth_failure = inc_auth_failures
collected pool_hit = inc_pool_hits
collected pool_miss = inc_pool_misses
collected pool_eviction = inc_pool_evictions
collected waiter_begins = inc_pool_waiters
collected waiter_ends = dec_pool_waiters
collected cid_begins = inc_cid_map_entries
collected cid_ends = dec_cid_map_entries
collected (bytes_down n) = add_bytes_downstream n
collected (bytes_up n) = add_bytes_upstream n
collected (cids_end n) = sub_cid_map_entries n

unfoldable pub call : Call → Metrics → Metrics
unfolding collected
call (collect c) = collected c
call downstream_opens = inc_downstream_connections
call downstream_closes = dec_downstream_connections
call upstream_opens = inc_upstream_connections
call upstream_closes = dec_upstream_connections

unfoldable pub calls : List Call → Metrics → Metrics
calls [] m = m
calls (c ∷ cs) m = calls cs (call c m)

-- What the calls do to the two connection gauges alone.
unfoldable pub gauge_calls : List Call → ℕ × ℕ → ℕ × ℕ
gauge_calls [] g = g
gauge_calls (collect c ∷ cs) g = gauge_calls cs g
gauge_calls (downstream_opens ∷ cs) (d, u) = gauge_calls cs (fetch_add d 1, u)
gauge_calls (downstream_closes ∷ cs) (d, u) = gauge_calls cs (fetch_sub d 1, u)
gauge_calls (upstream_opens ∷ cs) (d, u) = gauge_calls cs (d, fetch_add u 1)
gauge_calls (upstream_closes ∷ cs) (d, u) = gauge_calls cs (d, fetch_sub u 1)

collected_disabled : (c : Collect) (m : Metrics) → m.enabled ≡ false → collected c m ≡ m
unfolding collected inc_frames_downstream inc_frames_upstream inc_requests_in_flight
    dec_requests_in_flight inc_auth_failures inc_pool_hits inc_pool_misses inc_pool_evictions
    inc_pool_waiters dec_pool_waiters inc_cid_map_entries dec_cid_map_entries add_bytes_downstream
    add_bytes_upstream sub_cid_map_entries
collected_disabled frame_downstream m h = ground arith
collected_disabled _ m h = ground arith

-- With metrics disabled a run of any calls changes the two connection gauges, as it would with
-- metrics enabled, and leaves every other counter as it was.
pub calls_disabled :
    (cs : List Call) (m : Metrics)
    → m.enabled ≡ false
    → calls cs m ≡ record m {
      downstream_connections =
          (gauge_calls cs (m.downstream_connections, m.upstream_connections)).0;
      upstream_connections = (gauge_calls cs (m.downstream_connections, m.upstream_connections)).1;
    }
unfolding calls call gauge_calls inc_downstream_connections dec_downstream_connections
    inc_upstream_connections dec_upstream_connections
calls_disabled [] m h = refl
calls_disabled (collect c ∷ cs) m h = rw (collected_disabled c m h) (calls_disabled cs m h)
calls_disabled (downstream_opens ∷ cs) m h = calls_disabled cs (inc_downstream_connections m) h
calls_disabled (downstream_closes ∷ cs) m h = calls_disabled cs (dec_downstream_connections m) h
calls_disabled (upstream_opens ∷ cs) m h = calls_disabled cs (inc_upstream_connections m) h
calls_disabled (upstream_closes ∷ cs) m h = calls_disabled cs (dec_upstream_connections m) h
