-- ===== src/Pool/TaskTests.antt =====
-- Runs and witnesses for the task of an upstream connection.
use kafka_proxy.Base.{ℕ, ◌≡◌, refl, true, List, [], ◌∷◌, ◌++◌}
use kafka_proxy.Wire.Sink.{start_writer, send_frame, flush_tick}
use kafka_proxy.Wire.SampleSink.{bounded_sink, bounded_sink_laws}
use kafka_proxy.Metrics.{new as new_metrics}
use kafka_proxy.Pool.Remap.{RouteEntry, new as new_remap, fail_conn}
use kafka_proxy.Pool.Broker.{PoolLimits, BrokerPool, new, connection_ended}
use kafka_proxy.Pool.WriteLoop.{
  Selected, write_req, tick, upstream_frame, end_of_stream, Connection, on_selected,
  write_loop_round, write_loop, Carries, write_loop-Carries,
}
use kafka_proxy.Pool.Cleanup.{CleanedUp, write_loop_cleans_up}

abbrev limits : PoolLimits
limits = record {
  max_per_broker = 2;
  min_idle = 1;
  idle_timeout = 300;
  acquire_timeout = 5;
  max_in_flight = 100;
}

abbrev pool : BrokerPool
pool = new 1 limits new_remap (new_metrics true)

abbrev connection : Connection (bounded_sink 1)
connection = record { pool = pool; writer = start_writer []; forwarded = [] }

abbrev selected : List Selected
selected =
    tick
    ∷ write_req (1 ∷ 2 ∷ [])
    ∷ upstream_frame (3 ∷ []) true
    ∷ tick
    ∷ upstream_frame (4 ∷ []) true
    ∷ []

still_running : (write_loop 4 selected connection).writer.running ≡ true
unfolding write_loop write_loop_round on_selected send_frame flush_tick
still_running = refl

write_loop-Carries_example : Carries selected connection (write_loop 4 selected connection)
write_loop-Carries_example =
    write_loop-Carries (bounded_sink_laws 1) 4 selected connection still_running

-- The sink takes one frame; the second request fails before the stream ends.
abbrev failing : List Selected
failing = write_req (1 ∷ []) ∷ write_req (2 ∷ []) ∷ []

abbrev entry_over : ℕ → RouteEntry
entry_over conn_id = record {
  downstream_tx = 7;
  cid_d = 40;
  api_key = 1;
  api_version = 12;
  started = 0;
  conn_id = conn_id;
}

-- A request over the connection that ends, and one over another.
abbrev busy_connection : Connection (bounded_sink 1)
busy_connection = record connection {
  pool = record pool {
    cid_remap = record new_remap { map = (2, entry_over 4) ∷ (3, entry_over 5) ∷ [] };
  };
}

table_run :
    (write_loop 4 (failing ++ (end_of_stream ∷ [])) busy_connection).pool.cid_remap.map
    ≡ (3, entry_over 5) ∷ []
unfolding write_loop write_loop_round on_selected send_frame connection_ended fail_conn
    kafka_proxy.Base.Map.retain_values
table_run = refl

write_loop_cleans_up_example :
    CleanedUp 4 busy_connection.pool
      (write_loop 4 (failing ++ (end_of_stream ∷ [])) busy_connection)
write_loop_cleans_up_example =
    write_loop_cleans_up 4 failing end_of_stream busy_connection refl refl
