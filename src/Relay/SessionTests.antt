-- ===== src/Relay/SessionTests.antt =====
-- Runs and witnesses for the sessions of the 1:1 mode.
use kafka_proxy.Base.{inl, ◌+◌, ◌*◌, ◌≤◌, ◌≡◌, refl, true, false, List, [], ◌∷◌, ◌++◌, some, arith}
use kafka_proxy.Wire.{Bytes, put_i32, get_i32}
use kafka_proxy.Wire.Sink.{Sink, start_writer, sent_by, send_frame, flush_tick}
use kafka_proxy.Wire.SampleSink.{bounded_sink, bounded_sink_laws}
use kafka_proxy.Metrics.{Metrics, new as new_metrics}
use kafka_proxy.Rewrite.{RewriteMap}
use kafka_proxy.Rewrite.Sample.{sample_protocol}
use kafka_proxy.Relay.PerConnection.{on_downstream_frame, on_upstream_frame}
use kafka_proxy.Relay.Session.{
  Event, Session, from_client, from_broker, frame, tick, on_event, run_events, run_inner, on_other,
  on_client_input, on_broker_input,
}
use kafka_proxy.Relay.Transparency.{frames_of, Forwards, run_events-Forwards}
use kafka_proxy.Relay.Ends.{client_input, both_ends, run_events-prefix, run_inner-gauge}
use kafka_proxy.Relay.IdleTimeout.{
  Poll, Timers, start_timers, silent_turns, per_conn_flush_ms, idle_timeout_starved,
}
use kafka_proxy.Pool.Remap.{RouteEntry, new as new_remap, take, fail_conn}
use kafka_proxy.Rewrite.Header.{parse_response_cid, response_cid}
use kafka_proxy.Pool.Route.{read_loop_round}
use kafka_proxy.Relay.PooledEnds.{
  PooledClient, ClientEvent, reader_ends, writer_takes, flush_due, response, connection_fails,
  is_open, has_sender, holds_sender, take_response, on_response, on_failure, client_step,
  client_steps,
}
use kafka_proxy.Relay.KeptOpen.{NeverFails, kept_open}

-- A request that is not rewritten, with the correlation id 7, and its response.
abbrev fetch : Bytes
fetch = 0 ∷ 1 ∷ 0 ∷ 12 ∷ 0 ∷ 0 ∷ 0 ∷ 7 ∷ []

abbrev fetched : Bytes
fetched = 0 ∷ 0 ∷ 0 ∷ 7 ∷ 5 ∷ []

abbrev table : RewriteMap
table = (1, (b'p' ∷ [], 19092)) ∷ []

abbrev up : Sink
up = bounded_sink 1

abbrev down : Sink
down = bounded_sink 8

-- A sink that takes everything.
abbrev large : Sink
large = record {
  State = List Bytes;
  send = λ f s. (true, s ++ (f ∷ []));
  flush = λ s. (true, s);
  close = λ s. s;
  sent = λ s. s;
}

abbrev session : Session up down
session = record {
  relay = record { pending = []; metrics = new_metrics true };
  up_write = start_writer [];
  down_write = start_writer [];
}

abbrev events : List Event
events =
    from_client tick
    ∷ from_client (frame fetch)
    ∷ from_client tick
    ∷ from_broker (frame fetched)
    ∷ from_broker tick
    ∷ []

up_runs : (run_events sample_protocol table events session).up_write.running ≡ true
unfolding run_events on_event on_client_input on_broker_input on_other send_frame flush_tick
    on_downstream_frame on_upstream_frame
up_runs = refl

down_runs : (run_events sample_protocol table events session).down_write.running ≡ true
unfolding run_events on_event on_client_input on_broker_input on_other send_frame flush_tick
    on_downstream_frame on_upstream_frame
down_runs = refl

run_events-Forwards_example :
    Forwards sample_protocol table
      (frames_of events)
      session
      (run_events sample_protocol table events session)
run_events-Forwards_example =
    run_events-Forwards sample_protocol table (bounded_sink_laws 1) (bounded_sink_laws 8) events
      session up_runs down_runs

-- The broker's sink fails at the second request, and the third is not read.
abbrev three : List Event
three = from_client (frame fetch) ∷ from_client (frame fetched) ∷ from_client (frame fetch) ∷ []

three_sent : sent_by (run_events sample_protocol table three session).up_write ≡ fetch ∷ []
unfolding run_events on_event on_client_input on_other send_frame on_downstream_frame
three_sent = refl

run_events-prefix_example :
    (rest : List Bytes) × (sent_by (run_events sample_protocol table three session).up_write ++ rest
      ≡ [] ++ client_input three)
run_events-prefix_example =
    run_events-prefix sample_protocol table (bounded_sink_laws 1) three session

run_inner-gauge_example :
    (m' : Metrics) × (run_inner up down sample_protocol table
        (some [])
        []
        (events ++ both_ends)
        (new_metrics true)
      ≡ some m')
    × (m'.upstream_connections ≡ (new_metrics true).upstream_connections)
unfolding new_metrics
run_inner-gauge_example =
    run_inner-gauge up down sample_protocol table (some []) [] events (new_metrics true)
      (omega arith)

-- A timeout of 60 milliseconds, three turns, at most 2 milliseconds late.
abbrev polls : List Poll
polls =
    record { late = 0; timeout_first = true }
    ∷ record { late = 2; timeout_first = true }
    ∷ record { late = 1; timeout_first = false }
    ∷ []

idle_timeout_starved_example :
    (t' : Timers) × (silent_turns 60 polls (start_timers 100) ≡ some t')
    × (100 + per_conn_flush_ms * 3 ≤ t'.now + per_conn_flush_ms)
idle_timeout_starved_example =
    idle_timeout_starved 60 2 polls (start_timers 100) (omega arith)
      (omega arith, (omega arith, (omega arith, tt))) (omega arith)

-- A client of the pooled mode closes while its request with the upstream id 7 has no answer.
abbrev entry : RouteEntry
entry = record {
  downstream_tx = 4;
  cid_d = 20;
  api_key = 0;
  api_version = 3;
  started = 0;
  conn_id = 1;
}

abbrev half_closed : PooledClient large
half_closed = record {
  downstream_tx = 4;
  reading = true;
  queue = [];
  writer = start_writer [];
  remap = record new_remap { map = (7, entry) ∷ [] };
  metrics = new_metrics true;
}

large_never_fails : NeverFails large
large_never_fails = record { sends = λ f s. refl; flushes = λ s. refl }

abbrev closing : List ClientEvent
closing = reader_ends ∷ writer_takes ∷ response 3 (put_i32 8) ∷ connection_fails 2 ∷ flush_due ∷ []

-- With the failure of its connection the client's closes.
closed_then :
    is_open (
      client_steps sample_protocol table
        (closing ++ (connection_fails 1 ∷ writer_takes ∷ writer_takes ∷ []))
        half_closed)
    ≡ false
unfolding is_open client_steps client_step read_loop_round response_cid parse_response_cid put_i32
    get_i32 on_response on_failure take_response has_sender take kafka_proxy.Base.Map.get
    holds_sender fail_conn kafka_proxy.Base.Map.retain_values kafka_proxy.Base.Map.remove
    kafka_proxy.Relay.PooledWriter.writer_round flush_tick send_frame
    kafka_proxy.Wire.Sink.flush_and_return
closed_then = refl

kept_open_example : is_open (client_steps sample_protocol table closing half_closed) ≡ true
unfolding response_cid parse_response_cid put_i32 get_i32
kept_open_example =
    kept_open sample_protocol table large_never_fails closing 7 entry half_closed refl
      (inl (refl, refl)) refl (tt, (tt, ((λ h. ground arith), (ground arith, (tt, tt)))))
