-- ===== src/Relay/Session.antt =====
-- src/relay.rs: the whole of `Relay::run_inner`. Each of its two tasks is a loop over what its
-- `select!` yields; a session takes the events of both in any order. The idle timeout of the client is
-- an event here; Relay/IdleTimeout says when it comes.
use kafka_proxy.Base.{Bool, not, ◌||◌, List, [], ◌∷◌, Option, none, some, if◌then◌else◌}
use kafka_proxy.Wire.{Bytes}
use kafka_proxy.Wire.Sink.{Sink, Writer, start_writer, send_frame, flush_tick, flush_and_close}
use kafka_proxy.Metrics.{Metrics, inc_upstream_connections, dec_upstream_connections}
use kafka_proxy.Rewrite.Codec.{Protocol}
use kafka_proxy.Rewrite.{RewriteMap}
use kafka_proxy.Relay.PerConnection.{Relay, on_downstream_frame, on_upstream_frame}

-- What a `select!` yields.
pub data Input : Type 0 where
  frame : Bytes → Input
  read_error : Input
  end_of_stream : Input
  idle_elapsed : Input
  tick : Input

-- An input of the task that reads the client, or of the one that reads the broker. The second has no
-- idle timeout.
pub data Event : Type 0 where
  from_client : Input → Event
  from_broker : Input → Event

-- What the tasks share, and the write half of each.
pub record Session (up down : Sink) : Type 0 where
  pub relay : Relay
  pub up_write : Writer up
  pub down_write : Writer down

-- Both tasks have returned.
abbrev pub is_over : {up down : Sink} → Session up down → Bool
is_over s = not (s.up_write.running || s.down_write.running)

-- A flush tick, or one of the ends of a loop.
unfoldable pub on_other : {k : Sink} → Input → Writer k → Writer k
on_other tick w = flush_tick w
on_other _ w = flush_and_close w

module _ {up down : Sink} where
  -- A round of `down_to_up`.
  unfoldable pub on_client_input : Input → Session up down → Session up down
  on_client_input (frame bytes) s =
      let done = on_downstream_frame bytes s.relay in
      record s { relay = done.1; up_write = send_frame done.0 s.up_write }
  on_client_input i s = record s { up_write = on_other i s.up_write }

module _ (p : Protocol) (map : RewriteMap) {up down : Sink} where
  -- A round of `up_to_down`.
  unfoldable pub on_broker_input : Input → Session up down → Session up down
  on_broker_input (frame bytes) s =
      let done = on_upstream_frame p map bytes s.relay in
      record s { relay = done.1; down_write = send_frame done.0 s.down_write }
  on_broker_input i s = record s { down_write = on_other i s.down_write }

  -- A task that has returned takes nothing more.
  unfoldable pub on_event : Event → Session up down → Session up down
  on_event (from_client i) s = if s.up_write.running then on_client_input i s else s
  on_event (from_broker i) s = if s.down_write.running then on_broker_input i s else s

  unfoldable pub run_events : List Event → Session up down → Session up down
  run_events [] s = s
  run_events (e ∷ es) s = run_events es (on_event e s)

-- `try_join!` waits for both tasks, then the guard is dropped; `none` while a task still runs.
unfoldable pub join_tasks : {up down : Sink} → Session up down → Option Metrics
join_tasks s = if is_over s then some (dec_upstream_connections s.relay.metrics) else none

module _ (up down : Sink) where
  -- After `connect_framed`: the gauge is raised, and its guard taken.
  unfoldable pub start_session : up.State → down.State → Metrics → Session up down
  start_session u d m = record {
    relay = record { pending = []; metrics = inc_upstream_connections m };
    up_write = start_writer u;
    down_write = start_writer d;
  }

  module _ (p : Protocol) (map : RewriteMap) where
    -- `connected` is the outcome of `connect_framed`.
    unfoldable pub run_inner : Option up.State → down.State → List Event → Metrics → Option Metrics
    run_inner connected d es m = elim connected [
      | none ↦ some m
      | some u ↦ join_tasks (run_events p map es (start_session u d m))
    ]
