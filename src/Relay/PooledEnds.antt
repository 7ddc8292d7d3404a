-- ===== src/Relay/PooledEnds.antt =====
-- src/relay.rs and src/pool.rs: when a client's connection of the pooled mode closes. The stream is
-- split in two halves, one in each task of `PooledRelay::run_inner`, and closes when both are gone.
-- The writing task ends when its channel is empty and has no sender left: the reading task has one
-- until it ends, `run_inner` itself until either task ends, and each entry of the client in the
-- table has one.
use kafka_proxy.Base.{
  ℕ, Bool, false, not, ◌&&◌, ◌||◌, List, [], ◌∷◌, ◌++◌, Option, none, some, ◌==◌, leb, length,
  if◌then◌else◌,
}
use kafka_proxy.Base.Map.{Map}
use kafka_proxy.Wire.{Bytes}
use kafka_proxy.Wire.Sink.{Sink, Writer}
use kafka_proxy.Metrics.{Metrics, inc_pool_evictions, dec_upstream_connections}
use kafka_proxy.Rewrite.Codec.{Protocol}
use kafka_proxy.Rewrite.{RewriteMap}
use kafka_proxy.Pool.Remap.{CidRemap, RouteEntry, fail_conn}
use kafka_proxy.Pool.Broker.{end_requests}
use kafka_proxy.Pool.Route.{Delivery, read_loop_round}
use kafka_proxy.Relay.PooledWriter.{received, tick, writer_round}

-- `mpsc::channel(256)`
abbrev pub channel_size : ℕ
channel_size = 256

-- One client, with the table that all share.
pub record PooledClient (k : Sink) : Type 0 where
  pub downstream_tx : ℕ
  pub reading : Bool
  pub queue : List Bytes
  pub writer : Writer k
  pub remap : CidRemap
  pub metrics : Metrics

-- Some entry of the table holds a sender of the channel.
unfoldable pub holds_sender : ℕ → Map RouteEntry → Bool
holds_sender tx [] = false
holds_sender tx ((cid, e) ∷ m) = e.downstream_tx == tx || holds_sender tx m

-- `run_inner` returns when either task ends, so while the reading task runs and the writing one
-- waits, both hold a sender.
unfoldable pub has_sender : {k : Sink} → PooledClient k → Bool
has_sender c = c.reading || holds_sender c.downstream_tx c.remap.map

unfoldable pub is_open : {k : Sink} → PooledClient k → Bool
is_open c = c.reading || c.writer.running

-- What happens to a client: its reading task ends (end of stream, backpressure, or an error), its
-- writing task takes from the channel or has a flush tick, the read loop of the pool routes a
-- response, and an upstream connection fails.
pub data ClientEvent : Type 0 where
  reader_ends : ClientEvent
  writer_takes : ClientEvent
  flush_due : ClientEvent
  response : (now : ℕ) (bytes : Bytes) → ClientEvent
  connection_fails : ℕ → ClientEvent

module _ (p : Protocol) (map : RewriteMap) {k : Sink} where
  -- `resp_rx.recv()`: a response, or `none` when the channel is closed, or nothing yet.
  unfoldable pub take_response : PooledClient k → PooledClient k
  take_response c = elim c.queue [
    | f ∷ rest ↦ record c { queue = rest; writer = writer_round (received (some f)) c.writer }
    | [] ↦ if has_sender c then c else record c { writer = writer_round (received none) c.writer }
  ]

  -- Whether the channel has room, and its receiver, the writing task, is still there.
  abbrev pub has_room : PooledClient k → Bool
  has_room c = c.writer.running && not (leb channel_size (length c.queue))

  -- `try_send` of the read loop: a response that cannot be taken is dropped.
  abbrev pub deliver : Option Delivery → PooledClient k → PooledClient k
  deliver none c = c
  deliver (some d) c =
      if d.downstream_tx == c.downstream_tx && has_room c
      then record c { queue = c.queue ++ (d.frame ∷ []) }
      else c

  -- A round of `read_loop`. It does not panic (Pool/Route), and here a panic would change nothing.
  unfoldable pub on_response : ℕ → Bytes → PooledClient k → PooledClient k
  on_response now bytes c = elim (read_loop_round p now bytes map c.remap c.metrics) [
    | none ↦ c
    | some (d, remap, m) ↦ deliver d (record c { remap = remap; metrics = m })
  ]

  -- The end of `write_loop`.
  unfoldable pub on_failure : ℕ → PooledClient k → PooledClient k
  on_failure conn_id c =
      let (removed, remap, m) = fail_conn conn_id c.remap c.metrics in
      record c {
        remap = remap;
        metrics = inc_pool_evictions (dec_upstream_connections (end_requests removed m));
      }

  unfoldable pub client_step : ClientEvent → PooledClient k → PooledClient k
  unfolding take_response on_response on_failure
  client_step reader_ends c = record c { reading = false }
  client_step writer_takes c = if c.writer.running then take_response c else c
  client_step flush_due c =
      if c.writer.running then record c { writer = writer_round tick c.writer } else c
  client_step (response now bytes) c = on_response now bytes c
  client_step (connection_fails conn_id) c = on_failure conn_id c

  unfoldable pub client_steps : List ClientEvent → PooledClient k → PooledClient k
  client_steps [] c = c
  client_steps (x ∷ xs) c = client_steps xs (client_step x c)
