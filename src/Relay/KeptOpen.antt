-- ===== src/Relay/KeptOpen.antt =====
-- src/relay.rs: the connection of a pooled client whose requests have not all been answered.
use kafka_proxy.Base.{
  if◌then◌else◌, false, Bool, ℕ, ap, Option-cases, ◌≡◌, ◌≢◌, refl, inl, inr, true, not, ◌&&◌, List,
  [], ◌∷◌, Option, none, some, arith, ◌==◌, All,
}
use kafka_proxy.Wire.{Bytes}
use kafka_proxy.Wire.Sink.{Sink, Writer, send_frame, flush_tick}
use kafka_proxy.Rewrite.Codec.{Protocol}
use kafka_proxy.Rewrite.{RewriteMap}
use kafka_proxy.Rewrite.Header.{response_cid}
use kafka_proxy.Pool.Route.{Delivery, read_loop_round}
use kafka_proxy.Pool.Remap.{RouteEntry, fail_conn}
use kafka_proxy.Relay.PooledWriter.{writer_round}
use kafka_proxy.Relay.PooledEnds.{
  has_room, PooledClient, holds_sender, has_sender, is_open, ClientEvent, reader_ends, writer_takes,
  flush_due, response, connection_fails, take_response, deliver, on_response, on_failure,
  client_step, client_steps,
}
use kafka_proxy.Pool.Remap.Entries.{Holds}
use kafka_proxy.Relay.Entries.{Holds-holds_sender, Holds-retain_values, round-Holds}

-- A client that neither closes its connection nor stops reading: no operation of the sink fails.
pub record NeverFails (k : Sink) : Type 0 where
  pub sends : (f : Bytes) (s : k.State) → (k.send f s).0 ≡ true
  pub flushes : (s : k.State) → (k.flush s).0 ≡ true

-- The events that leave the entry in the table: other responses, and failures of other connections.
abbrev pub Spares : ℕ → RouteEntry → ClientEvent → Type 0
Spares cid e reader_ends = Unit {0}
Spares cid e writer_takes = Unit {0}
Spares cid e flush_due = Unit {0}
Spares cid e (response now bytes) = response_cid bytes ≢ some cid
Spares cid e (connection_fails conn_id) = e.conn_id ≢ conn_id

-- The writing task runs, and the table has the entry with the client's sender.
abbrev pub Waits : {k : Sink} → ℕ → RouteEntry → PooledClient k → Type 0
Waits cid e c =
    (c.writer.running ≡ true) × (Holds cid e c.remap.map) × (e.downstream_tx ≡ c.downstream_tx)

if_Waits :
    {k : Sink} (cid : ℕ) (e : RouteEntry) (b : Bool) (x y : PooledClient k)
    → Waits cid e x
    → Waits cid e y
    → Waits cid e (if b then x else y)
if_Waits cid e true x y there other = there
if_Waits cid e false x y other there = there

module _ (p : Protocol) (map : RewriteMap) where
  deliver-Waits :
      {k : Sink} (cid : ℕ) (e : RouteEntry) (d : Option Delivery) (c : PooledClient k)
      → Waits cid e c
      → Waits cid e (deliver p map d c)
  deliver-Waits cid e none c w = w
  deliver-Waits cid e (some x) c w =
      if_Waits cid e (x.downstream_tx == c.downstream_tx && has_room p map c) _ c w w

  on_response-Waits :
      {k : Sink} (cid now : ℕ) (bytes : Bytes) (e : RouteEntry) (c : PooledClient k)
      → response_cid bytes ≢ some cid
      → Waits cid e c
      → Waits cid e (on_response p map now bytes c)
  unfolding on_response
  on_response-Waits cid now bytes e c other (on, held, mine) =
      elim (Option-cases (read_loop_round p now bytes map c.remap c.metrics)) [
        | inl panicked ↦ rw (panicked, on_response) (on, held, mine)
        | inr ((d, r', m'), ran) ↦
            rw (ran, on_response)
              (deliver-Waits cid e d (record c { remap = r'; metrics = m' })
                (
                  on,
                  round-Holds p map now bytes c.remap r' c.metrics m' d cid e other ran held,
                  mine,
                ))
      ]

module _ (p : Protocol) (map : RewriteMap) {k : Sink} (never : NeverFails k) where
  open never use {sends, flushes}

  send_frame_runs : (f : Bytes) (w : Writer k) → w.running ≡ true → (send_frame f w).running ≡ true
  unfolding send_frame
  send_frame_runs f w on = ground (arith, sends f w.sink)

  flush_tick_runs : (w : Writer k) → w.running ≡ true → (flush_tick w).running ≡ true
  unfolding flush_tick
  flush_tick_runs w on = ground (arith, flushes w.sink)

  sender_there :
      (cid : ℕ) (e : RouteEntry) (c : PooledClient k) → Waits cid e c → has_sender c ≡ true
  unfolding has_sender
  sender_there cid e c (on, held, mine) = ground (
    arith,
    Holds-holds_sender cid e c.remap.map held,
    ap (λ tx. holds_sender tx c.remap.map) mine,
  )

  take_response-Waits :
      (cid : ℕ) (e : RouteEntry) (q : List Bytes) (c : PooledClient k)
      → c.queue ≡ q
      → Waits cid e c
      → Waits cid e (take_response p map c)
  unfolding take_response writer_round has_sender
  take_response-Waits cid e [] c empty waits = rw (empty, sender_there cid e c waits) waits
  take_response-Waits cid e (f ∷ rest) c more (on, held, mine) =
      rw more (send_frame_runs f c.writer on, held, mine)

  client_step-takes :
      (c : PooledClient k)
      → c.writer.running ≡ true
      → client_step p map writer_takes c ≡ take_response p map c
  unfolding client_step
  client_step-takes c on = ground (arith, on)

  client_step-flushes :
      (c : PooledClient k)
      → c.writer.running ≡ true
      → client_step p map flush_due c ≡ record c { writer = flush_tick c.writer }
  unfolding client_step writer_round
  client_step-flushes c on = ground (arith, on)

  client_step-Waits :
      (x : ClientEvent) (cid : ℕ) (e : RouteEntry) (c : PooledClient k)
      → Spares cid e x
      → Waits cid e c
      → Waits cid e (client_step p map x c)
  unfolding client_step on_failure writer_round fail_conn
  client_step-Waits reader_ends cid e c spares waits = waits
  client_step-Waits writer_takes cid e c spares waits =
      rw (client_step-takes c waits.0) (take_response-Waits cid e c.queue c refl waits)
  client_step-Waits flush_due cid e c spares (on, held, mine) =
      rw (client_step-flushes c on) (flush_tick_runs c.writer on, held, mine)
  client_step-Waits (response now bytes) cid e c spares waits =
      on_response-Waits p map cid now bytes e c spares waits
  client_step-Waits (connection_fails conn_id) cid e c spares (on, held, mine) = (
    on,
    Holds-retain_values cid e (λ (x : RouteEntry). not (x.conn_id == conn_id)) c.remap.map
        (ground (arith, spares)) held,
    mine,
  )

  client_steps-Waits :
      (xs : List ClientEvent) (cid : ℕ) (e : RouteEntry) (c : PooledClient k)
      → All (Spares cid e) xs
      → Waits cid e c
      → Waits cid e (client_steps p map xs c)
  unfolding client_steps
  client_steps-Waits [] cid e c spares waits = waits
  client_steps-Waits (x ∷ xs) cid e c (first, others) waits =
      client_steps-Waits xs cid e _ others (client_step-Waits x cid e c first waits)

-- A client's connection stays open while a request of it has no answer. Let the table have an entry
-- with the client's sender, the writing task run, and no operation of the sink fail. Then after any
-- events that are not the response of that entry and not the failure of its connection, the end of
-- the reading task among them, the connection is open: the writing task still waits.
pub kept_open :
    {k : Sink} (p : Protocol) (map : RewriteMap)
    → NeverFails k
    → (xs : List ClientEvent) (cid : ℕ) (e : RouteEntry) (c : PooledClient k)
    → c.writer.running ≡ true
    → Holds cid e c.remap.map
    → e.downstream_tx ≡ c.downstream_tx
    → All (Spares cid e) xs
    → is_open (client_steps p map xs c) ≡ true
unfolding is_open
kept_open p map never xs cid e c on held mine spares =
    ground (arith, (client_steps-Waits p map never xs cid e c spares (on, held, mine)).0)
