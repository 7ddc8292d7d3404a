-- ===== src/Pool/Cleanup.antt =====
-- src/pool.rs: the end of `write_loop`, which cleans up after an upstream connection.
use kafka_proxy.Base.{
  ℕ, ◌≡◌, refl, ◌∙◌, ◌⊎◌, Bool, true, false, List, [], ◌∷◌, ◌++◌, arith, Bool-cases, inl, inr,
}
use kafka_proxy.Wire.Sink.{Sink, flush_and_close}
use kafka_proxy.Metrics.{inc_frames_upstream, add_bytes_upstream, fetch_sub}
use kafka_proxy.Pool.Remap.{fail_conn}
use kafka_proxy.Pool.Remap.Entries.{Without, fail_conn-Without}
use kafka_proxy.Pool.Broker.{BrokerPool, connection_ended}
use kafka_proxy.Pool.Reaping.{connection_ended-upstream}
use kafka_proxy.Pool.WriteLoop.{
  Selected, write_req, senders_gone, tick, upstream_frame, read_error, end_of_stream, Connection,
  on_selected, write_loop_round, write_loop,
}

-- The yields that end the task whatever the sink and the read loop do.
abbrev pub is_end : Selected → Bool
is_end senders_gone = true
is_end read_error = true
is_end end_of_stream = true
is_end _ = false

connection_ended_table :
    (conn_id : ℕ) (p q : BrokerPool)
    → q.cid_remap ≡ p.cid_remap
    → (connection_ended conn_id q).cid_remap ≡ (fail_conn conn_id p.cid_remap p.metrics).1
unfolding connection_ended fail_conn
connection_ended_table conn_id p q same = rw same refl

module _ {k : Sink} (conn_id : ℕ) where
  -- Between the start `c` and now: the pool as it was, or, once the task has stopped, cleaned up once.
  abbrev Untouched : BrokerPool → Connection k → Type 0
  Untouched p d =
      (d.writer.running ≡ true)
      × (d.pool.cid_remap ≡ p.cid_remap)
      × (d.pool.metrics.upstream_connections ≡ p.metrics.upstream_connections)

  abbrev Ended : BrokerPool → Connection k → Type 0
  Ended p d =
      (d.writer.running ≡ false)
      × (d.pool.cid_remap ≡ (fail_conn conn_id p.cid_remap p.metrics).1)
      × (d.pool.metrics.upstream_connections ≡ fetch_sub p.metrics.upstream_connections 1)

  -- A branch of the `select!` leaves the table and the gauge alone.
  on_selected_pool :
      (x : Selected) (c : Connection k)
      → ((on_selected x c).pool.cid_remap ≡ c.pool.cid_remap)
        × ((on_selected x c).pool.metrics.upstream_connections
            ≡ c.pool.metrics.upstream_connections)
  unfolding on_selected add_bytes_upstream inc_frames_upstream
  on_selected_pool (write_req f) c = (refl, refl)
  on_selected_pool senders_gone c = (refl, refl)
  on_selected_pool tick c = (refl, refl)
  on_selected_pool (upstream_frame bytes true) c = (refl, ground arith)
  on_selected_pool (upstream_frame bytes false) c = (refl, ground arith)
  on_selected_pool read_error c = (refl, refl)
  on_selected_pool end_of_stream c = (refl, refl)

  on_selected_end :
      (x : Selected) (c : Connection k) → is_end x ≡ true → (on_selected x c).writer.running ≡ false
  unfolding on_selected flush_and_close
  on_selected_end senders_gone c h = refl
  on_selected_end read_error c h = refl
  on_selected_end end_of_stream c h = refl
  on_selected_end (write_req f) c h = ground (arith, h)
  on_selected_end tick c h = ground (arith, h)
  on_selected_end (upstream_frame bytes taken) c h = ground (arith, h)

  round_off :
      (x : Selected) (c : Connection k)
      → c.writer.running ≡ false
      → write_loop_round conn_id x c ≡ c
  unfolding write_loop_round
  round_off x c off = rw off refl

  round_goes_on :
      (x : Selected) (c : Connection k)
      → c.writer.running ≡ true
      → (on_selected x c).writer.running ≡ true
      → write_loop_round conn_id x c ≡ on_selected x c
  unfolding write_loop_round
  round_goes_on x c on after = rw (after, on) refl

  round_breaks :
      (x : Selected) (c : Connection k)
      → c.writer.running ≡ true
      → (on_selected x c).writer.running ≡ false
      → write_loop_round conn_id x c
        ≡ record (on_selected x c) { pool = connection_ended conn_id (on_selected x c).pool }
  unfolding write_loop_round
  round_breaks x c on after = rw (after, on) refl

  breaks-Ended :
      (p : BrokerPool) (x : Selected) (c : Connection k)
      → Untouched p c
      → (on_selected x c).writer.running ≡ false
      → Ended p (write_loop_round conn_id x c)
  breaks-Ended p x c (on, table, gauge) off =
      let (table_x, gauge_x) = on_selected_pool x c in
      rw (round_breaks x c on off) (
        off,
        connection_ended_table conn_id p (on_selected x c).pool (table_x ∙ table),
        ground (arith, connection_ended-upstream conn_id (on_selected x c).pool, gauge_x, gauge),
      )

  round-cases :
      (p : BrokerPool) (x : Selected) (c : Connection k)
      → Untouched p c ⊎ Ended p c
      → Untouched p (write_loop_round conn_id x c) ⊎ Ended p (write_loop_round conn_id x c)
  round-cases p x c (inr (off, table, gauge)) = inr (rw (round_off x c off) (off, table, gauge))
  round-cases p x c (inl (on, table, gauge)) = elim (Bool-cases (on_selected x c).writer.running) [
    | inl after ↦
        let (table_x, gauge_x) = on_selected_pool x c in
        inl (rw (round_goes_on x c on after) (after, table_x ∙ table, gauge_x ∙ gauge))
    | inr off ↦ inr (breaks-Ended p x c (on, table, gauge) off)
  ]

  write_loop_round-Ended :
      (p : BrokerPool) (x : Selected) (c : Connection k)
      → is_end x ≡ true
      → Untouched p c ⊎ Ended p c
      → Ended p (write_loop_round conn_id x c)
  write_loop_round-Ended p x c e (inr (off, table, gauge)) =
      rw (round_off x c off) (off, table, gauge)
  write_loop_round-Ended p x c e (inl here) = breaks-Ended p x c here (on_selected_end x c e)

  write_loop-from :
      (p : BrokerPool) (xs : List Selected) (x : Selected) (c : Connection k)
      → is_end x ≡ true
      → Untouched p c ⊎ Ended p c
      → Ended p (write_loop conn_id (xs ++ (x ∷ [])) c)
  unfolding write_loop
  write_loop-from p [] x c e here = write_loop_round-Ended p x c e here
  write_loop-from p (y ∷ ys) x c e here = write_loop-from p ys x _ e (round-cases p y c here)

  -- Stopped, with the connection's entries gone from the table and all others left as they were.
  pub record CleanedUp (p : BrokerPool) (d : Connection k) : Type 0 where
    pub stopped : d.writer.running ≡ false
    pub table : Without conn_id p.cid_remap.map d.pool.cid_remap.map
    pub gauge : d.pool.metrics.upstream_connections ≡ fetch_sub p.metrics.upstream_connections 1

  Ended-CleanedUp : (p : BrokerPool) (d : Connection k) → Ended p d → CleanedUp p d
  Ended-CleanedUp p d (off, table, gauge) = record {
    stopped = off;
    table = rw table (fail_conn-Without conn_id p.cid_remap p.metrics);
    gauge = gauge;
  }

  -- A connection is cleaned up exactly once. Whatever its task gets to see and whatever its sink and
  -- the read loop do, after the end of the stream, a read error or the loss of all senders the task
  -- has stopped, the table has the entries that it had at the start but for those of the connection,
  -- and no others, and the gauge of upstream connections is one lower than at the start.
  pub write_loop_cleans_up :
      (xs : List Selected) (x : Selected) (c : Connection k)
      → is_end x ≡ true
      → c.writer.running ≡ true
      → CleanedUp c.pool (write_loop conn_id (xs ++ (x ∷ [])) c)
  write_loop_cleans_up xs x c e on =
      Ended-CleanedUp c.pool _ (write_loop-from c.pool xs x c e (inl (on, refl, refl)))
