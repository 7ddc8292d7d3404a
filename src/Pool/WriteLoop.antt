-- ===== src/Pool/WriteLoop.antt =====
-- src/pool.rs: `write_loop`, the task of one upstream connection, as a loop over what its `select!`
-- yields. `write_tx` of a lease is the other end of its requests; `read_tx` leads to `read_loop`.
use mathlib.Core.List.{append_assoc, append-nil}
use mathlib.Core.Path.{subst, sym}
use kafka_proxy.Base.{
  ℕ, ◌≡◌, refl, ◌∙◌, Bool, true, false, List, [], ◌∷◌, ◌++◌, if◌then◌else◌, arith, length,
  Bool-cases, inl, inr,
}
use kafka_proxy.Wire.{Bytes}
use kafka_proxy.Wire.Sink.{
  Sink, SinkLaws, Writer, stopped, sent_by, send_frame, flush_tick, flush_and_close,
  send_frame-running, sent-flush_tick,
}
use kafka_proxy.Metrics.{inc_frames_upstream, add_bytes_upstream}
use kafka_proxy.Pool.Broker.{BrokerPool, connection_ended}

-- What `select!` yields: a request frame, the end of `write_rx` when all its senders are gone, a flush
-- tick, a frame of the broker with whether `read_tx` takes it, and the two ends of the stream.
pub data Selected : Type 0 where
  write_req : Bytes → Selected
  senders_gone : Selected
  tick : Selected
  upstream_frame : Bytes → Bool → Selected
  read_error : Selected
  end_of_stream : Selected

-- The pool, the write half, and the frames handed to `read_tx`.
pub record Connection (k : Sink) : Type 0 where
  pub pool : BrokerPool
  pub writer : Writer k
  pub forwarded : List Bytes

abbrev pub count_upstream : Bytes → BrokerPool → BrokerPool
count_upstream bytes p = record p {
  metrics = add_bytes_upstream (length bytes) (inc_frames_upstream p.metrics);
}

module _ {k : Sink} where
  -- One branch of the `select!`; a `break` leaves the writer not running.
  unfoldable pub on_selected : Selected → Connection k → Connection k
  on_selected (write_req f) c = record c { writer = send_frame f c.writer }
  on_selected senders_gone c = record c { writer = flush_and_close c.writer }
  on_selected tick c = record c { writer = flush_tick c.writer }
  on_selected (upstream_frame bytes taken) c =
      let counted = count_upstream bytes c.pool in
      if taken
      then record c { pool = counted; forwarded = c.forwarded ++ (bytes ∷ []) }
      else record c { pool = counted; writer = stopped c.writer.sink c.writer }
  on_selected read_error c = record c { writer = stopped c.writer.sink c.writer }
  on_selected end_of_stream c = record c { writer = stopped c.writer.sink c.writer }

  -- A round of the loop, and after a `break` the end of the task.
  unfoldable pub write_loop_round : ℕ → Selected → Connection k → Connection k
  write_loop_round conn_id x c =
      let after = on_selected x c in
      if c.writer.running
      then if after.writer.running
        then after
        else record after { pool = connection_ended conn_id after.pool }
      else c

  unfoldable pub write_loop : ℕ → List Selected → Connection k → Connection k
  write_loop conn_id [] c = c
  write_loop conn_id (x ∷ xs) c = write_loop conn_id xs (write_loop_round conn_id x c)

-- The frames of the requests, and those the broker sent.
unfoldable pub requests_of : List Selected → List Bytes
requests_of [] = []
requests_of (write_req f ∷ xs) = f ∷ requests_of xs
requests_of (x ∷ xs) = requests_of xs

unfoldable pub responses_of : List Selected → List Bytes
responses_of [] = []
responses_of (upstream_frame bytes taken ∷ xs) = bytes ∷ responses_of xs
responses_of (x ∷ xs) = responses_of xs

module _ {k : Sink} (conn_id : ℕ) where
  running_before :
      (x : Selected) (c : Connection k)
      → (write_loop_round conn_id x c).writer.running ≡ true
      → c.writer.running ≡ true
  unfolding write_loop_round
  running_before x c h = elim (Bool-cases c.writer.running) [
    | inl on ↦ on
    | inr off ↦ ground (arith, off)
  ]

  write_loop_before :
      (xs : List Selected) (c : Connection k)
      → (write_loop conn_id xs c).writer.running ≡ true
      → c.writer.running ≡ true
  unfolding write_loop
  write_loop_before [] c h = h
  write_loop_before (x ∷ xs) c h = running_before x c (write_loop_before xs _ h)

  -- A round that goes on is just the branch.
  round_on :
      (x : Selected) (c : Connection k)
      → (write_loop_round conn_id x c).writer.running ≡ true
      → (write_loop_round conn_id x c ≡ on_selected x c) × ((on_selected x c).writer.running ≡ true)
  unfolding write_loop_round
  round_on x c h = elim (Bool-cases c.writer.running) [
    | inl on ↦ elim (Bool-cases (on_selected x c).writer.running) [
      | inl after ↦ (rw (after, on) refl, after)
      | inr broken ↦ ground (arith, on, broken)
    ]
    | inr off ↦ ground (arith, off)
  ]

module _ {k : Sink} where
  -- From `c` to `d` the task passed frames on, one for one in both directions, and left the table of
  -- requests and the gauge of connections alone.
  abbrev pub Carries : List Selected → Connection k → Connection k → Type 0
  Carries xs c d =
      (sent_by d.writer ≡ sent_by c.writer ++ requests_of xs)
      × (d.forwarded ≡ c.forwarded ++ responses_of xs)
      × (d.pool.cid_remap ≡ c.pool.cid_remap)
      × (d.pool.metrics.upstream_connections ≡ c.pool.metrics.upstream_connections)

module _ {k : Sink} (laws : SinkLaws k) where
  on_selected-Carries :
      (x : Selected) (xs : List Selected) (c d : Connection k)
      → (on_selected x c).writer.running ≡ true
      → Carries xs (on_selected x c) d
      → Carries (x ∷ xs) c d
  unfolding on_selected requests_of responses_of add_bytes_upstream inc_frames_upstream
  on_selected-Carries (write_req f) xs c d on (sent, passed, table, gauge) = (
    sent
        ∙ rw (send_frame-running laws f c.writer on)
            (append_assoc (sent_by c.writer) (f ∷ []) (requests_of xs)),
    passed,
    table,
    gauge,
  )
  on_selected-Carries tick xs c d on (sent, passed, table, gauge) =
      (sent ∙ rw (sent-flush_tick laws c.writer) refl, passed, table, gauge)
  on_selected-Carries (upstream_frame bytes true) xs c d on (sent, passed, table, gauge) = (
    sent,
    passed ∙ append_assoc c.forwarded (bytes ∷ []) (responses_of xs),
    table,
    gauge ∙ ground arith,
  )
  on_selected-Carries (upstream_frame bytes false) xs c d on carried = ground (arith, on)
  on_selected-Carries senders_gone xs c d on carried = unfold flush_and_close in ground (arith, on)
  on_selected-Carries read_error xs c d on carried = ground (arith, on)
  on_selected-Carries end_of_stream xs c d on carried = ground (arith, on)

  -- While the task of an upstream connection runs, the broker has been sent exactly the frames of the
  -- requests, in their order, and the read loop has been handed exactly the frames of the broker, in
  -- theirs; the table of requests and the gauge of connections are as they were.
  pub write_loop-Carries :
      (conn_id : ℕ) (xs : List Selected) (c : Connection k)
      → (write_loop conn_id xs c).writer.running ≡ true
      → Carries xs c (write_loop conn_id xs c)
  unfolding write_loop
  write_loop-Carries conn_id [] c on =
      unfold requests_of responses_of in
      (sym (append-nil (sent_by c.writer)), sym (append-nil c.forwarded), refl, refl)
  write_loop-Carries conn_id (x ∷ xs) c on =
      let d = write_loop_round conn_id x c in
      let (same, on_x) = round_on conn_id x c (write_loop_before conn_id xs d on) in
      on_selected-Carries x xs c (write_loop conn_id xs d) on_x (
        subst (λ y. Carries xs y (write_loop conn_id xs d)) same
          (write_loop-Carries conn_id xs d on))
