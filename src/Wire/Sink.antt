-- ===== src/Wire/Sink.antt =====
-- The write half of a framed stream (`SplitSink`, tokio-util's `Framed`), and the use the loops of
-- src/relay.rs and src/pool.rs make of one: send a frame, flush on a timer, flush and close at the
-- end.
use kafka_proxy.Base.{
  ◌≡◌, refl, ◌⊎◌, inl, inr, Bool, true, false, List, [], ◌∷◌, ◌++◌, if◌then◌else◌, arith,
  Bool-cases,
}
use kafka_proxy.Wire.{Bytes}

-- The operations of a sink: the Boolean says whether one succeeded. `sent` observes the frames the
-- sink has taken.
pub record Sink : Type 1 where
  pub State : Type 0
  pub send : Bytes → State → Bool × State
  pub flush : State → Bool × State
  pub close : State → State
  pub sent : State → List Bytes

-- What the documentation of a sink says: a frame it takes comes after the earlier ones, one that
-- fails may or may not have been taken, and nothing else adds or removes a frame.
pub record SinkLaws (k : Sink) : Type 0 where
  pub sent-send :
      (f : Bytes) (s : k.State)
      → (k.send f s).0 ≡ true
      → k.sent (k.send f s).1 ≡ k.sent s ++ (f ∷ [])
  pub sent-send_failed :
      (f : Bytes) (s : k.State)
      → (k.sent (k.send f s).1 ≡ k.sent s) ⊎ (k.sent (k.send f s).1 ≡ k.sent s ++ (f ∷ []))
  pub sent-flush : (s : k.State) → k.sent (k.flush s).1 ≡ k.sent s
  pub sent-close : (s : k.State) → k.sent (k.close s) ≡ k.sent s

-- A task's write half; `running` is false once the loop has returned.
pub record Writer (k : Sink) : Type 0 where
  pub sink : k.State
  pub needs_flush : Bool
  pub running : Bool

abbrev pub start_writer : {k : Sink} → k.State → Writer k
start_writer s = record { sink = s; needs_flush = false; running = true }

module _ {k : Sink} where
  abbrev pub stopped : k.State → Writer k → Writer k
  stopped s w = record w { sink = s; running = false }

  unfoldable pub send_frame : Bytes → Writer k → Writer k
  send_frame f w =
      let done = k.send f w.sink in
      if done.0
      then record { sink = done.1; needs_flush = true; running = w.running }
      else stopped done.1 w

  unfoldable pub flush_tick : Writer k → Writer k
  flush_tick w =
      let done = k.flush w.sink in
      if w.needs_flush
      then if done.0 then record w { sink = done.1; needs_flush = false } else stopped done.1 w
      else w

  unfoldable pub flush_and_return : Writer k → Writer k
  flush_and_return w = stopped (k.flush w.sink).1 w

  unfoldable pub flush_and_close : Writer k → Writer k
  flush_and_close w = stopped (k.close (k.flush w.sink).1) w

  abbrev pub sent_by : Writer k → List Bytes
  sent_by w = k.sent w.sink

module _ {k : Sink} (laws : SinkLaws k) where
  open laws use {sent-send, sent-send_failed, sent-flush, sent-close}

  pub send_frame-running :
      (f : Bytes) (w : Writer k)
      → (send_frame f w).running ≡ true
      → sent_by (send_frame f w) ≡ sent_by w ++ (f ∷ [])
  unfolding send_frame
  send_frame-running f w h = elim (Bool-cases (k.send f w.sink).0) [
    | inl e ↦ ground (arith, sent-send f w.sink)
    | inr e ↦ ground (arith, e)
  ]

  pub send_frame_cases :
      (f : Bytes) (w : Writer k)
      → (sent_by (send_frame f w) ≡ sent_by w ++ (f ∷ []))
        ⊎ ((sent_by (send_frame f w) ≡ sent_by w) × ((send_frame f w).running ≡ false))
  unfolding send_frame
  send_frame_cases f w = elim (Bool-cases (k.send f w.sink).0) [
    | inl e ↦ inl (ground (arith, sent-send f w.sink))
    | inr e ↦ elim (sent-send_failed f w.sink) [
      | inl same ↦ inr (ground (arith, same), ground arith)
      | inr taken ↦ inl (ground (arith, taken))
    ]
  ]

  pub sent-flush_tick : (w : Writer k) → sent_by (flush_tick w) ≡ sent_by w
  unfolding flush_tick
  sent-flush_tick w = ground (arith, sent-flush w.sink)

  pub sent-flush_and_close : (w : Writer k) → sent_by (flush_and_close w) ≡ sent_by w
  unfolding flush_and_close
  sent-flush_and_close w = rw (sent-close (k.flush w.sink).1, sent-flush w.sink) refl

  pub sent-flush_and_return : (w : Writer k) → sent_by (flush_and_return w) ≡ sent_by w
  unfolding flush_and_return
  sent-flush_and_return w = sent-flush w.sink

pub send_frame_before :
    {k : Sink} (f : Bytes) (w : Writer k) → (send_frame f w).running ≡ true → w.running ≡ true
unfolding send_frame
send_frame_before {k} f w h = elim (Bool-cases (k.send f w.sink).0) [
  | inl e ↦ ground arith
  | inr e ↦ ground (arith, e)
]

pub flush_tick-running :
    {k : Sink} (w : Writer k) → (flush_tick w).running ≡ true → w.running ≡ true
unfolding flush_tick
flush_tick-running w h = ground arith

-- A writer that is still running has not been closed.
pub flush_and_close_lem :
    {k : Sink} (w : Writer k) → (flush_and_close w).running ≡ true → w.running ≡ true
unfolding flush_and_close
flush_and_close_lem w h = ground arith
