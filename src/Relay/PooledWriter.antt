-- ===== src/Relay/PooledWriter.antt =====
-- src/relay.rs: `PooledRelay::run_inner`, the task that writes responses to the client. Its channel
-- yields `none` once every sender is gone: the reading task's, and those in the table of requests.
use mathlib.Core.List.{append_assoc}
use kafka_proxy.Base.{
  ◌≡◌, refl, ◌∙◌, true, false, List, [], ◌∷◌, ◌++◌, Option, none, some, if◌then◌else◌, Bool-cases,
  inl, inr,
}
use kafka_proxy.Wire.{Bytes}
use kafka_proxy.Wire.Sink.{
  Sink, SinkLaws, Writer, sent_by, send_frame, flush_tick, flush_and_return, send_frame_cases,
  sent-flush_tick, sent-flush_and_return,
}

-- What `select!` yields: what the channel does, or a flush tick.
pub data Yielded : Type 0 where
  received : Option Bytes → Yielded
  tick : Yielded

module _ {k : Sink} where
  unfoldable pub writer_round : Yielded → Writer k → Writer k
  writer_round (received (some f)) w = send_frame f w
  writer_round (received none) w = flush_and_return w
  writer_round tick w = flush_tick w

  unfoldable pub write_responses : List Yielded → Writer k → Writer k
  write_responses [] w = w
  write_responses (y ∷ ys) w =
      let next = write_responses ys (writer_round y w) in if w.running then next else w

-- The responses received.
unfoldable pub responses : List Yielded → List Bytes
responses [] = []
responses (received (some f) ∷ ys) = f ∷ responses ys
responses (y ∷ ys) = responses ys

module _ {k : Sink} (laws : SinkLaws k) where
  stopped_writer : (ys : List Yielded) (w : Writer k) → w.running ≡ false → write_responses ys w ≡ w
  unfolding write_responses
  stopped_writer [] w off = refl
  stopped_writer (y ∷ ys) w off = rw off refl

  abbrev Sends : List Yielded → Writer k → List Bytes → Type 0
  Sends ys w input = (rest : List Bytes) × (sent_by (write_responses ys w) ++ rest ≡ input)

  after_round :
      (y : Yielded) (ys : List Yielded) (w : Writer k)
      → Sends ys (writer_round y w) (sent_by (writer_round y w) ++ responses ys)
      → Sends ys (writer_round y w) (sent_by w ++ responses (y ∷ ys))
  unfolding writer_round responses
  after_round (received (some f)) ys w (rest, e) = elim (send_frame_cases laws f w) [
    | inl taken ↦ (rest, e ∙ rw taken (append_assoc (sent_by w) (f ∷ []) (responses ys)))
    | inr (lost, off) ↦ (f ∷ responses ys, rw (stopped_writer ys (send_frame f w) off, lost) refl)
  ]
  after_round (received none) ys w (rest, e) = (rest, e ∙ rw (sent-flush_and_return laws w) refl)
  after_round tick ys w (rest, e) = (rest, e ∙ rw (sent-flush_tick laws w) refl)

  running_writer :
      (y : Yielded) (ys : List Yielded) (w : Writer k)
      → w.running ≡ true
      → write_responses (y ∷ ys) w ≡ write_responses ys (writer_round y w)
  unfolding write_responses
  running_writer y ys w on = rw on refl

  -- A client of the pooled mode gets a first part of the responses that reach its channel: in their
  -- order, nothing twice, nothing made up.
  pub write_responses-prefix :
      (ys : List Yielded) (w : Writer k)
      → (rest : List Bytes) × (sent_by (write_responses ys w) ++ rest ≡ sent_by w ++ responses ys)
  unfolding write_responses responses
  write_responses-prefix [] w = ([], refl)
  write_responses-prefix (y ∷ ys) w = elim (Bool-cases w.running) [
    | inl on ↦
        let (rest, e) = after_round y ys w (write_responses-prefix ys (writer_round y w)) in
        (rest, rw (running_writer y ys w on) e)
    | inr off ↦ (responses (y ∷ ys), rw off refl)
  ]
