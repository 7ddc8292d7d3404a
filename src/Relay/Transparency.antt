-- ===== src/Relay/Transparency.antt =====
-- src/relay.rs: what a session of the 1:1 mode carries, whatever its timers and its sinks do.
use mathlib.Core.List.{append_assoc, append-nil}
use mathlib.Core.Path.{subst, sym}
use kafka_proxy.Base.{◌≡◌, refl, ◌∙◌, true, List, [], ◌∷◌, ◌++◌, arith, inl, inr, Bool-cases}
use kafka_proxy.Wire.{Bytes}
use kafka_proxy.Wire.Sink.{
  Sink, SinkLaws, Writer, sent_by, send_frame-running, sent-flush_tick, sent-flush_and_close,
  flush_tick-running, flush_and_close_lem,
}
use kafka_proxy.Rewrite.Codec.{Protocol}
use kafka_proxy.Rewrite.{RewriteMap}
use kafka_proxy.Relay.PerConnection.{
  Relay, Frame, request, response, on_frame, on_downstream_frame, on_upstream_frame, run,
}
use kafka_proxy.Relay.Session.{
  Input, frame, read_error, end_of_stream, idle_elapsed, tick, Event, from_client, from_broker,
  Session, on_other, on_client_input, on_broker_input, on_event, run_events,
}

-- The frames that come in, in their order.
unfoldable pub frames_of : List Event → List Frame
frames_of [] = []
frames_of (from_client (frame bytes) ∷ es) = request bytes ∷ frames_of es
frames_of (from_broker (frame bytes) ∷ es) = response bytes ∷ frames_of es
frames_of (e ∷ es) = frames_of es

unfoldable pub client_frames : List Frame → List Bytes
client_frames [] = []
client_frames (request bytes ∷ fs) = bytes ∷ client_frames fs
client_frames (response bytes ∷ fs) = client_frames fs

-- The answers a client should get: each response, rewritten as its request asks.
unfoldable pub answers : Protocol → RewriteMap → List Frame → Relay → List Bytes
answers p map [] r = []
answers p map (request bytes ∷ fs) r = answers p map fs (on_frame p map (request bytes) r).1
answers p map (response bytes ∷ fs) r =
    let done = on_frame p map (response bytes) r in done.0 ∷ answers p map fs done.1

on_other-running :
    {k : Sink} (i : Input) (w : Writer k) → (on_other i w).running ≡ true → w.running ≡ true
unfolding on_other
on_other-running tick w h = flush_tick-running w h
on_other-running (frame bytes) w h = flush_and_close_lem w h
on_other-running read_error w h = flush_and_close_lem w h
on_other-running end_of_stream w h = flush_and_close_lem w h
on_other-running idle_elapsed w h = flush_and_close_lem w h

pub sent-on_other :
    {k : Sink} (laws : SinkLaws k) (i : Input) (w : Writer k) → sent_by (on_other i w) ≡ sent_by w
unfolding on_other
sent-on_other laws tick w = sent-flush_tick laws w
sent-on_other laws (frame bytes) w = sent-flush_and_close laws w
sent-on_other laws read_error w = sent-flush_and_close laws w
sent-on_other laws end_of_stream w = sent-flush_and_close laws w
sent-on_other laws idle_elapsed w = sent-flush_and_close laws w

module _ {up down : Sink} (p : Protocol) (map : RewriteMap) where
  -- A task that runs after an event ran before it.
  up_before :
      (e : Event) (s : Session up down)
      → (on_event p map e s).up_write.running ≡ true
      → s.up_write.running ≡ true
  unfolding on_event on_broker_input
  up_before (from_client i) s h = elim (Bool-cases s.up_write.running) [
    | inl on ↦ on
    | inr off ↦ ground (arith, off)
  ]
  up_before (from_broker (frame bytes)) s h = ground arith
  up_before (from_broker tick) s h = ground arith
  up_before (from_broker read_error) s h = ground arith
  up_before (from_broker end_of_stream) s h = ground arith
  up_before (from_broker idle_elapsed) s h = ground arith

  down_before :
      (e : Event) (s : Session up down)
      → (on_event p map e s).down_write.running ≡ true
      → s.down_write.running ≡ true
  unfolding on_event on_client_input
  down_before (from_broker i) s h = elim (Bool-cases s.down_write.running) [
    | inl on ↦ on
    | inr off ↦ ground (arith, off)
  ]
  down_before (from_client (frame bytes)) s h = ground arith
  down_before (from_client tick) s h = ground arith
  down_before (from_client read_error) s h = ground arith
  down_before (from_client end_of_stream) s h = ground arith
  down_before (from_client idle_elapsed) s h = ground arith

  run_up_before :
      (es : List Event) (s : Session up down)
      → (run_events p map es s).up_write.running ≡ true
      → s.up_write.running ≡ true
  unfolding run_events
  run_up_before [] s h = h
  run_up_before (e ∷ es) s h = up_before e s (run_up_before es _ h)

  run_down_before :
      (es : List Event) (s : Session up down)
      → (run_events p map es s).down_write.running ≡ true
      → s.down_write.running ≡ true
  unfolding run_events
  run_down_before [] s h = h
  run_down_before (e ∷ es) s h = down_before e s (run_down_before es _ h)

module _ {up down : Sink} where
  -- From `s` to `t` the frames were forwarded one for one: what the tasks share is what the frames
  -- alone make of it, the client's frames went up as they came, and each response went down as its
  -- request asks.
  abbrev pub Forwards :
      Protocol → RewriteMap → List Frame → Session up down → Session up down → Type 0
  Forwards p map fs s t =
      (t.relay ≡ run p map fs s.relay)
      × (sent_by t.up_write ≡ sent_by s.up_write ++ client_frames fs)
      × (sent_by t.down_write ≡ sent_by s.down_write ++ answers p map fs s.relay)

module _ {up down : Sink} (p : Protocol) (map : RewriteMap) (laws_up : SinkLaws up)
    (laws_down : SinkLaws down) where
  after_request :
      (bytes : Bytes) (fs : List Frame) (s u : Session up down)
      → (on_client_input (frame bytes) s).up_write.running ≡ true
      → Forwards p map fs (on_client_input (frame bytes) s) u
      → Forwards p map (request bytes ∷ fs) s u
  unfolding on_client_input run client_frames answers on_frame on_downstream_frame
  after_request bytes fs s u on (relay, upward, downward) = (
    relay,
    upward
        ∙ rw (send_frame-running laws_up bytes s.up_write on)
            (append_assoc (sent_by s.up_write) (bytes ∷ []) (client_frames fs)),
    downward,
  )

  after_response :
      (bytes : Bytes) (fs : List Frame) (s u : Session up down)
      → (on_broker_input p map (frame bytes) s).down_write.running ≡ true
      → Forwards p map fs (on_broker_input p map (frame bytes) s) u
      → Forwards p map (response bytes ∷ fs) s u
  unfolding on_broker_input run client_frames answers on_frame
  after_response bytes fs s u on (relay, upward, downward) =
      let done = on_upstream_frame p map bytes s.relay in
      (
        relay,
        upward,
        downward
            ∙ rw (send_frame-running laws_down done.0 s.down_write on)
                (append_assoc (sent_by s.down_write) (done.0 ∷ []) (answers p map fs done.1)),
      )

  after_up_other :
      (i : Input) (fs : List Frame) (s u : Session up down)
      → Forwards p map fs (record s { up_write = on_other i s.up_write }) u
      → Forwards p map fs s u
  after_up_other i fs s u (relay, upward, downward) =
      (relay, upward ∙ rw (sent-on_other laws_up i s.up_write) refl, downward)

  after_down_other :
      (i : Input) (fs : List Frame) (s u : Session up down)
      → Forwards p map fs (record s { down_write = on_other i s.down_write }) u
      → Forwards p map fs s u
  after_down_other i fs s u (relay, upward, downward) =
      (relay, upward, downward ∙ rw (sent-on_other laws_down i s.down_write) refl)

  client_event :
      (i : Input) (s : Session up down)
      → s.up_write.running ≡ true
      → on_event p map (from_client i) s ≡ on_client_input i s
  unfolding on_event
  client_event i s on = rw on refl

  broker_event :
      (i : Input) (s : Session up down)
      → s.down_write.running ≡ true
      → on_event p map (from_broker i) s ≡ on_broker_input p map i s
  unfolding on_event
  broker_event i s on = rw on refl

  from_client_input :
      (i : Input) (es : List Event) (s u : Session up down)
      → (on_client_input i s).up_write.running ≡ true
      → Forwards p map (frames_of es) (on_client_input i s) u
      → Forwards p map (frames_of (from_client i ∷ es)) s u
  unfolding frames_of on_client_input
  from_client_input (frame bytes) es s u on f = after_request bytes (frames_of es) s u on f
  from_client_input tick es s u on f = after_up_other tick (frames_of es) s u f
  from_client_input read_error es s u on f = after_up_other read_error (frames_of es) s u f
  from_client_input end_of_stream es s u on f = after_up_other end_of_stream (frames_of es) s u f
  from_client_input idle_elapsed es s u on f = after_up_other idle_elapsed (frames_of es) s u f

  from_broker_input :
      (i : Input) (es : List Event) (s u : Session up down)
      → (on_broker_input p map i s).down_write.running ≡ true
      → Forwards p map (frames_of es) (on_broker_input p map i s) u
      → Forwards p map (frames_of (from_broker i ∷ es)) s u
  unfolding frames_of on_broker_input
  from_broker_input (frame bytes) es s u on f = after_response bytes (frames_of es) s u on f
  from_broker_input tick es s u on f = after_down_other tick (frames_of es) s u f
  from_broker_input read_error es s u on f = after_down_other read_error (frames_of es) s u f
  from_broker_input end_of_stream es s u on f = after_down_other end_of_stream (frames_of es) s u f
  from_broker_input idle_elapsed es s u on f = after_down_other idle_elapsed (frames_of es) s u f

  -- A session implements the forwarding of frames. Whatever the two tasks get to see and in whatever
  -- order, flush ticks included, and whatever sinks they write to that keep the laws: as long as both
  -- tasks run, what the tasks share is what the frames alone make of it one after the other, the
  -- client's frames have gone to the broker byte for byte in the order they came, and the broker's
  -- have gone to the client in the order they came, each rewritten as its own request asks.
  pub run_events-Forwards :
      (es : List Event) (s : Session up down)
      → (run_events p map es s).up_write.running ≡ true
      → (run_events p map es s).down_write.running ≡ true
      → Forwards p map (frames_of es) s (run_events p map es s)
  unfolding run_events
  run_events-Forwards [] s on_up on_down =
      unfold frames_of run client_frames answers in
      (refl, sym (append-nil (sent_by s.up_write)), sym (append-nil (sent_by s.down_write)))
  run_events-Forwards (from_client i ∷ es) s on_up on_down =
      let t = on_event p map (from_client i) s in
      let on_t = run_up_before p map es t on_up in
      let same = client_event i s (up_before p map (from_client i) s on_t) in
      from_client_input i es s (run_events p map es t)
        (subst (λ x. x.up_write.running ≡ true) same on_t)
        (subst (λ x. Forwards p map (frames_of es) x (run_events p map es t)) same
          (run_events-Forwards es t on_up on_down))
  run_events-Forwards (from_broker i ∷ es) s on_up on_down =
      let t = on_event p map (from_broker i) s in
      let on_t = run_down_before p map es t on_down in
      let same = broker_event i s (down_before p map (from_broker i) s on_t) in
      from_broker_input i es s (run_events p map es t)
        (subst (λ x. x.down_write.running ≡ true) same on_t)
        (subst (λ x. Forwards p map (frames_of es) x (run_events p map es t)) same
          (run_events-Forwards es t on_up on_down))
