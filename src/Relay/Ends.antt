-- ===== src/Relay/Ends.antt =====
-- src/relay.rs: the ends of a session of the 1:1 mode, its sends that fail, and `UpstreamGuard`.
use mathlib.Core.List.{append_assoc}
use kafka_proxy.Base.{
  ℕ, ◌^◌, ◌<◌, ◌≡◌, refl, ◌∙◌, true, false, List, [], ◌∷◌, ◌++◌, Option, none, some, arith, inl,
  inr, Bool-cases,
}
use kafka_proxy.Wire.{Bytes}
use kafka_proxy.Wire.Sink.{Sink, SinkLaws, sent_by, send_frame, send_frame_cases, flush_and_close}
use kafka_proxy.Metrics.{
  Metrics, inc_upstream_connections, dec_upstream_connections, inc_frames_downstream,
  add_bytes_downstream, inc_frames_upstream, add_bytes_upstream,
}
use kafka_proxy.Rewrite.Codec.{Protocol}
use kafka_proxy.Rewrite.{RewriteMap}
use kafka_proxy.Relay.PerConnection.{on_downstream_frame, on_upstream_frame}
use kafka_proxy.Relay.Session.{
  Input, frame, read_error, end_of_stream, idle_elapsed, tick, Event, from_client, from_broker,
  Session, on_other, on_client_input, on_broker_input, on_event, run_events, start_session,
  join_tasks, run_inner,
}
use kafka_proxy.Relay.Transparency.{sent-on_other}

-- The two ends of stream, which end a session.
abbrev pub both_ends : List Event
both_ends = from_client end_of_stream ∷ from_broker end_of_stream ∷ []

-- The frames the client sent.
unfoldable pub client_input : List Event → List Bytes
client_input [] = []
client_input (from_client (frame bytes) ∷ es) = bytes ∷ client_input es
client_input (e ∷ es) = client_input es

module _ {up down : Sink} (p : Protocol) (map : RewriteMap) where
  -- What the broker sends does not touch the write half of the other task.
  up_write-broker_event :
      (i : Input) (s : Session up down) → (on_event p map (from_broker i) s).up_write ≡ s.up_write
  unfolding on_event on_broker_input
  up_write-broker_event (frame bytes) s = ground arith
  up_write-broker_event tick s = ground arith
  up_write-broker_event read_error s = ground arith
  up_write-broker_event end_of_stream s = ground arith
  up_write-broker_event idle_elapsed s = ground arith

  up_write-off :
      (i : Input) (s : Session up down)
      → s.up_write.running ≡ false
      → (on_event p map (from_client i) s).up_write ≡ s.up_write
  unfolding on_event
  up_write-off i s off = ground (arith, off)

  up_write-stopped :
      (es : List Event) (s : Session up down)
      → s.up_write.running ≡ false
      → (run_events p map es s).up_write ≡ s.up_write
  unfolding run_events
  up_write-stopped [] s off = refl
  up_write-stopped (from_client i ∷ es) s off =
      let same = up_write-off i s off in up_write-stopped es _ (rw same off) ∙ same
  up_write-stopped (from_broker i ∷ es) s off =
      let same = up_write-broker_event i s in up_write-stopped es _ (rw same off) ∙ same

  up_write-client_event :
      (i : Input) (s : Session up down)
      → s.up_write.running ≡ true
      → (on_event p map (from_client i) s).up_write ≡ (on_client_input i s).up_write
  unfolding on_event
  up_write-client_event i s on = rw on refl

module _ {up down : Sink} (p : Protocol) (map : RewriteMap) (laws : SinkLaws up) where
  -- What is left to send after a first event: it was sent, or it never will be.
  abbrev Sends : List Event → Session up down → List Bytes → Type 0
  Sends es s input =
      (rest : List Bytes) × (sent_by (run_events p map es s).up_write ++ rest ≡ input)

  frame_first :
      (bytes : Bytes) (es : List Event) (s t : Session up down)
      → t.up_write ≡ send_frame bytes s.up_write
      → Sends es t (sent_by t.up_write ++ client_input es)
      → Sends es t (sent_by s.up_write ++ (bytes ∷ client_input es))
  frame_first bytes es s t same (rest, e) = elim (send_frame_cases laws bytes s.up_write) [
    | inl taken ↦ (
      rest,
      e ∙ rw (same, taken) (append_assoc (sent_by s.up_write) (bytes ∷ []) (client_input es)),
    )
    | inr (lost, off) ↦
        (bytes ∷ client_input es, rw (up_write-stopped p map es t (rw same off), same, lost) refl)
  ]

  on_first :
      (i : Input) (es : List Event) (s t : Session up down)
      → t.up_write ≡ (on_client_input i s).up_write
      → Sends es t (sent_by t.up_write ++ client_input es)
      → Sends es t (sent_by s.up_write ++ client_input (from_client i ∷ es))
  unfolding client_input on_client_input on_downstream_frame
  on_first (frame bytes) es s t same sends = frame_first bytes es s t same sends
  on_first tick es s t same (rest, e) =
      (rest, e ∙ rw (same, sent-on_other laws tick s.up_write) refl)
  on_first read_error es s t same (rest, e) =
      (rest, e ∙ rw (same, sent-on_other laws read_error s.up_write) refl)
  on_first end_of_stream es s t same (rest, e) =
      (rest, e ∙ rw (same, sent-on_other laws end_of_stream s.up_write) refl)
  on_first idle_elapsed es s t same (rest, e) =
      (rest, e ∙ rw (same, sent-on_other laws idle_elapsed s.up_write) refl)

  -- At every moment of a session, after ends and failed sends too, what the broker was sent is a
  -- first part of what the client sent: in the order it came, nothing twice, nothing made up.
  pub run_events-prefix :
      (es : List Event) (s : Session up down)
      → (rest : List Bytes) × (sent_by (run_events p map es s).up_write ++ rest
          ≡ sent_by s.up_write ++ client_input es)
  unfolding run_events client_input
  run_events-prefix [] s = ([], refl)
  run_events-prefix (from_client i ∷ es) s = elim (Bool-cases s.up_write.running) [
    | inl on ↦
        on_first i es s _ (up_write-client_event p map i s on)
          (run_events-prefix es (on_event p map (from_client i) s))
    | inr off ↦ (
      client_input (from_client i ∷ es),
      rw (up_write-stopped p map (from_client i ∷ es) s off) refl,
    )
  ]
  run_events-prefix (from_broker i ∷ es) s =
      let (rest, e) = run_events-prefix es (on_event p map (from_broker i) s) in
      (rest, e ∙ rw (up_write-broker_event p map i s) refl)

module _ {up down : Sink} (p : Protocol) (map : RewriteMap) where
  gauge : Session up down → ℕ
  gauge s = s.relay.metrics.upstream_connections

  gauge-client_input : (i : Input) (s : Session up down) → gauge (on_client_input i s) ≡ gauge s
  unfolding gauge on_client_input on_downstream_frame add_bytes_downstream inc_frames_downstream
  gauge-client_input (frame bytes) s = ground arith
  gauge-client_input tick s = refl
  gauge-client_input read_error s = refl
  gauge-client_input end_of_stream s = refl
  gauge-client_input idle_elapsed s = refl

  gauge-broker_input :
      (i : Input) (s : Session up down) → gauge (on_broker_input p map i s) ≡ gauge s
  unfolding gauge on_broker_input on_upstream_frame add_bytes_upstream inc_frames_upstream
  gauge-broker_input (frame bytes) s = ground arith
  gauge-broker_input tick s = refl
  gauge-broker_input read_error s = refl
  gauge-broker_input end_of_stream s = refl
  gauge-broker_input idle_elapsed s = refl

  gauge-event : (e : Event) (s : Session up down) → gauge (on_event p map e s) ≡ gauge s
  unfolding on_event
  gauge-event (from_client i) s = ground (arith, gauge-client_input i s)
  gauge-event (from_broker i) s = ground (arith, gauge-broker_input i s)

  gauge-run : (es : List Event) (s : Session up down) → gauge (run_events p map es s) ≡ gauge s
  unfolding run_events
  gauge-run [] s = refl
  gauge-run (e ∷ es) s = gauge-run es _ ∙ gauge-event e s

  run_events-append :
      (es fs : List Event) (s : Session up down)
      → run_events p map (es ++ fs) s ≡ run_events p map fs (run_events p map es s)
  unfolding run_events
  run_events-append [] fs s = refl
  run_events-append (e ∷ es) fs s = run_events-append es fs _

  join_tasks-both_ends :
      (s : Session up down)
      → join_tasks (run_events p map both_ends s)
        ≡ some (dec_upstream_connections (run_events p map both_ends s).relay.metrics)
  unfolding run_events join_tasks on_event on_client_input on_broker_input on_other flush_and_close
  join_tasks-both_ends s = elim (Bool-cases s.up_write.running) [
    | inl up_on ↦ elim (Bool-cases s.down_write.running) [
      | inl down_on ↦ rw (up_on, down_on) refl
      | inr down_off ↦ rw (up_on, down_off) refl
    ]
    | inr up_off ↦ elim (Bool-cases s.down_write.running) [
      | inl down_on ↦ rw (up_off, down_on) refl
      | inr down_off ↦ rw (up_off, down_off) refl
    ]
  ]

module _ (up down : Sink) (p : Protocol) (map : RewriteMap) where
  -- The gauge of upstream connections is balanced. A session, whether its connection attempt fails or
  -- not and whatever happens in it, has returned by the time both the client and the broker have
  -- ended their streams, and then leaves the gauge as it found it.
  pub run_inner-gauge :
      (connected : Option up.State) (d : down.State) (es : List Event) (m : Metrics)
      → m.upstream_connections < 2 ^ 64
      → (m' : Metrics) × (run_inner up down p map connected d (es ++ both_ends) m ≡ some m')
        × (m'.upstream_connections ≡ m.upstream_connections)
  unfolding run_inner gauge start_session inc_upstream_connections dec_upstream_connections
  run_inner-gauge none d es m small = (m, refl, refl)
  run_inner-gauge (some u) d es m small =
      let s = start_session up down u d m in
      let t = run_events p map both_ends (run_events p map es s) in
      (
        dec_upstream_connections t.relay.metrics,
        rw (run_events-append p map es both_ends s)
            (join_tasks-both_ends p map (run_events p map es s)),
        ground (arith, gauge-run p map both_ends (run_events p map es s), gauge-run p map es s),
      )
