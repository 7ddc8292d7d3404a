-- ===== src/Relay/PerConnection.antt =====
-- src/relay.rs: `Relay::run_inner`, the 1:1 mode. The two tasks of a connection are two handlers over
-- the shared table of pending requests; a handler runs for each frame and returns the frame to send.
-- The loops around them, with their flush ticks and ends, are in Relay/Session. The frame headers are
-- what the parse functions return; that they never panic is in Rewrite/Header.
use kafka_proxy.Base.{
  ℕ, ◌≤◌, ◌<◌, ◌≡◌, refl, ◌∙◌, true, List, [], ◌∷◌, Option, none, some, arith, leb, length,
  if◌then◌else◌, unwrap_or, Option-cases, inl, inr, ◌≢◌, All,
}
use kafka_proxy.Base.Map.{
  Map, get, insert, remove, get-insert, get-remove, length-insert-le, length-remove-le,
}
use kafka_proxy.Wire.{Bytes}
use kafka_proxy.Metrics.{
  Metrics, inc_frames_downstream, add_bytes_downstream, inc_frames_upstream, add_bytes_upstream,
}
use kafka_proxy.Rewrite.Codec.{Protocol}
use kafka_proxy.Rewrite.Header.{request_header, response_cid}
use kafka_proxy.Rewrite.{RewriteMap, needs_rewrite, rewrite_response}

abbrev pub max_pending : ℕ
max_pending = 1024

-- Correlation id to (api_key, version), and the shared metrics.
pub record Relay : Type 0 where
  pub pending : Map (ℕ × ℕ)
  pub metrics : Metrics

-- What is recorded of a request frame.
unfoldable pub record_request : Bytes → Map (ℕ × ℕ) → Map (ℕ × ℕ)
record_request bytes pending = elim (request_header bytes) [
  | none ↦ pending
  | some (api_key, api_version, cid) ↦
      if needs_rewrite api_key
      then if leb max_pending (length pending)
        then pending
        else insert cid (api_key, api_version) pending
      else pending
]

-- Downstream to upstream.
unfoldable pub on_downstream_frame : Bytes → Relay → Bytes × Relay
unfolding record_request
on_downstream_frame bytes r = (
  bytes,
  record {
    pending = record_request bytes r.pending;
    metrics = add_bytes_downstream (length bytes) (inc_frames_downstream r.metrics);
  },
)

-- `pending.remove(&cid)`: the entry of a response's id, if it has one, and the table without it.
unfoldable pub take_entry : Bytes → Map (ℕ × ℕ) → Option (ℕ × ℕ) × Map (ℕ × ℕ)
take_entry bytes pending = elim (response_cid bytes) [
  | none ↦ (none, pending)
  | some c ↦ (get c pending, remove c pending)
]

pub data Frame : Type 0 where
  request : Bytes → Frame
  response : Bytes → Frame

module _ (p : Protocol) (map : RewriteMap) where
  -- Upstream to downstream.
  unfoldable pub on_upstream_frame : Bytes → Relay → Bytes × Relay
  unfolding take_entry
  on_upstream_frame bytes r =
      let (entry, rest) = take_entry bytes r.pending in
      (
        elim entry [
          | none ↦ bytes
          | some (api_key, version) ↦ unwrap_or (rewrite_response p api_key version bytes map) bytes
        ],
        record {
          pending = rest;
          metrics = add_bytes_upstream (length bytes) (inc_frames_upstream r.metrics);
        },
      )

  unfoldable pub on_frame : Frame → Relay → Bytes × Relay
  unfolding on_downstream_frame on_upstream_frame
  on_frame (request bytes) = on_downstream_frame bytes
  on_frame (response bytes) = on_upstream_frame bytes

  unfoldable pub run : List Frame → Relay → Relay
  run [] r = r
  run (f ∷ fs) r = run fs (on_frame f r).1

record_request-le :
    (bytes : Bytes) (pending : Map (ℕ × ℕ))
    → length pending ≤ max_pending
    → length (record_request bytes pending) ≤ max_pending
unfolding record_request
record_request-le bytes pending le = elim (Option-cases (request_header bytes)) [
  | inl e ↦ ground arith
  | inr ((key, version, cid), e) ↦ ground (arith, length-insert-le cid (key, version) pending)
]

take_entry-le :
    (bytes : Bytes) (pending : Map (ℕ × ℕ)) → length (take_entry bytes pending).1 ≤ length pending
unfolding take_entry
take_entry-le bytes pending = elim (Option-cases (response_cid bytes)) [
  | inl e ↦ ground arith
  | inr (c, e) ↦ ground (arith, length-remove-le c pending)
]

on_frame_pending :
    (p : Protocol) (map : RewriteMap) (f : Frame) (r : Relay)
    → length r.pending ≤ max_pending
    → length (on_frame p map f r).1.pending ≤ max_pending
unfolding on_frame
on_frame_pending p map (request bytes) r le = record_request-le bytes r.pending le
on_frame_pending p map (response bytes) r le = omega (arith, take_entry-le bytes r.pending)

-- Whatever frames come, a relay with at most 1024 pending requests never keeps more than that.
pub run-bounded :
    (p : Protocol) (map : RewriteMap) (fs : List Frame) (r : Relay)
    → length r.pending ≤ max_pending
    → length (run p map fs r).pending ≤ max_pending
unfolding run
run-bounded p map [] r le = le
run-bounded p map (f ∷ fs) r le = run-bounded p map fs _ (on_frame_pending p map f r le)

-- The frame does not carry the id.
abbrev pub Avoids : ℕ → Frame → Type 0
Avoids cid (request bytes) = (key version : ℕ) → request_header bytes ≢ some (key, version, cid)
Avoids cid (response bytes) = response_cid bytes ≢ some cid

record_request_kept :
    (bytes : Bytes) (pending : Map (ℕ × ℕ)) (cid : ℕ)
    → Avoids cid (request bytes)
    → get cid (record_request bytes pending) ≡ get cid pending
unfolding record_request
record_request_kept bytes pending cid avoids = elim (Option-cases (request_header bytes)) [
  | inl e ↦ ground arith
  | inr ((key, version, c), e) ↦
      ground (arith, avoids key version, get-insert c cid (key, version) pending)
]

take_entry_kept :
    (bytes : Bytes) (pending : Map (ℕ × ℕ)) (cid : ℕ)
    → response_cid bytes ≢ some cid
    → get cid (take_entry bytes pending).1 ≡ get cid pending
unfolding take_entry
take_entry_kept bytes pending cid avoids = elim (Option-cases (response_cid bytes)) [
  | inl e ↦ ground arith
  | inr (c, e) ↦ ground (arith, get-remove c cid pending)
]

run_kept :
    (p : Protocol) (map : RewriteMap) (fs : List Frame) (r : Relay) (cid : ℕ)
    → All (Avoids cid) fs
    → get cid (run p map fs r).pending ≡ get cid r.pending
unfolding run on_frame
run_kept p map [] r cid avoids = refl
run_kept p map (request bytes ∷ fs) r cid avoids =
    run_kept p map fs _ cid avoids.1 ∙ record_request_kept bytes r.pending cid avoids.0
run_kept p map (response bytes ∷ fs) r cid avoids =
    run_kept p map fs _ cid avoids.1 ∙ take_entry_kept bytes r.pending cid avoids.0

on_upstream_frame_found :
    (p : Protocol) (map : RewriteMap) (bytes : Bytes) (r : Relay) (cid key version : ℕ)
    → response_cid bytes ≡ some cid
    → get cid r.pending ≡ some (key, version)
    → (on_upstream_frame p map bytes r).0
      ≡ unwrap_or (rewrite_response p key version bytes map) bytes
unfolding on_upstream_frame take_entry
on_upstream_frame_found p map bytes r cid key version e h = ground arith

-- A response is rewritten as its request asks. Let a request for one of the rewritten api keys come
-- while fewer than 1024 are pending, and then any frames that do not carry its id. The response with
-- its id goes downstream rewritten for the request's api key and version, or as it came where there
-- is nothing to rewrite.
pub on_upstream_frame-run :
    (p : Protocol) (map : RewriteMap) (ask answer : Bytes) (fs : List Frame) (r : Relay)
    (key version cid : ℕ)
    → request_header ask ≡ some (key, version, cid)
    → needs_rewrite key ≡ true
    → length r.pending < max_pending
    → All (Avoids cid) fs
    → response_cid answer ≡ some cid
    → (on_upstream_frame p map answer (run p map (request ask ∷ fs) r)).0
      ≡ unwrap_or (rewrite_response p key version answer map) answer
unfolding run on_frame
on_upstream_frame-run p map ask answer fs r key version cid header rewritten room avoids e =
    on_upstream_frame_found p map answer (run p map fs (on_downstream_frame ask r).1) cid key
      version e (run_kept p map fs (on_downstream_frame ask r).1 cid avoids ∙ recorded)
  where
    recorded : get cid (record_request ask r.pending) ≡ some (key, version)
    recorded = unfold record_request in ground (arith, get-insert cid cid (key, version) r.pending)

-- While 1024 requests are pending, a further request is not recorded: if its id is not in use, and no
-- frame carries the id before the response does, the response goes downstream as it came.
pub on_upstream_frame_full :
    (p : Protocol) (map : RewriteMap) (ask answer : Bytes) (fs : List Frame) (r : Relay)
    (key version cid : ℕ)
    → request_header ask ≡ some (key, version, cid)
    → max_pending ≤ length r.pending
    → get cid r.pending ≡ none
    → All (Avoids cid) fs
    → response_cid answer ≡ some cid
    → (on_upstream_frame p map answer (run p map (request ask ∷ fs) r)).0 ≡ answer
unfolding run on_frame
on_upstream_frame_full p map ask answer fs r key version cid header full unused avoids e =
    forwarded (run p map fs (on_downstream_frame ask r).1) (
      run_kept p map fs (on_downstream_frame ask r).1 cid avoids
      ∙ (unfold record_request in ground arith))
  where
    forwarded :
        (s : Relay) → get cid s.pending ≡ none → (on_upstream_frame p map answer s).0 ≡ answer
    forwarded s h = unfold on_upstream_frame take_entry in ground arith
