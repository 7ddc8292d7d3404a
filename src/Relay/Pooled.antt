-- ===== src/Relay/Pooled.antt =====
-- src/relay.rs: `PooledRelay::run_inner`, the task that reads a client's frames. A handler runs for
-- each frame. `acquire` is what the await of `BrokerPool::acquire` comes to: other tasks use the pool
-- meanwhile, so its result is an argument, as is whether the connection takes the frame. Times are
-- nanoseconds.
use kafka_proxy.Base.{
  ℕ, ◌+◌, ◌^◌, ◌≤◌, ◌<◌, ◌≡◌, refl, Bool, ◌||◌, [], ◌∷◌, ◌++◌, Option, none, some, arith, leb,
  length, if◌then◌else◌, is_none, ◌>>=◌,
}
use kafka_proxy.Wire.{Bytes, put_i32, slice_from, slice_to, get_i16, get_i32}
use kafka_proxy.Metrics.{inc_frames_downstream, add_bytes_downstream, inc_requests_in_flight}
use kafka_proxy.Rewrite.Header.{parse_request_header, parse_request_header-returns, request_header}
use kafka_proxy.Pool.Remap.{Request}
use kafka_proxy.Pool.Broker.{BrokerPool, Acquired, release, register_request, cancel_request}

-- 200 milliseconds.
abbrev pub lease_duration : ℕ
lease_duration = 200_000_000

pub record PooledRelay : Type 0 where
  pub downstream_tx : ℕ
  pub lease : Option Acquired
  pub lease_deadline : ℕ

-- What the rest of the system does while a frame is handled: the time, the outcome of `acquire`, and
-- whether the write channel of the connection takes the frame.
pub record World : Type 0 where
  pub now : ℕ
  pub acquire : BrokerPool → Option Acquired × BrokerPool
  pub takes_frame : Bool

-- A frame sent to a connection, a frame passed over, or the end of the client's connection.
pub data Outcome : Type 0 where
  forwarded : Acquired → ℕ → Bytes → Outcome
  skipped : Outcome
  closed : Outcome

-- The frame with `cid_u` in the place of the client's correlation id; `none` is a panic of a slice.
unfoldable pub with_cid : ℕ → Bytes → Option Bytes
with_cid cid_u bytes = do
  head ← slice_to 4 bytes
  rest ← slice_from 8 bytes
  some (head ++ (put_i32 cid_u ++ rest))

-- `lease.take()` and, if there was one, `pool.release`.
unfoldable pub give_back : ℕ → Option Acquired → BrokerPool → BrokerPool
give_back now none pool = pool
give_back now (some a) pool = release now a pool

abbrev pub without_lease : PooledRelay → PooledRelay
without_lease c = record c { lease = none }

-- The ends of the loop other than a failed send: end of stream, idle timeout, and read error.
unfoldable pub on_end : ℕ → PooledRelay → BrokerPool → PooledRelay × BrokerPool
unfolding give_back
on_end now c pool = (without_lease c, give_back now c.lease pool)

-- The lease to use: the one held until its deadline, then one newly acquired.
unfoldable pub renew_lease : World → PooledRelay → BrokerPool → PooledRelay × BrokerPool
unfolding give_back
renew_lease w c pool =
    if is_none c.lease || leb c.lease_deadline w.now
    then (let got = w.acquire (give_back w.now c.lease pool) in
        elim (got.0) [
          | none ↦ (without_lease c, got.1)
          | some a ↦ (record c { lease = some a; lease_deadline = w.now + lease_duration }, got.1)
        ])
    else (c, pool)

-- The arguments of `register_request`.
abbrev pub request_of : World → Acquired → ℕ × ℕ × ℕ → PooledRelay → Request
request_of w a (api_key, api_version, cid_d) c = record {
  downstream_tx = c.downstream_tx;
  cid_d = cid_d;
  api_key = api_key;
  api_version = api_version;
  conn_id = a.conn_id;
  now = w.now;
}

-- From the lease on: registration, the new header, and the send.
unfoldable pub send_request :
    World
    → Acquired
    → ℕ × ℕ × ℕ
    → Bytes
    → PooledRelay
    → BrokerPool
    → Option (Outcome × PooledRelay × BrokerPool)
unfolding with_cid give_back
send_request w a header bytes c pool =
    let reg = register_request (request_of w a header c) pool in
    elim (reg.0) [
      | none ↦ some (closed, without_lease c, give_back w.now c.lease reg.1)
      | some cid_u ↦
          let counted = record reg.1 { metrics = inc_requests_in_flight reg.1.metrics } in
          elim (with_cid cid_u bytes) [
            | none ↦ none
            | some frame ↦
                if w.takes_frame
                then some (forwarded a cid_u frame, c, counted)
                else some (closed, without_lease c, cancel_request cid_u counted)
          ]
    ]

-- From the parsed header on; `pool` has counted the frame.
unfoldable pub on_header :
    World
    → Bytes
    → Option (ℕ × ℕ × ℕ)
    → PooledRelay
    → BrokerPool
    → Option (Outcome × PooledRelay × BrokerPool)
unfolding renew_lease send_request
on_header w bytes found c counted = elim found [
  | none ↦ some (skipped, c, counted)
  | some header ↦
      let renewed = renew_lease w c counted in
      elim (renewed.0.lease) [
        | none ↦ some (closed, renewed.0, renewed.1)
        | some a ↦ send_request w a header bytes renewed.0 renewed.1
      ]
]

-- The handler of a frame; the outer `none` is a panic.
unfoldable pub on_frame :
    World → Bytes → PooledRelay → BrokerPool → Option (Outcome × PooledRelay × BrokerPool)
unfolding on_header
on_frame w bytes c pool =
    let counted = record pool {
      metrics = add_bytes_downstream (length bytes) (inc_frames_downstream pool.metrics);
    } in
    elim (parse_request_header bytes) [
      | none ↦ none
      | some found ↦ on_header w bytes found c counted
    ]

pub on_frame-on_header :
    (w : World) (bytes : Bytes) (c : PooledRelay) (pool : BrokerPool)
    → on_frame w bytes c pool
      ≡ on_header w bytes (request_header bytes) c (record pool {
        metrics = add_bytes_downstream (length bytes) (inc_frames_downstream pool.metrics);
      })
unfolding on_frame
on_frame-on_header w bytes c pool = rw (parse_request_header-returns bytes, on_frame) refl

-- A frame of eight bytes or more, byte by byte.
pub eight :
    (xs : Bytes)
    → 8 ≤ length xs
    → (h : ℕ × ℕ × ℕ × ℕ × ℕ × ℕ × ℕ × ℕ) × (rest : Bytes) × (xs
        ≡ h.0 ∷ h.1 ∷ h.2 ∷ h.3 ∷ h.4 ∷ h.5 ∷ h.6 ∷ h.7 ∷ rest)
eight (a ∷ b ∷ c ∷ d ∷ e ∷ f ∷ g ∷ h ∷ rest) le = ((a, b, c, d, e, f, g, h), rest, refl)
eight [] le = absurd (omega arith)
eight (a ∷ []) le = absurd (omega arith)
eight (a ∷ b ∷ []) le = absurd (omega arith)
eight (a ∷ b ∷ c ∷ []) le = absurd (omega arith)
eight (a ∷ b ∷ c ∷ d ∷ []) le = absurd (omega arith)
eight (a ∷ b ∷ c ∷ d ∷ e ∷ []) le = absurd (omega arith)
eight (a ∷ b ∷ c ∷ d ∷ e ∷ f ∷ []) le = absurd (omega arith)
eight (a ∷ b ∷ c ∷ d ∷ e ∷ f ∷ g ∷ []) le = absurd (omega arith)

pub request_header-length :
    (bytes : Bytes) (header : ℕ × ℕ × ℕ) → request_header bytes ≡ some header → 8 ≤ length bytes
unfolding request_header parse_request_header
request_header-length bytes header h = ground arith

-- The new frame asks for the same api key and version under the upstream id, with the same rest.
pub with_cid_lem :
    (cid_u : ℕ) (bytes : Bytes) (key version cid_d : ℕ)
    → cid_u < 2 ^ 32
    → request_header bytes ≡ some (key, version, cid_d)
    → (frame : Bytes) × (with_cid cid_u bytes ≡ some frame)
      × (request_header frame ≡ some (key, version, cid_u))
      × (slice_from 8 frame ≡ slice_from 8 bytes)
unfolding with_cid slice_to slice_from request_header parse_request_header put_i32 get_i16 get_i32
with_cid_lem cid_u bytes key version cid_d small h =
    let ((a, b, c, d, e, f, g, k), rest, q) =
      eight bytes (request_header-length bytes (key, version, cid_d) h) in
    (a ∷ b ∷ c ∷ d ∷ (put_i32 cid_u ++ rest), rw q, ground arith, rw q)
