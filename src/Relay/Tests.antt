-- ===== src/Relay/Tests.antt =====
-- Runs and witnesses for the relay tasks.
use kafka_proxy.Base.{
  ℕ, zero, suc, ◌≡◌, refl, ◌≢◌, true, false, [], ◌∷◌, ◌++◌, none, some, arith, length, unwrap_or,
}
use kafka_proxy.Base.Map.{Map, get}
use kafka_proxy.Wire.{Bytes, put_i32, get_i16, get_i32, slice_from, slice_to}
use kafka_proxy.Metrics.{
  Metrics, new as new_metrics, inc_requests_in_flight, add_bytes_downstream, inc_frames_downstream,
}
use kafka_proxy.Rewrite.{RewriteMap, needs_rewrite, rewrite_response}
use kafka_proxy.Rewrite.Header.{
  parse_request_header, parse_response_cid, request_header, response_cid,
}
use kafka_proxy.Rewrite.Sample.{sample_protocol}
use kafka_proxy.Pool.Remap.{CidRemap, new as new_remap, with_max_in_flight, next_cid_of, insert}
use kafka_proxy.Pool.Remap.Invariant.{with_max_in_flight-IsValid}
use kafka_proxy.Pool.Remap.Runs.{fails, run as run_calls, insertions}
use kafka_proxy.Pool.Broker.{
  BrokerPool, Acquired, new as new_pool, register_request, cancel_request,
}
use kafka_proxy.Pool.Route.{read_loop_round}
use kafka_proxy.Relay.PerConnection.{Relay, request, on_upstream_frame, run, on_upstream_frame-run}
use kafka_proxy.Relay.Pooled.{
  PooledRelay, World, forwarded, closed, request_of, with_cid, send_request, renew_lease, on_frame,
}
use kafka_proxy.Relay.Leases.{on_frame_total, on_frame_forwarded}
use kafka_proxy.Relay.Delivery.{delivered}

-- A Metadata request and its response, with the correlation id 7.
abbrev ask : Bytes
ask = 0 ∷ 3 ∷ 0 ∷ 9 ∷ 0 ∷ 0 ∷ 0 ∷ 7 ∷ []

abbrev answer : Bytes
answer = 0 ∷ 0 ∷ 0 ∷ 7 ∷ 0 ∷ 0 ∷ 0 ∷ 1 ∷ 0 ∷ 0 ∷ 35 ∷ 132 ∷ b'r' ∷ []

abbrev table : RewriteMap
table = (1, (b'p' ∷ [], 19092)) ∷ []

abbrev idle_relay : Relay
idle_relay = record { pending = []; metrics = new_metrics true }

ask_header : request_header ask ≡ some (3, 9, 7)
unfolding request_header parse_request_header get_i16 get_i32
ask_header = refl

answer_cid : response_cid answer ≡ some 7
unfolding response_cid parse_response_cid get_i32
answer_cid = refl

-- A request too short to be parsed comes between the two.
short_header : (key version : ℕ) → request_header (1 ∷ []) ≢ some (key, version, 7)
unfolding request_header parse_request_header get_i16 get_i32
short_header key version e = ground arith

on_upstream_frame-run_example :
    (on_upstream_frame sample_protocol table answer
      (run sample_protocol table (request ask ∷ request (1 ∷ []) ∷ []) idle_relay)).0
    ≡ unwrap_or (rewrite_response sample_protocol 3 9 answer table) answer
on_upstream_frame-run_example =
    on_upstream_frame-run sample_protocol table ask answer (request (1 ∷ []) ∷ []) idle_relay 3 9 7
      ask_header (unfold needs_rewrite in refl) (omega arith) (short_header, tt) answer_cid

-- 1024 requests with the id 8.
abbrev many : ℕ → Map (ℕ × ℕ)
many zero = []
many (suc n) = (8, (3, 9)) ∷ many n

length-many : (n : ℕ) → length (many n) ≡ n
length-many zero = refl
length-many (suc n) = omega (arith, length-many n)

get-many : (n : ℕ) → get 7 (many n) ≡ none
unfolding get
get-many zero = refl
get-many (suc n) = ground (arith, get-many n)

-- A Fetch request with the correlation id 40, and what goes upstream for it.
abbrev fetch : Bytes
fetch = 0 ∷ 1 ∷ 0 ∷ 12 ∷ 0 ∷ 0 ∷ 0 ∷ 40 ∷ 99 ∷ []

abbrev fetch_up : Bytes
fetch_up = 0 ∷ 1 ∷ 0 ∷ 12 ∷ 0 ∷ 0 ∷ 0 ∷ 2 ∷ 99 ∷ []

abbrev lease : Acquired
lease = record { write_tx = 11; conn_id = 3 }

abbrev client : PooledRelay
client = record { downstream_tx = 7; lease = some lease; lease_deadline = 1000 }

-- The connection takes the frame.
abbrev world : World
world = record { now = 50; acquire = λ p. (none, p); takes_frame = true }

abbrev pool : BrokerPool
pool =
    new_pool 1
      (record {
        max_per_broker = 2;
        min_idle = 1;
        idle_timeout = 300;
        acquire_timeout = 5;
        max_in_flight = 100;
      })
      new_remap (new_metrics true)

abbrev registered : BrokerPool
registered = (register_request (request_of world lease (1, 12, 40) client) pool).1

abbrev pool_sent : BrokerPool
pool_sent = record registered { metrics = inc_requests_in_flight registered.metrics }

sent :
    send_request world lease (1, 12, 40) fetch client pool
    ≡ some (forwarded lease 2 fetch_up, client, pool_sent)
unfolding send_request register_request insert next_cid_of new_pool new_remap with_cid slice_to
    slice_from put_i32
sent = refl

delivered_example :
    (r : CidRemap) × (m : Metrics) × (read_loop_round sample_protocol 90
        (put_i32 2 ++ (5 ∷ []))
        table
        (run_calls (fails 4 ∷ []) (pool_sent.cid_remap, pool_sent.metrics)).0
        (run_calls (fails 4 ∷ []) (pool_sent.cid_remap, pool_sent.metrics)).1
      ≡ some (some (record { downstream_tx = 7; frame = put_i32 40 ++ (5 ∷ []) }), r, m))
    × (get 2 r.map ≡ none)
delivered_example =
    delivered world lease lease 1 12 40 2 fetch fetch_up client client pool pool_sent sent
      sample_protocol table 90 (5 ∷ []) (fails 4 ∷ [])
      (unfold new_pool new_remap in with_max_in_flight-IsValid 100_000 true (omega arith))
      (unfold new_pool new_remap insertions with_max_in_flight in omega arith)
      ((λ e. omega arith), tt) (unfold needs_rewrite in refl)

on_frame_total_example : on_frame world fetch client pool ≢ none
on_frame_total_example = on_frame_total world fetch client pool

abbrev counted : BrokerPool
counted = record pool {
  metrics = add_bytes_downstream (length fetch) (inc_frames_downstream pool.metrics);
}

abbrev registered_next : BrokerPool
registered_next = (register_request (request_of world lease (1, 12, 40) client) counted).1

abbrev pool_next : BrokerPool
pool_next = record registered_next { metrics = inc_requests_in_flight registered_next.metrics }

forwarded_run :
    on_frame world fetch client pool ≡ some (forwarded lease 2 fetch_up, client, pool_next)
unfolding on_frame renew_lease send_request register_request insert next_cid_of new_pool new_remap
    with_cid slice_to slice_from put_i32 request_header parse_request_header get_i16 get_i32
forwarded_run = refl

on_frame_forwarded_example :
    (key : ℕ) × (version : ℕ) × (cid_d : ℕ) × (request_header fetch ≡ some (key, version, cid_d))
    × (request_header fetch_up ≡ some (key, version, 2))
    × (slice_from 8 fetch_up ≡ slice_from 8 fetch)
    × (client.lease ≡ some lease)
on_frame_forwarded_example =
    on_frame_forwarded world fetch client pool lease 2 fetch_up client pool_next (omega arith)
      forwarded_run

-- The connection takes no frame any more.
abbrev stopped : World
stopped = record world { takes_frame = false }

abbrev client_after : PooledRelay
client_after = record client { lease = none }

abbrev pool_after : BrokerPool
pool_after = cancel_request 2 pool_next

closed_run : on_frame stopped fetch client pool ≡ some (closed, client_after, pool_after)
unfolding on_frame renew_lease send_request register_request insert next_cid_of new_pool new_remap
    with_cid slice_to slice_from put_i32 request_header parse_request_header get_i16 get_i32
closed_run = refl
