-- ===== src/Pool/Broker.antt =====
-- src/pool.rs: `BrokerPool`. Each function below is one stretch of a method between two awaits that
-- another task can come between; locks are held for such a stretch only. Times are nanoseconds on
-- one clock, a channel is a number that names it, and the outcome of a connection attempt is an
-- argument. A usize is a ℕ below 2 ^ 64, and `-=` wraps as it does in a release build.
use kafka_proxy.Base.{
  ℕ, zero, suc, ◌+◌, ◌-◌, ◌%◌, Bool, true, false, not, ◌||◌, List, [], ◌∷◌, ◌++◌, Option, none,
  some, leb, ltb, length, retain, if◌then◌else◌, is_none,
}
use kafka_proxy.Metrics.{
  Metrics, inc_pool_hits, inc_pool_misses, inc_upstream_connections, dec_upstream_connections,
  inc_auth_failures, inc_pool_waiters, dec_pool_waiters, inc_pool_evictions, dec_requests_in_flight,
  word64,
}
use kafka_proxy.Metrics.Latency.{observe}
use kafka_proxy.Pool.Remap.{CidRemap, Request, insert, take, alloc_conn_id, fail_conn}

pub record PooledConn : Type 0 where
  pub write_tx : ℕ
  pub alive : Bool
  pub last_used : ℕ
  pub conn_id : ℕ

pub record PoolLimits : Type 0 where
  pub max_per_broker : ℕ
  pub min_idle : ℕ
  pub idle_timeout : ℕ
  pub acquire_timeout : ℕ
  pub max_in_flight : ℕ

-- `notified` counts the calls of `notify_one`; the address and the credentials only pass through to
-- the connection attempt.
pub record BrokerPool : Type 0 where
  pub node_id : ℕ
  pub config : PoolLimits
  pub open config use *
  pub idle : List PooledConn
  pub count : ℕ
  pub notified : ℕ
  pub cid_remap : CidRemap
  pub metrics : Metrics

unfoldable pub new : ℕ → PoolLimits → CidRemap → Metrics → BrokerPool
new node_id config cid_remap metrics = record {
  node_id = node_id;
  config = config;
  idle = [];
  count = 0;
  notified = 0;
  cid_remap = cid_remap;
  metrics = metrics;
}

pub record Acquired : Type 0 where
  pub write_tx : ℕ
  pub conn_id : ℕ

abbrev pub observe_acquire : ℕ → Metrics → Metrics
observe_acquire waited m = record m { acquire_hist = observe m.acquire_hist waited }

-- 1. The front of the idle queue, if it is alive; a dead one is dropped.
unfoldable pub pop_idle : ℕ → BrokerPool → Option Acquired × BrokerPool
pop_idle waited p = elim p.idle [
  | [] ↦ (none, p)
  | conn ∷ rest ↦
      if conn.alive
      then (
        some (record { write_tx = conn.write_tx; conn_id = conn.conn_id }),
        record p { idle = rest; metrics = observe_acquire waited (inc_pool_hits p.metrics) },
      )
      else (none, record p { idle = rest })
]

-- 2. A place for a new connection, if the limit allows one.
unfoldable pub reserve : ℕ → BrokerPool → Bool × BrokerPool
reserve waited p =
    if ltb p.count p.max_per_broker
    then (
      true,
      record p {
        count = p.count + 1;
        metrics = observe_acquire waited (inc_pool_misses p.metrics);
      },
    )
    else (false, p)

-- What a turn of the loop of `acquire` comes to before it awaits anything.
pub data Turn : Type 0 where
  acquired : Acquired → Turn
  connects : Turn
  waits : Turn

unfoldable pub acquire_turn : ℕ → BrokerPool → Turn × BrokerPool
unfolding pop_idle reserve
acquire_turn waited p =
    let (found, p₁) = pop_idle waited p in
    elim found [
      | some a ↦ (acquired a, p₁)
      | none ↦
          let (can_create, p₂) = reserve waited p₁ in
          if can_create
          then (connects, p₂)
          else (waits, record p₂ { metrics = inc_pool_waiters p₂.metrics })
    ]

-- `create_conn`: the write channel of a connection attempt that succeeded and the time that it
-- took, or nothing.
unfoldable pub create_conn : Option (ℕ × ℕ) → BrokerPool → Option Acquired × BrokerPool
create_conn none p = (none, p)
create_conn (some (write_tx, took)) p =
    let (conn_id, remap) = alloc_conn_id p.cid_remap in
    (
      some (record { write_tx = write_tx; conn_id = conn_id }),
      record p {
        cid_remap = remap;
        metrics = record p.metrics { handshake_hist = observe p.metrics.handshake_hist took };
      },
    )

-- The end of `acquire` on a new connection: a failure gives the place back.
unfoldable pub finish_connect : Option (ℕ × ℕ) → BrokerPool → Option Acquired × BrokerPool
unfolding create_conn
finish_connect attempt p =
    let (made, p') = create_conn attempt p in
    elim made [
      | some a ↦ (some a, record p' { metrics = inc_upstream_connections p'.metrics })
      | none ↦ (
        none,
        record p' {
          count = (p'.count + word64 - 1) % word64;
          metrics = inc_auth_failures p'.metrics;
        },
      )
    ]

-- 3. The end of a wait: a timeout ends `acquire` with an error, a notification starts a new turn.
unfoldable pub wait_over : Bool → ℕ → BrokerPool → BrokerPool
wait_over timed_out waited p =
    let m = dec_pool_waiters p.metrics in
    if timed_out then record p { metrics = m } else record p { metrics = observe_acquire waited m }

-- `warmup`: one attempt after another, up to `min_idle`, until one fails.
unfoldable pub warmup_loop : ℕ → List (Option (ℕ × ℕ)) → ℕ → BrokerPool → BrokerPool
unfolding create_conn
warmup_loop zero attempts now p = p
warmup_loop (suc n) [] now p = p
warmup_loop (suc n) (attempt ∷ attempts) now p =
    let made = (create_conn attempt p).0 in
    let p' = (create_conn attempt p).1 in
    elim made [
      | none ↦ p'
      | some a ↦ warmup_loop n attempts now (record p' {
        idle =
            p'.idle
            ++ record { write_tx = a.write_tx; alive = true; last_used = now; conn_id = a.conn_id }
              ∷ [];
        metrics = inc_upstream_connections p'.metrics;
      })
    ]

unfoldable pub warmup : List (Option (ℕ × ℕ)) → ℕ → BrokerPool → BrokerPool
unfolding warmup_loop
warmup attempts now p = warmup_loop p.min_idle attempts now p

-- The test of the reaper: `Instant::duration_since` is 0 for an earlier time, as `-` is here.
abbrev pub is_kept : ℕ → ℕ → PooledConn → Bool
is_kept now idle_timeout conn = not (leb idle_timeout (now - conn.last_used) || not conn.alive)

unfoldable pub evict : ℕ → Metrics → Metrics
evict zero m = m
evict (suc n) m = evict n (dec_upstream_connections (inc_pool_evictions m))

-- One tick of the task of `start_reaper`.
unfoldable pub reap : ℕ → BrokerPool → BrokerPool
unfolding evict
reap now p =
    let kept = retain (is_kept now p.idle_timeout) p.idle in
    let removed = length p.idle - length kept in
    let p' = record p { idle = kept; metrics = evict removed p.metrics } in
    if ltb 0 removed then record p' { count = p.count - removed; notified = p.notified + 1 } else p'

unfoldable pub release : ℕ → Acquired → BrokerPool → BrokerPool
release now a p =
    let conn : PooledConn = record {
      write_tx = a.write_tx;
      alive = true;
      last_used = now;
      conn_id = a.conn_id;
    } in
    let p' =
      if ltb (length p.idle) p.max_per_broker then record p { idle = p.idle ++ conn ∷ [] } else p in
    record p' { notified = p'.notified + 1 }

unfoldable pub idle_count : BrokerPool → ℕ
idle_count p = length p.idle

unfoldable pub register_request : Request → BrokerPool → Option ℕ × BrokerPool
register_request q p =
    let (cid_u, remap, m) = insert q p.cid_remap p.metrics in
    (cid_u, record p { cid_remap = remap; metrics = m })

unfoldable pub cancel_request : ℕ → BrokerPool → BrokerPool
cancel_request cid_u p =
    let (entry, remap, m) = take cid_u p.cid_remap p.metrics in
    record p { cid_remap = remap; metrics = if is_none entry then m else dec_requests_in_flight m }

unfoldable pub end_requests : ℕ → Metrics → Metrics
end_requests zero m = m
end_requests (suc n) m = end_requests n (dec_requests_in_flight m)

-- The end of `write_loop`, whatever ended it: the connection's requests leave the table.
unfoldable pub connection_ended : ℕ → BrokerPool → BrokerPool
unfolding end_requests
connection_ended conn_id p =
    let (removed, remap, m) = fail_conn conn_id p.cid_remap p.metrics in
    record p {
      cid_remap = remap;
      metrics = inc_pool_evictions (dec_upstream_connections (end_requests removed m));
    }
