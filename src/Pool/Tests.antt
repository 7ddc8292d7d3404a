-- ===== src/Pool/Tests.antt =====
-- Runs and witnesses for the pool of connections.
use kafka_proxy.Base.{◌+◌, ◌≤◌, ◌≡◌, refl, ◌≢◌, true, [], ◌∷◌, none, some, arith, length}
use kafka_proxy.Metrics.{new as new_metrics}
use kafka_proxy.Rewrite.Sample.{sample_protocol, metadata_laws, cluster_laws, coordinator_laws}
use kafka_proxy.Pool.Remap.{new as new_remap}
use kafka_proxy.Pool.Broker.{
  PooledConn, PoolLimits, BrokerPool, waits, new, acquire_turn, finish_connect, create_conn,
  pop_idle, reserve, reap,
}
use kafka_proxy.Pool.Capacity.{
  System, Step, Reach, Reach-within_limit, popped, reserved, connect_done,
}
use kafka_proxy.Pool.Exhaustion.{Reach-exhausted}
use kafka_proxy.Pool.Route.{read_loop_round, read_loop_round_total}

abbrev limits : PoolLimits
limits = record {
  max_per_broker = 2;
  min_idle = 1;
  idle_timeout = 300;
  acquire_timeout = 5;
  max_in_flight = 100;
}

abbrev pool : BrokerPool
pool = new 1 limits new_remap (new_metrics true)

abbrev begun : System
begun = record { pool = pool; creating = 0; leased = 0 }

abbrev looked : System
looked = popped begun (pop_idle 0 begun.pool).0 (pop_idle 0 begun.pool).1

abbrev granted : System
granted = reserved looked (reserve 0 looked.pool).0 (reserve 0 looked.pool).1

abbrev connected : System
connected =
    connect_done granted (finish_connect (some (11, 4)) granted.pool).0
      (finish_connect (some (11, 4)) granted.pool).1

-- A connection is made and leased.
connected_run : (connected.pool.count ≡ 1) × (connected.leased ≡ 1)
unfolding finish_connect create_conn pop_idle reserve new
connected_run = (refl, refl)

one_lease : Reach begun connected
unfolding finish_connect create_conn pop_idle reserve new
one_lease =
    let r1 : Reach begun looked = Reach.next Reach.here (Step.pops 0) in
    let r2 : Reach begun granted = Reach.next r1 (Step.reserves 0) in
    Reach.next r2 (Step.connect (some (11, 4)) (omega arith))

Reach-within_limit_example :
    (connected.creating + connected.leased + length connected.pool.idle ≤ connected.pool.count)
    × (connected.pool.count ≤ pool.max_per_broker)
Reach-within_limit_example =
    Reach-within_limit {t = connected} pool (unfold new in refl) (unfold new in refl)
      (unfold new in omega arith) one_lease

-- Both counted connections died while they were leased.
abbrev dead : System
dead = record { pool = record pool { count = 2 }; creating = 0; leased = 0 }

abbrev dead_later : System
dead_later = record dead { pool = reap 1000 dead.pool }

Reach-exhausted_example : (acquire_turn 7 dead_later.pool).0 ≡ waits
Reach-exhausted_example =
    Reach-exhausted {s = dead} {t = dead_later} 7
      (record {
        no_idle = unfold new in refl;
        no_attempt = refl;
        no_lease = refl;
        full = unfold new in omega arith;
      })
      (Reach.next Reach.here (Step.reaps 1000))

abbrev old : PooledConn
old = record { write_tx = 11; alive = true; last_used = 0; conn_id = 1 }

abbrev idle_pool : BrokerPool
idle_pool = record {
  node_id = 1;
  config = limits;
  idle = old ∷ [];
  count = 1;
  notified = 0;
  cid_remap = new_remap;
  metrics = new_metrics true;
}

-- A frame of one byte.
read_loop_round_total_example :
    read_loop_round sample_protocol 0 (9 ∷ []) [] new_remap (new_metrics true) ≢ none
read_loop_round_total_example =
    read_loop_round_total sample_protocol metadata_laws cluster_laws coordinator_laws 0 (9 ∷ []) []
      new_remap (new_metrics true)
