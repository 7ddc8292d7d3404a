-- ===== src/Pool/Reaping.antt =====
-- src/pool.rs: what `warmup` and the reaper leave behind.
use kafka_proxy.Base.{
  ℕ, zero, suc, ◌+◌, ◌-◌, ◌≤◌, ◌<◌, ◌≡◌, refl, ◌∙◌, true, List, [], ◌∷◌, Option, none, some, arith,
  length, retain, All, length-append, length-retain-le,
}
use kafka_proxy.Metrics.{
  Metrics, fetch_sub, dec_upstream_connections, inc_pool_evictions, dec_requests_in_flight,
  sub_cid_map_entries,
}
use kafka_proxy.Pool.Remap.{fail_conn}
use kafka_proxy.Pool.Broker.{
  PooledConn, BrokerPool, warmup_loop, warmup, is_kept, reap, end_requests, connection_ended,
}

-- Every attempt succeeds.
abbrev pub AllSucceed : List (Option (ℕ × ℕ)) → Type 0
AllSucceed [] = Unit {0}
AllSucceed (none ∷ attempts) = ⊥
AllSucceed (some a ∷ attempts) = AllSucceed attempts

warmup_loop_lem :
    (n : ℕ) (attempts : List (Option (ℕ × ℕ))) (now : ℕ) (p : BrokerPool)
    → AllSucceed attempts
    → n ≤ length attempts
    → (length (warmup_loop n attempts now p).idle ≡ length p.idle + n)
      × ((warmup_loop n attempts now p).count ≡ p.count)
unfolding warmup_loop
warmup_loop_lem zero attempts now p h le = (omega arith, refl)
warmup_loop_lem (suc n) [] now p h le = absurd (omega arith)
warmup_loop_lem (suc n) (none ∷ attempts) now p h le = absurd h
warmup_loop_lem (suc n) (some (tx, took) ∷ attempts) now p h le =
    let (idle, count) = warmup_loop_lem n attempts now _ h (omega arith) in
    (idle ∙ omega (arith, length-append p.idle), count)

-- If its connection attempts succeed, warm-up adds `min_idle` connections to the idle queue and leaves
-- the count of connections as it was.
pub warmup_uncounted :
    (attempts : List (Option (ℕ × ℕ))) (now : ℕ) (p : BrokerPool)
    → AllSucceed attempts
    → p.min_idle ≤ length attempts
    → (length (warmup attempts now p).idle ≡ length p.idle + p.min_idle)
      × ((warmup attempts now p).count ≡ p.count)
unfolding warmup
warmup_uncounted attempts now p h le = warmup_loop_lem p.min_idle attempts now p h le

abbrev pub IsFresh : ℕ → ℕ → PooledConn → Type 0
IsFresh now idle_timeout c = (now - c.last_used < idle_timeout) × (c.alive ≡ true)

retain-All :
    (now idle_timeout : ℕ) (cs : List PooledConn)
    → All (IsFresh now idle_timeout) (retain (is_kept now idle_timeout) cs)
retain-All now idle_timeout [] = tt
retain-All now idle_timeout (c ∷ cs) = ground (arith, retain-All now idle_timeout cs)

retain_fresh :
    (now idle_timeout : ℕ) (cs : List PooledConn)
    → All (IsFresh now idle_timeout) cs
    → retain (is_kept now idle_timeout) cs ≡ cs
retain_fresh now idle_timeout [] h = refl
retain_fresh now idle_timeout (c ∷ cs) h = ground (arith, retain_fresh now idle_timeout cs h.1)

reap_idle :
    (now : ℕ) (p : BrokerPool) → (reap now p).idle ≡ retain (is_kept now p.idle_timeout) p.idle
unfolding reap
reap_idle now p = ground arith

-- After a tick of the reaper every idle connection is alive and was used within the idle timeout;
-- the count is lower by the number removed, and not below 0.
pub reap_lem :
    (now : ℕ) (p : BrokerPool)
    → All (IsFresh now p.idle_timeout) (reap now p).idle
      × (length (reap now p).idle ≤ length p.idle)
      × ((reap now p).count ≡ p.count - (length p.idle - length (reap now p).idle))
unfolding reap
reap_lem now p = (
  rw (reap_idle now p) (retain-All now p.idle_timeout p.idle),
  rw (reap_idle now p) (length-retain-le (is_kept now p.idle_timeout) p.idle),
  ground arith,
)

end_requests-upstream :
    (n : ℕ) (m : Metrics) → (end_requests n m).upstream_connections ≡ m.upstream_connections
unfolding end_requests dec_requests_in_flight
end_requests-upstream zero m = refl
end_requests-upstream (suc n) m = end_requests-upstream n (dec_requests_in_flight m) ∙ ground arith

pub connection_ended-upstream :
    (conn_id : ℕ) (p : BrokerPool)
    → (connection_ended conn_id p).metrics.upstream_connections
      ≡ fetch_sub p.metrics.upstream_connections 1
unfolding connection_ended fail_conn dec_upstream_connections inc_pool_evictions sub_cid_map_entries
connection_ended-upstream conn_id p = ground (
  arith,
  end_requests-upstream (fail_conn conn_id p.cid_remap p.metrics).0
      (fail_conn conn_id p.cid_remap p.metrics).2,
)

-- When the only idle connection has expired, a tick of the reaper and then the end of that
-- connection's write task take it off the gauge of upstream connections twice.
pub reap_counts_twice :
    (now : ℕ) (p : BrokerPool) (c : PooledConn)
    → p.idle ≡ c ∷ []
    → p.idle_timeout ≤ now - c.last_used
    → (connection_ended c.conn_id (reap now p)).metrics.upstream_connections
      ≡ fetch_sub (fetch_sub p.metrics.upstream_connections 1) 1
unfolding reap dec_upstream_connections inc_pool_evictions
reap_counts_twice now p c one old = connection_ended-upstream c.conn_id (reap now p) ∙ ground arith
