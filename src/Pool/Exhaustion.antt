-- ===== src/Pool/Exhaustion.antt =====
-- src/pool.rs: a pool that has lost its counted connections.
use kafka_proxy.Base.{◌≤◌, ◌≡◌, ℕ, [], arith}
use kafka_proxy.Pool.Broker.{
  waits, pop_idle, reserve, acquire_turn, reap, wait_over, cancel_request, connection_ended,
}
use kafka_proxy.Pool.Capacity.{
  System, popped, reserved, Step, pops, reserves, connect, wake, give_back, drop_lease, reaps, ends,
  Reach, here, next,
}

-- A pool all of whose counted connections are gone: nothing is idle, leased or being made, and the
-- count is at the limit.
pub record IsExhausted (s : System) : Type 0 where
  pub no_idle : s.pool.idle ≡ []
  pub no_attempt : s.creating ≡ 0
  pub no_lease : s.leased ≡ 0
  pub full : s.pool.max_per_broker ≤ s.pool.count

pop-IsExhausted :
    (s : System) (waited : ℕ)
    → IsExhausted s
    → IsExhausted (popped s (pop_idle waited s.pool).0 (pop_idle waited s.pool).1)
unfolding pop_idle
pop-IsExhausted s waited x = record {
  no_idle = ground arith;
  no_attempt = ground arith;
  no_lease = ground arith;
  full = ground arith;
}

reserve-IsExhausted :
    (s : System) (waited : ℕ)
    → IsExhausted s
    → IsExhausted (reserved s (reserve waited s.pool).0 (reserve waited s.pool).1)
unfolding reserve
reserve-IsExhausted s waited x = record {
  no_idle = ground arith;
  no_attempt = ground arith;
  no_lease = ground arith;
  full = ground arith;
}

turn_exhausted : (s : System) (waited : ℕ) → IsExhausted s → (acquire_turn waited s.pool).0 ≡ waits
unfolding acquire_turn
turn_exhausted s waited x = ground arith

reap-IsExhausted :
    (s : System) (now : ℕ) → IsExhausted s → IsExhausted (record s { pool = reap now s.pool })
unfolding reap
reap-IsExhausted s now x = record {
  no_idle = ground arith;
  no_attempt = ground arith;
  no_lease = ground arith;
  full = ground arith;
}

Step-IsExhausted : {s t : System} → Step s t → IsExhausted s → IsExhausted t
unfolding wait_over cancel_request connection_ended
Step-IsExhausted {s} (pops waited) x = pop-IsExhausted s waited x
Step-IsExhausted {s} (reserves waited) x = reserve-IsExhausted s waited x
Step-IsExhausted {s} (connect attempt h) x = absurd (omega (arith, x.no_attempt))
Step-IsExhausted {s} (wake timed_out waited) x = ground arith
Step-IsExhausted {s} (give_back now a h) x = absurd (omega (arith, x.no_lease))
Step-IsExhausted {s} (drop_lease cid_u h) x = absurd (omega (arith, x.no_lease))
Step-IsExhausted {s} (reaps now) x = reap-IsExhausted s now x
Step-IsExhausted {s} (ends conn_id) x = ground arith

Reach-IsExhausted : {s t : System} → Reach s t → IsExhausted s → IsExhausted t
Reach-IsExhausted here x = x
Reach-IsExhausted (next r st) x = Step-IsExhausted st (Reach-IsExhausted r x)

-- A pool with its count at the limit and nothing idle, leased or being connected never recovers:
-- whatever happens afterwards, every turn of `acquire` waits.
pub Reach-exhausted :
    {s t : System} (waited : ℕ) → IsExhausted s → Reach s t → (acquire_turn waited t.pool).0 ≡ waits
Reach-exhausted {t} waited x r = turn_exhausted t waited (Reach-IsExhausted r x)
