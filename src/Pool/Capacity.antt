-- ===== src/Pool/Capacity.antt =====
-- src/pool.rs: how many connections a pool holds, over every interleaving of its tasks.
use kafka_proxy.Base.{
  ℕ, ◌+◌, ◌-◌, ◌≤◌, ◌<◌, ◌≡◌, refl, ◌∙◌, inl, inr, Bool, true, false, [], Option, none, some, arith,
  ltb, length, Bool-cases, length-append, length-retain-le,
}
use kafka_proxy.Metrics.{word64, inc_pool_waiters}
use kafka_proxy.Pool.Broker.{
  BrokerPool, Acquired, pop_idle, reserve, finish_connect, wait_over, is_kept, reap, release,
  connection_ended, cancel_request,
}

-- The pool with the number of tasks that wait for a connection attempt, and of leases held.
pub record System : Type 0 where
  pub pool : BrokerPool
  pub creating : ℕ
  pub leased : ℕ

-- After `pop_idle`.
abbrev pub popped : System → Option Acquired → BrokerPool → System
popped s (some a) p = record s { pool = p; leased = s.leased + 1 }
popped s none p = record s { pool = p }

-- After `reserve`; without a place the task goes on to wait.
abbrev pub reserved : System → Bool → BrokerPool → System
reserved s true p = record s { pool = p; creating = s.creating + 1 }
reserved s false p = record s { pool = record p { metrics = inc_pool_waiters p.metrics } }

abbrev pub connect_done : System → Option Acquired → BrokerPool → System
connect_done s (some a) p = record { pool = p; creating = s.creating - 1; leased = s.leased + 1 }
connect_done s none p = record s { pool = p; creating = s.creating - 1 }

-- What can happen to a pool after its creation and warm-up.
pub data Step (s : System) : System → Type 0 where
  -- the two stretches of a turn of `acquire`, which other tasks come between
  pops : (waited : ℕ) → Step s (popped s (pop_idle waited s.pool).0 (pop_idle waited s.pool).1)
  reserves : (waited : ℕ) → Step s (reserved s (reserve waited s.pool).0 (reserve waited s.pool).1)
  connect :
      (attempt : Option (ℕ × ℕ))
      → 0 < s.creating
      → Step s (connect_done s (finish_connect attempt s.pool).0 (finish_connect attempt s.pool).1)
  wake :
      (timed_out : Bool) (waited : ℕ)
      → Step s (record s { pool = wait_over timed_out waited s.pool })
  give_back :
      (now : ℕ) (a : Acquired)
      → 0 < s.leased
      → Step s (record s { pool = release now a s.pool; leased = s.leased - 1 })
  -- the relay drops its lease when its connection does not take a frame
  drop_lease :
      (cid_u : ℕ)
      → 0 < s.leased
      → Step s (record s { pool = cancel_request cid_u s.pool; leased = s.leased - 1 })
  reaps : (now : ℕ) → Step s (record s { pool = reap now s.pool })
  ends : (conn_id : ℕ) → Step s (record s { pool = connection_ended conn_id s.pool })

pub data Reach (s : System) : System → Type 0 where
  here : Reach s s
  next : {t u : System} → Reach s t → Step t u → Reach s u

-- The connections in use are counted, and the count is within the limit.
pub record Inv (max : ℕ) (s : System) : Type 0 where
  pub limit : s.pool.max_per_broker ≡ max
  pub counted : s.creating + s.leased + length s.pool.idle ≤ s.pool.count
  pub within : s.pool.count ≤ max
  pub small : max < word64

pop-Inv :
    {max : ℕ} (s : System) (waited : ℕ)
    → Inv max s
    → Inv max (popped s (pop_idle waited s.pool).0 (pop_idle waited s.pool).1)
unfolding pop_idle
pop-Inv s waited v = ground arith

reserve-Inv :
    {max : ℕ} (s : System) (waited : ℕ)
    → Inv max s
    → Inv max (reserved s (reserve waited s.pool).0 (reserve waited s.pool).1)
unfolding reserve
reserve-Inv s waited v = ground arith

connect-Inv :
    {max : ℕ} (s : System) (attempt : Option (ℕ × ℕ))
    → 0 < s.creating
    → Inv max s
    → Inv max (connect_done s (finish_connect attempt s.pool).0 (finish_connect attempt s.pool).1)
unfolding finish_connect
connect-Inv s none some_creating v = omega arith
connect-Inv s (some (tx, took)) some_creating v = omega arith

release_effect :
    (p : BrokerPool) (now : ℕ) (a : Acquired)
    → (length (release now a p).idle ≤ length p.idle + 1)
      × ((release now a p).count ≡ p.count)
      × ((release now a p).max_per_broker ≡ p.max_per_broker)
unfolding release
release_effect p now a = elim (Bool-cases (ltb (length p.idle) p.max_per_broker)) [
  | inl room ↦ rw (room, release) (omega (arith, length-append p.idle), refl, refl)
  | inr full ↦ rw (full, release) (omega arith, refl, refl)
]

release-Inv :
    {max : ℕ} (s : System) (now : ℕ) (a : Acquired)
    → 0 < s.leased
    → Inv max s
    → Inv max (record s { pool = release now a s.pool; leased = s.leased - 1 })
release-Inv s now a held v =
    let (idle, count, limit) = release_effect s.pool now a in
    record { limit = limit ∙ v.limit; counted = omega arith; within = omega arith; small = v.small }

reap-Inv :
    {max : ℕ} (s : System) (now : ℕ) → Inv max s → Inv max (record s { pool = reap now s.pool })
unfolding reap
reap-Inv s now v = ground (arith, length-retain-le (is_kept now s.pool.idle_timeout) s.pool.idle)

Step-Inv : {max : ℕ} {s t : System} → Step s t → Inv max s → Inv max t
unfolding wait_over cancel_request connection_ended
Step-Inv {s} (pops waited) v = pop-Inv s waited v
Step-Inv {s} (reserves waited) v = reserve-Inv s waited v
Step-Inv {s} (connect attempt h) v = connect-Inv s attempt h v
Step-Inv {s} (wake timed_out waited) v = ground arith
Step-Inv {s} (give_back now a h) v = release-Inv s now a h v
Step-Inv {s} (drop_lease cid_u h) v = ground arith
Step-Inv {s} (reaps now) v = reap-Inv s now v
Step-Inv {s} (ends conn_id) v = ground arith

Reach-Inv : {max : ℕ} {s t : System} → Inv max s → Reach s t → Inv max t
Reach-Inv v here = v
Reach-Inv v (next r st) = Step-Inv st (Reach-Inv v r)

-- A pool without warm-up never holds more connections than its limit: in every interleaving of
-- acquisitions, connection attempts, returns, timeouts, reaping and failures, the attempts under
-- way, the leases and the idle connections together are at most the count, and the count is at most
-- `max_per_broker`.
pub Reach-within_limit :
    {t : System} (p : BrokerPool)
    → p.idle ≡ []
    → p.count ≡ 0
    → p.max_per_broker < word64
    → Reach (record { pool = p; creating = 0; leased = 0 }) t
    → (t.creating + t.leased + length t.pool.idle ≤ t.pool.count)
      × (t.pool.count ≤ p.max_per_broker)
Reach-within_limit {t} p empty fresh small r = (inv.counted, inv.within)
  where
    inv : Inv p.max_per_broker t
    inv =
        Reach-Inv
          (record {
            limit = refl;
            counted = rw empty (omega arith);
            within = omega arith;
            small = small;
          })
          r
