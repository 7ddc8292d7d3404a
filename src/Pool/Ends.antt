-- ===== src/Pool/Ends.antt =====
-- src/pool.rs: how a call of `acquire` in a full pool ends, told by what its rounds meet.
use kafka_proxy.Base.{
  ℕ, ◌≤◌, ◌<◌, ◌≡◌, refl, ◌∙◌, Bool, true, false, if◌then◌else◌, List, [], ◌∷◌, none, some, arith,
}
use kafka_proxy.Pool.Broker.{
  PooledConn, BrokerPool, pop_idle, reserve, create_conn, finish_connect, wait_over,
}
use kafka_proxy.Pool.Acquire.{
  Round, Outcome, got, connect_failed, acquire_timeout, waiting_still, outcome_of, wait_turn,
  acquire,
}
use kafka_proxy.Metrics.{inc_pool_waiters}

-- Nothing idle, and no place for a new connection, with a limit that is not 0.
pub record IsFull (p : BrokerPool) : Type 0 where
  pub no_idle : p.idle ≡ []
  pub no_place : p.max_per_broker ≤ p.count
  pub limit : 0 < p.max_per_broker

-- Nothing idle, but a place for a new connection.
pub record HasPlace (p : BrokerPool) : Type 0 where
  pub no_idle : p.idle ≡ []
  pub place : p.count < p.max_per_broker

-- The connection is the first of the idle ones, and it is alive.
pub record HasIdle (conn : PooledConn) (p : BrokerPool) : Type 0 where
  pub first : (rest : List PooledConn) × (p.idle ≡ conn ∷ rest)
  pub alive : conn.alive ≡ true

-- What the other tasks do leads from the one kind of pool to the other.
abbrev pub Leads :
    (BrokerPool → Type 0) → (BrokerPool → Type 0) → (BrokerPool → BrokerPool) → Type 0
Leads A B f = (p : BrokerPool) → A p → B (f p)

pub data Answer : Type 0 where
  idle_one : PooledConn → Answer
  new_one : ℕ → Answer
  failed timed_out still : Answer

abbrev pub Answers : Answer → Outcome → Type 0
Answers (idle_one conn) o = o ≡ got (record { write_tx = conn.write_tx; conn_id = conn.conn_id })
Answers (new_one write_tx) o =
    (conn_id : ℕ) × (o ≡ got (record { write_tx = write_tx; conn_id = conn_id }))
Answers failed o = o ≡ connect_failed
Answers timed_out o = o ≡ acquire_timeout
Answers still o = o ≡ waiting_still

-- The rounds of a call that finds the pool full. Each waits, as long as the pool is full; the last
-- wait runs out of time, or ends with a connection that is idle or with a place for a new one.
pub data Ends : List Round → Answer → Type 0 where
  begins : Ends [] still
  waits :
      {r : Round} {rs : List Round} {a : Answer}
      → Leads IsFull IsFull r.between
      → Leads IsFull IsFull r.waiting
      → r.timed_out ≡ false
      → Ends rs a
      → Ends (r ∷ rs) a
  times_out :
      {r : Round} {rs : List Round}
      → Leads IsFull IsFull r.between
      → r.timed_out ≡ true
      → Ends (r ∷ rs) timed_out
  is_given :
      {r s : Round} {rs : List Round} {conn : PooledConn}
      → Leads IsFull IsFull r.between
      → Leads IsFull (HasIdle conn) r.waiting
      → r.timed_out ≡ false
      → Ends (r ∷ s ∷ rs) (idle_one conn)
  connects :
      {r s : Round} {rs : List Round} {write_tx took : ℕ}
      → Leads IsFull IsFull r.between
      → Leads IsFull HasPlace r.waiting
      → r.timed_out ≡ false
      → Leads HasPlace HasPlace s.between
      → s.attempt ≡ some (write_tx, took)
      → Ends (r ∷ s ∷ rs) (new_one write_tx)
  fails :
      {r s : Round} {rs : List Round}
      → Leads IsFull IsFull r.between
      → Leads IsFull HasPlace r.waiting
      → r.timed_out ≡ false
      → Leads HasPlace HasPlace s.between
      → s.attempt ≡ none
      → Ends (r ∷ s ∷ rs) failed

-- The wait raises the gauge before it and lowers it after it, which the pool does not depend on.
wait_over-IsFull :
    (b : Bool) (waited : ℕ) (p : BrokerPool) → IsFull p → IsFull (wait_over b waited p)
unfolding wait_over
wait_over-IsFull true waited p full = record {
  no_idle = full.no_idle;
  no_place = full.no_place;
  limit = full.limit;
}
wait_over-IsFull false waited p full = record {
  no_idle = full.no_idle;
  no_place = full.no_place;
  limit = full.limit;
}

wait_over-HasPlace :
    (b : Bool) (waited : ℕ) (p : BrokerPool) → HasPlace p → HasPlace (wait_over b waited p)
unfolding wait_over
wait_over-HasPlace true waited p h = record { no_idle = h.no_idle; place = h.place }
wait_over-HasPlace false waited p h = record { no_idle = h.no_idle; place = h.place }

wait_over-HasIdle :
    (b : Bool) (waited : ℕ) (conn : PooledConn) (p : BrokerPool)
    → HasIdle conn p
    → HasIdle conn (wait_over b waited p)
unfolding wait_over
wait_over-HasIdle true waited conn p h = record { first = h.first; alive = h.alive }
wait_over-HasIdle false waited conn p h = record { first = h.first; alive = h.alive }

counted : (p : BrokerPool) → IsFull p → IsFull (record p { metrics = inc_pool_waiters p.metrics })
counted p full = record { no_idle = full.no_idle; no_place = full.no_place; limit = full.limit }

pop_idle-none :
    (waited : ℕ) (p : BrokerPool)
    → p.idle ≡ []
    → ((pop_idle waited p).0 ≡ none) × ((pop_idle waited p).1 ≡ p)
unfolding pop_idle
pop_idle-none waited p e = (rw e refl, rw e refl)

reserve_none :
    (waited : ℕ) (p : BrokerPool)
    → IsFull p
    → ((reserve waited p).0 ≡ false) × ((reserve waited p).1 ≡ p)
unfolding reserve
reserve_none waited p full = (ground (arith, full.no_place), ground (arith, full.no_place))

reserve_place : (waited : ℕ) (p : BrokerPool) → HasPlace p → (reserve waited p).0 ≡ true
unfolding reserve
reserve_place waited p h = ground (arith, h.place)

-- A round in a full pool waits: it comes to a timeout, or to the rounds after it.
acquire_full :
    (r : Round) (rs : List Round) (p : BrokerPool)
    → Leads IsFull IsFull r.between
    → IsFull p
    → acquire (r ∷ rs) p ≡ (
        if r.timed_out
        then (acquire_timeout, wait_turn r (r.between p))
        else acquire rs (wait_turn r (r.between p)))
unfolding acquire
acquire_full r rs p between full =
    let (nothing, same) = pop_idle-none r.waited p full.no_idle in
    let (no_place, same') = reserve_none r.waited (r.between p) (between p full) in
    rw (nothing, acquire, same, no_place, same') refl

acquire_waits :
    (r : Round) (rs : List Round) (p : BrokerPool)
    → Leads IsFull IsFull r.between
    → r.timed_out ≡ false
    → IsFull p
    → acquire (r ∷ rs) p ≡ acquire rs (wait_turn r (r.between p))
acquire_waits r rs p between goes_on full = acquire_full r rs p between full ∙ rw goes_on refl

-- After the wait the pool is what the other tasks made of it.
waited-Is :
    (r : Round) (p : BrokerPool) (B : BrokerPool → Type 0)
    → ((b : Bool) (waited : ℕ) (q : BrokerPool) → B q → B (wait_over b waited q))
    → Leads IsFull IsFull r.between
    → Leads IsFull B r.waiting
    → IsFull p
    → B (wait_turn r (r.between p))
waited-Is r p B keeps between waiting full =
    keeps r.timed_out r.waited_after _ (waiting _ (counted (r.between p) (between p full)))

acquire_idle :
    (r : Round) (rs : List Round) (conn : PooledConn) (p : BrokerPool)
    → HasIdle conn p
    → Answers (idle_one conn) (acquire (r ∷ rs) p).0
unfolding acquire pop_idle
acquire_idle r rs conn p h =
    let (rest, first) = h.first in rw (first, acquire, pop_idle) (rw h.alive refl)

acquire_place :
    (r : Round) (rs : List Round) (p : BrokerPool)
    → HasPlace p
    → Leads HasPlace HasPlace r.between
    → (acquire (r ∷ rs) p).0
      ≡ outcome_of (finish_connect r.attempt (r.connecting (reserve r.waited (r.between p)).1)).0
unfolding acquire
acquire_place r rs p h between =
    let (nothing, same) = pop_idle-none r.waited p h.no_idle in
    rw (nothing, acquire, same, reserve_place r.waited (r.between p) (between p h)) refl

new_Answers :
    (write_tx took : ℕ) (p : BrokerPool)
    → Answers (new_one write_tx) (outcome_of (finish_connect (some (write_tx, took)) p).0)
unfolding finish_connect create_conn
new_Answers write_tx took p = (_, refl)

-- A call of `acquire` that finds the pool full ends as its rounds tell. It waits as long as the
-- pool stays full, and no longer than the first wait that runs out of time, which ends it with a
-- timeout. When a wait ends with a living connection at the front of the idle ones, it returns that
-- one; when it ends with a place and no idle connection, it returns the connection that is then
-- made, or the failure of the attempt.
pub acquire-Ends :
    (rs : List Round) (a : Answer) (p : BrokerPool)
    → IsFull p
    → Ends rs a
    → Answers a (acquire rs p).0
acquire-Ends _ _ p full begins = unfold acquire in refl
acquire-Ends (r ∷ rs) a p full (waits between waiting goes_on ends) =
    rw (acquire_waits r rs p between goes_on full)
      (acquire-Ends rs a _ (waited-Is r p IsFull wait_over-IsFull between waiting full) ends)
acquire-Ends (r ∷ rs) _ p full (times_out between over) =
    rw (acquire_full r rs p between full) (rw over refl)
acquire-Ends (r ∷ s ∷ rs) _ p full (is_given {conn = conn} between waiting goes_on) =
    rw (acquire_waits r (s ∷ rs) p between goes_on full) (
      acquire_idle s rs conn _
        (waited-Is r p (HasIdle conn) (λ b w q. wait_over-HasIdle b w conn q) between waiting full))
acquire-Ends (r ∷ s ∷ rs) _ p full (connects between waiting goes_on next made) =
    let place = waited-Is r p HasPlace wait_over-HasPlace between waiting full in
    rw (acquire_waits r (s ∷ rs) p between goes_on full, acquire_place s rs _ place next, made)
      (new_Answers _ _ _)
acquire-Ends (r ∷ s ∷ rs) _ p full (fails between waiting goes_on next failure) =
    let place = waited-Is r p HasPlace wait_over-HasPlace between waiting full in
    rw (acquire_waits r (s ∷ rs) p between goes_on full) (
      acquire_place s rs _ place next
      ∙ (unfold finish_connect in unfold create_conn in rw failure refl))
