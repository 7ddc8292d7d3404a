-- ===== src/Pool/WaitTests.antt =====
-- Runs and witnesses for the wait for a connection.
use kafka_proxy.Base.{ℕ, zero, suc, ◌+◌, ◌≡◌, refl, Bool, true, false, List, [], ◌∷◌, none, arith}
use kafka_proxy.Metrics.{new as new_metrics}
use kafka_proxy.Pool.Remap.{new as new_remap}
use kafka_proxy.Pool.Broker.{
  PoolLimits, BrokerPool, Acquired, new, acquired, waits, acquire_turn, wait_over, pop_idle,
  reserve, release,
}
use kafka_proxy.Pool.Wakeups.{
  Notify, StoresOnePermit, IsFull as IsFullFor, returned, looked_and_released, wakeup_lost,
}
use kafka_proxy.Pool.Acquire.{Round, got, acquire}
use kafka_proxy.Pool.Ends.{IsFull, HasIdle, idle_one, Answers, is_given, acquire-Ends}

abbrev limits : PoolLimits
limits = record {
  max_per_broker = 2;
  min_idle = 1;
  idle_timeout = 300;
  acquire_timeout = 5;
  max_in_flight = 100;
}

abbrev pool : BrokerPool
pool = new 1 limits new_remap (new_metrics true)

-- A permit and the number of tasks that sleep.
abbrev notify_permits : Bool × ℕ → Bool × ℕ
notify_permits (permit, zero) = (true, 0)
notify_permits (permit, suc n) = (permit, n)

abbrev await_permit : Bool × ℕ → Bool × (Bool × ℕ)
await_permit (true, n) = (true, (false, n))
await_permit (false, n) = (false, (false, n + 1))

abbrev permits : Notify
permits = record {
  State = Bool × ℕ;
  notify_one = λ s. notify_permits s;
  notified = λ s. await_permit s;
  permit = λ s. s.0;
  waiters = λ s. s.1;
}

notify_permits_empty :
    (s : Bool × ℕ) → s.1 ≡ 0 → ((notify_permits s).0 ≡ true) × ((notify_permits s).1 ≡ 0)
notify_permits_empty (permit, zero) e = (refl, refl)
notify_permits_empty (permit, suc n) e = absurd (omega (arith, e))

await_permit_there :
    (s : Bool × ℕ)
    → s.0 ≡ true
    → ((await_permit s).0 ≡ true) × ((await_permit s).1.0 ≡ false) × ((await_permit s).1.1 ≡ s.1)
await_permit_there (true, n) e = (refl, refl, refl)
await_permit_there (false, n) e = absurd (ground (arith, e))

await_permit_none :
    (s : Bool × ℕ)
    → s.0 ≡ false
    → ((await_permit s).0 ≡ false)
      × ((await_permit s).1.0 ≡ false)
      × ((await_permit s).1.1 ≡ s.1 + 1)
await_permit_none (false, n) e = (refl, refl, refl)
await_permit_none (true, n) e = absurd (ground (arith, e))

permits_laws : StoresOnePermit permits
permits_laws = record {
  notify_one-permit = notify_permits_empty;
  notified-permit = await_permit_there;
  notified-no_permit = await_permit_none;
}

abbrev leased : Acquired
leased = record { write_tx = 10; conn_id = 1 }

abbrev leased_too : Acquired
leased_too = record { write_tx = 11; conn_id = 2 }

abbrev full_pool : BrokerPool
full_pool = record pool { count = 2 }

full_pool-IsFull : IsFullFor full_pool
unfolding new
full_pool-IsFull = record { no_idle = refl; no_place = omega arith }

wakeup_lost_example :
    let first = permits.notified (permits.notify_one (permits.notify_one (false, 0))) in
    let second = permits.notified first.1 in
    let woken = wait_over false 0 (looked_and_released 0 leased leased_too full_pool) in
    ((acquire_turn 0 full_pool).0 ≡ waits)
    × ((acquire_turn 0 (acquire_turn 0 full_pool).1).0 ≡ waits)
    × (first.0 ≡ true)
    × (second.0 ≡ false)
    × (permits.permit second.1 ≡ false)
    × ((acquire_turn 0 woken).0 ≡ acquired leased)
    × ((acquire_turn 0 woken).1.idle ≡ returned 0 leased_too ∷ [])
unfolding new
wakeup_lost_example =
    wakeup_lost permits 0 leased leased_too full_pool (false, 0) permits_laws full_pool-IsFull
      (omega arith) refl

-- The first turn waits until another task has put a connection back, and the second takes it.
abbrev rounds : List Round
rounds =
    record {
      waited = 0;
      between = λ p. p;
      attempt = none;
      connecting = λ p. p;
      waiting = λ p. release 3 leased p;
      timed_out = false;
      waited_after = 3;
    }
    ∷ record {
      waited = 3;
      between = λ p. p;
      attempt = none;
      connecting = λ p. p;
      waiting = λ p. p;
      timed_out = false;
      waited_after = 3;
    }
    ∷ []

acquire_gets : (acquire rounds full_pool).0 ≡ got leased
unfolding acquire pop_idle reserve release wait_over new
acquire_gets = refl

-- The other task leaves its connection to a pool that has nothing idle.
release-HasIdle : (p : BrokerPool) → IsFull p → HasIdle (returned 3 leased) (release 3 leased p)
unfolding release
release-HasIdle p full = record {
  first = ([], rw (full.no_idle, release) (ground (arith, full.limit)));
  alive = refl;
}

acquire-Ends_example : Answers (idle_one (returned 3 leased)) (acquire rounds full_pool).0
unfolding new
acquire-Ends_example =
    acquire-Ends rounds (idle_one (returned 3 leased)) full_pool
      (record { no_idle = refl; no_place = omega arith; limit = omega arith })
      (is_given (λ p full. full) release-HasIdle refl)
