-- ===== src/Pool/Wakeups.antt =====
-- src/pool.rs: `acquire` and `release` with the `Notify` between them. A task that finds the pool full
-- looks first and waits afterwards, in two steps that other tasks come between.
use kafka_proxy.Base.{
  ℕ, ◌+◌, ◌≤◌, ◌<◌, ◌≡◌, refl, ◌∙◌, Bool, true, false, List, [], ◌∷◌, ◌++◌, arith, length,
}
use kafka_proxy.Pool.Broker.{
  PooledConn, BrokerPool, Acquired, acquired, waits, wait_over, pop_idle, reserve, acquire_turn,
  release,
}

-- What the code uses of tokio's `Notify`: `notify_one`, and `notified`, with whether the wait is
-- over at once. `permit` and `waiters` observe it.
pub record Notify : Type 1 where
  pub State : Type 0
  pub notify_one : State → State
  pub notified : State → Bool × State
  pub permit : State → Bool
  pub waiters : State → ℕ

-- What is documented: without a waiter `notify_one` leaves a permit, at most one; a task that waits
-- takes the permit if there is one, and sleeps if there is none.
pub record StoresOnePermit (n : Notify) : Type 0 where
  pub notify_one-permit :
      (s : n.State)
      → n.waiters s ≡ 0
      → (n.permit (n.notify_one s) ≡ true) × (n.waiters (n.notify_one s) ≡ 0)
  pub notified-permit :
      (s : n.State)
      → n.permit s ≡ true
      → ((n.notified s).0 ≡ true)
        × (n.permit (n.notified s).1 ≡ false)
        × (n.waiters (n.notified s).1 ≡ n.waiters s)
  pub notified-no_permit :
      (s : n.State)
      → n.permit s ≡ false
      → ((n.notified s).0 ≡ false)
        × (n.permit (n.notified s).1 ≡ false)
        × (n.waiters (n.notified s).1 ≡ n.waiters s + 1)

-- Nothing idle, and no place for a new connection.
pub record IsFull (p : BrokerPool) : Type 0 where
  pub no_idle : p.idle ≡ []
  pub no_place : p.max_per_broker ≤ p.count

turn-IsFull :
    (waited : ℕ) (p : BrokerPool)
    → IsFull p
    → ((acquire_turn waited p).0 ≡ waits)
      × IsFull (acquire_turn waited p).1
      × ((acquire_turn waited p).1.max_per_broker ≡ p.max_per_broker)
unfolding acquire_turn pop_idle reserve
turn-IsFull waited p full = (
  ground (arith, full.no_idle, full.no_place),
  record {
    no_idle = ground (arith, full.no_idle, full.no_place);
    no_place = ground (arith, full.no_idle, full.no_place);
  },
  ground (arith, full.no_idle, full.no_place),
)

-- The connection as `release` puts it back.
abbrev pub returned : ℕ → Acquired → PooledConn
returned now a = record {
  write_tx = a.write_tx;
  alive = true;
  last_used = now;
  conn_id = a.conn_id;
}

release_idle :
    (now : ℕ) (a : Acquired) (p : BrokerPool)
    → length p.idle < p.max_per_broker
    → ((release now a p).idle ≡ p.idle ++ (returned now a ∷ []))
      × ((release now a p).max_per_broker ≡ p.max_per_broker)
unfolding release
release_idle now a p room = (ground arith, ground arith)

turn_idle :
    (waited : ℕ) (p : BrokerPool) (now : ℕ) (a : Acquired) (rest : List PooledConn)
    → p.idle ≡ returned now a ∷ rest
    → ((acquire_turn waited p).0 ≡ acquired a) × ((acquire_turn waited p).1.idle ≡ rest)
unfolding acquire_turn pop_idle
turn_idle waited p now a rest e = (ground arith, ground arith)

wait_over_idle : (waited : ℕ) (p : BrokerPool) → (wait_over false waited p).idle ≡ p.idle
unfolding wait_over
wait_over_idle waited p = refl

-- The pool after two tasks looked at it, and two leases were given back then.
unfoldable pub looked_and_released : ℕ → Acquired → Acquired → BrokerPool → BrokerPool
looked_and_released now a b p =
    release now b (release now a (acquire_turn now (acquire_turn now p).1).1)

looked_and_released_idle :
    (now : ℕ) (a b : Acquired) (p : BrokerPool)
    → IsFull p
    → 1 < p.max_per_broker
    → (looked_and_released now a b p).idle ≡ returned now a ∷ returned now b ∷ []
unfolding looked_and_released
looked_and_released_idle now a b p full room =
    let (_, full₁, max₁) = turn-IsFull now p full in
    let p₁ = (acquire_turn now p).1 in
    let (_, full₂, max₂) = turn-IsFull now p₁ full₁ in
    let p₂ = (acquire_turn now p₁).1 in
    let (idle₃, max₃) =
      release_idle now a p₂ (rw full₂.no_idle (omega (arith, room, max₁, max₂))) in
    let one : (release now a p₂).idle ≡ returned now a ∷ [] = idle₃ ∙ rw full₂.no_idle refl in
    let (idle₄, _) =
      release_idle now b (release now a p₂) (rw one (omega (arith, room, max₁, max₂, max₃))) in
    idle₄ ∙ rw one refl

-- A wake-up can be lost. Two tasks find the pool full and are about to wait; meanwhile two leases are
-- given back, which calls `notify_one` twice with nobody waiting yet. Then the first task does not
-- have to wait and takes a connection, but the second goes to sleep, with no permit left to wake it,
-- while the other connection is idle.
pub wakeup_lost :
    (n : Notify) (now : ℕ) (a b : Acquired) (p : BrokerPool) (s : n.State)
    → StoresOnePermit n
    → IsFull p
    → 1 < p.max_per_broker
    → n.waiters s ≡ 0
    → let first = n.notified (n.notify_one (n.notify_one s)) in
      let second = n.notified first.1 in
      let woken = wait_over false now (looked_and_released now a b p) in
      ((acquire_turn now p).0 ≡ waits)
      × ((acquire_turn now (acquire_turn now p).1).0 ≡ waits)
      × (first.0 ≡ true)
      × (second.0 ≡ false)
      × (n.permit second.1 ≡ false)
      × ((acquire_turn now woken).0 ≡ acquired a)
      × ((acquire_turn now woken).1.idle ≡ returned now b ∷ [])
wakeup_lost n now a b p s laws full room nobody =
    let (wait₁, full₁, _) = turn-IsFull now p full in
    let (wait₂, _, _) = turn-IsFull now (acquire_turn now p).1 full₁ in
    let (_, nobody₁) = laws.notify_one-permit s nobody in
    let (permit₂, _) = laws.notify_one-permit (n.notify_one s) nobody₁ in
    let (woken, none_left, _) = laws.notified-permit (n.notify_one (n.notify_one s)) permit₂ in
    let (asleep, still_none, _) =
      laws.notified-no_permit (n.notified (n.notify_one (n.notify_one s))).1 none_left in
    let idle =
      wait_over_idle now (looked_and_released now a b p)
      ∙ looked_and_released_idle now a b p full room in
    let (taken, left) =
      turn_idle now (wait_over false now (looked_and_released now a b p)) now a
        (returned now b ∷ []) idle in
    (wait₁, wait₂, woken, asleep, still_none, taken, left)
