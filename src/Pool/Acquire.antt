-- ===== src/Pool/Acquire.antt =====
-- src/pool.rs: the whole of `BrokerPool::acquire`. What other tasks do to the pool while it awaits the
-- connection attempt or a notification is an argument of each turn.
use kafka_proxy.Base.{
  ℕ, ◌^◌, ◌<◌, ◌≡◌, refl, ◌∙◌, inl, inr, Bool, true, false, List, [], ◌∷◌, Option, none, some,
  arith, if◌then◌else◌, Bool-cases, Option-cases, All,
}
use kafka_proxy.Metrics.{
  inc_pool_waiters, dec_pool_waiters, inc_pool_hits, inc_pool_misses, inc_upstream_connections,
  inc_auth_failures,
}
use kafka_proxy.Pool.Broker.{
  BrokerPool, Acquired, pop_idle, reserve, create_conn, finish_connect, wait_over,
}

-- What a turn of the loop meets. `waited` is the time since `acquire` was called.
pub record Round : Type 0 where
  pub waited : ℕ
  -- between the look at the idle queue and the look at the count
  pub between : BrokerPool → BrokerPool
  -- the connection attempt, and what happens during it
  pub attempt : Option (ℕ × ℕ)
  pub connecting : BrokerPool → BrokerPool
  -- what happens during the wait, how it ends and when
  pub waiting : BrokerPool → BrokerPool
  pub timed_out : Bool
  pub waited_after : ℕ

-- `waiting_still` is a call that has not returned at the end of the rounds.
pub data Outcome : Type 0 where
  got : Acquired → Outcome
  connect_failed : Outcome
  acquire_timeout : Outcome
  waiting_still : Outcome

abbrev pub outcome_of : Option Acquired → Outcome
outcome_of none = connect_failed
outcome_of (some a) = got a

-- 3. The pool is full.
abbrev pub wait_turn : Round → BrokerPool → BrokerPool
wait_turn r p =
    wait_over r.timed_out r.waited_after
      (r.waiting (record p { metrics = inc_pool_waiters p.metrics }))

unfoldable pub acquire : List Round → BrokerPool → Outcome × BrokerPool
acquire [] p = (waiting_still, p)
acquire (r ∷ rs) p =
    let popped = pop_idle r.waited p in
    let asked = reserve r.waited (r.between popped.1) in
    let made = finish_connect r.attempt (r.connecting asked.1) in
    let after = wait_turn r asked.1 in
    let rest = acquire rs after in
    elim (popped.0) [
      | some a ↦ (got a, popped.1)
      | none ↦
          if asked.0
          then (outcome_of made.0, made.1)
          else if r.timed_out
          then (acquire_timeout, after)
          else rest
    ]

-- The other tasks change neither the gauge of waiters nor whether metrics are on: what they add to the
-- gauge they have taken off again.
abbrev pub Keeps : (BrokerPool → BrokerPool) → Type 0
Keeps f =
    (p : BrokerPool)
    → ((f p).metrics.pool_waiters ≡ p.metrics.pool_waiters)
      × ((f p).metrics.enabled ≡ p.metrics.enabled)

pub record KeepsWaiters (r : Round) : Type 0 where
  pub between : Keeps r.between
  pub connecting : Keeps r.connecting
  pub waiting : Keeps r.waiting

abbrev Same : BrokerPool → BrokerPool → Type 0
Same p q =
    (q.metrics.pool_waiters ≡ p.metrics.pool_waiters) × (q.metrics.enabled ≡ p.metrics.enabled)

Same-trans : (p q r : BrokerPool) → Same p q → Same q r → Same p r
Same-trans p q r a b = (b.0 ∙ a.0, b.1 ∙ a.1)

pop_idle-Same : (waited : ℕ) (p : BrokerPool) → Same p (pop_idle waited p).1
unfolding pop_idle inc_pool_hits
pop_idle-Same waited p = (ground arith, ground arith)

reserve-Same : (waited : ℕ) (p : BrokerPool) → Same p (reserve waited p).1
unfolding reserve inc_pool_misses
reserve-Same waited p = (ground arith, ground arith)

finish_connect-Same :
    (attempt : Option (ℕ × ℕ)) (p : BrokerPool) → Same p (finish_connect attempt p).1
unfolding finish_connect create_conn inc_upstream_connections inc_auth_failures
finish_connect-Same none p = (ground arith, ground arith)
finish_connect-Same (some (tx, took)) p = (ground arith, ground arith)

wait_turn-Same :
    (r : Round) (p : BrokerPool)
    → Keeps r.waiting
    → p.metrics.pool_waiters < 2 ^ 64
    → Same p (wait_turn r p)
unfolding wait_over inc_pool_waiters dec_pool_waiters
wait_turn-Same r p keeps small =
    let (same, on) = keeps (record p { metrics = inc_pool_waiters p.metrics }) in
    elim (Bool-cases p.metrics.enabled) [
      | inl enabled ↦ (ground (arith, same, on, enabled), ground (arith, same, on, enabled))
      | inr disabled ↦ (ground (arith, same, on, disabled), ground (arith, same, on, disabled))
    ]

if_Same :
    (p : BrokerPool) (b : Bool) (x y : Outcome × BrokerPool)
    → Same p x.1
    → Same p y.1
    → Same p (if b then x else y).1
if_Same p true x y a b = a
if_Same p false x y a b = b

acquire-Same :
    (rs : List Round) (p : BrokerPool)
    → All KeepsWaiters rs
    → p.metrics.pool_waiters < 2 ^ 64
    → Same p (acquire rs p).1
unfolding acquire
acquire-Same [] p keeps small = (refl, refl)
acquire-Same (r ∷ rs) p (k, keeps) small =
    let p₁ = (pop_idle r.waited p).1 in
    let p₂ = (reserve r.waited (r.between p₁)).1 in
    let same₁ = pop_idle-Same r.waited p in
    let same₂ : Same p p₂ =
      Same-trans p p₁ p₂ same₁
        (Same-trans p₁ (r.between p₁) p₂ (k.between p₁) (reserve-Same r.waited (r.between p₁))) in
    let small₂ : p₂.metrics.pool_waiters < 2 ^ 64 = omega (arith, same₂.0, small) in
    let p₃ = wait_turn r p₂ in
    let same₃ : Same p p₃ = Same-trans p p₂ p₃ same₂ (wait_turn-Same r p₂ k.waiting small₂) in
    elim (Option-cases (pop_idle r.waited p).0) [
      | inr (a, found) ↦ rw (found, acquire) same₁
      | inl nothing ↦ elim (Bool-cases (reserve r.waited (r.between p₁)).0) [
        | inl place ↦
            rw (nothing, place, acquire)
              (Same-trans p p₂ (finish_connect r.attempt (r.connecting p₂)).1 same₂ (
                Same-trans p₂ (r.connecting p₂) (finish_connect r.attempt (r.connecting p₂)).1
                  (k.connecting p₂) (finish_connect-Same r.attempt (r.connecting p₂))))
        | inr full ↦
            let small₃ : p₃.metrics.pool_waiters < 2 ^ 64 = omega (arith, same₃.0, small) in
            let more = Same-trans p p₃ (acquire rs p₃).1 same₃ (acquire-Same rs p₃ keeps small₃) in
            rw (nothing, full, acquire)
              (if_Same p r.timed_out (acquire_timeout, p₃) (acquire rs p₃) same₃ more)
      ]
    ]

-- The gauge of waiting tasks is balanced. If the other tasks leave it as they find it, a call of
-- `acquire` leaves it as it was, however often it waits and however it ends: with an idle connection,
-- a new one, a failed attempt or a timeout.
pub acquire-pool_waiters :
    (rs : List Round) (p : BrokerPool)
    → All KeepsWaiters rs
    → p.metrics.pool_waiters < 2 ^ 64
    → (acquire rs p).1.metrics.pool_waiters ≡ p.metrics.pool_waiters
acquire-pool_waiters rs p keeps small = (acquire-Same rs p keeps small).0
