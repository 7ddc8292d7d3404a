-- ===== src/Api/Callers.antt =====
-- src/api.rs: `MSG_SEM`, the limit of calls of `latest_messages` at a time. A call holds its permit
-- until it returns, in whatever way. tokio's semaphore is a parameter.
use kafka_proxy.Base.{
  ℕ, ◌+◌, ◌-◌, ◌≤◌, ◌<◌, ◌≡◌, ◌⊎◌, ◌∙◌, Bool, true, false, List, [], ◌∷◌, if◌then◌else◌, ltb, arith,
  Bool-cases, inl, inr,
}

-- `acquire_permit` gives a permit, or makes the task wait; a permit that is dropped goes back by
-- `drop_permit`. `permits` and `waiting` observe it.
pub record Semaphore : Type 1 where
  pub State : Type 0
  pub new : ℕ → State
  pub acquire_permit : State → Bool × State
  pub drop_permit : State → State
  pub permits : State → ℕ
  pub waiting : State → ℕ

-- What is documented: a task waits only when no permit is left, and a permit that comes back goes to a
-- task that waits, if there is one.
pub record GivesPermits (s : Semaphore) : Type 0 where
  pub permits-new : (n : ℕ) → (s.permits (s.new n) ≡ n) × (s.waiting (s.new n) ≡ 0)
  pub acquire_some :
      (x : s.State)
      → 0 < s.permits x
      → ((s.acquire_permit x).0 ≡ true)
        × (s.permits (s.acquire_permit x).1 + 1 ≡ s.permits x)
        × (s.waiting (s.acquire_permit x).1 ≡ s.waiting x)
  pub acquire_none :
      (x : s.State)
      → s.permits x ≡ 0
      → ((s.acquire_permit x).0 ≡ false)
        × (s.permits (s.acquire_permit x).1 ≡ 0)
        × (s.waiting (s.acquire_permit x).1 ≡ s.waiting x + 1)
  pub release_waited :
      (x : s.State)
      → 0 < s.waiting x
      → (s.permits (s.drop_permit x) ≡ s.permits x)
        × (s.waiting (s.drop_permit x) + 1 ≡ s.waiting x)
  pub release_free :
      (x : s.State)
      → s.waiting x ≡ 0
      → (s.permits (s.drop_permit x) ≡ s.permits x + 1) × (s.waiting (s.drop_permit x) ≡ 0)

-- A request comes, or a call that runs returns.
pub data Event : Type 0 where
  comes returns : Event

module _ (s : Semaphore) where
  pub record Callers : Type 0 where
    pub sem : s.State
    pub running : ℕ

  -- `Semaphore::new(3)`
  abbrev pub msg_sem : Callers
  msg_sem = record { sem = s.new 3; running = 0 }

  -- The permit of a call that returns goes to one that waits, which then runs.
  unfoldable pub on_call : Event → Callers → Callers
  on_call comes c =
      let asked = s.acquire_permit c.sem in
      record { sem = asked.1; running = if asked.0 then c.running + 1 else c.running }
  on_call returns c =
      if ltb 0 c.running
      then record {
        sem = s.drop_permit c.sem;
        running = if ltb 0 (s.waiting c.sem) then c.running else c.running - 1;
      }
      else c

  unfoldable pub on_calls : List Event → Callers → Callers
  on_calls [] c = c
  on_calls (e ∷ es) c = on_calls es (on_call e c)

  record Inv (c : Callers) : Type 0 where
    total : c.running + s.permits c.sem ≡ 3
    busy : (s.waiting c.sem ≡ 0) ⊎ (s.permits c.sem ≡ 0)

  module _ (laws : GivesPermits s) where
    open laws use {permits-new, acquire_some, acquire_none, release_waited, release_free}

    comes-Inv : (c : Callers) → Inv c → Inv (on_call comes c)
    unfolding on_call
    comes-Inv c v = elim (Bool-cases (ltb 0 (s.permits c.sem))) [
      | inl free ↦
          let (got, fewer, same) = acquire_some c.sem (ground (arith, free)) in
          let idle : s.waiting c.sem ≡ 0 = ground (arith, free, v.busy) in
          rw got (record { total = omega (arith, v.total, fewer); busy = inl (same ∙ idle) })
      | inr none_left ↦
          let empty : s.permits c.sem ≡ 0 = ground (arith, none_left) in
          let (waits, still, more) = acquire_none c.sem empty in
          rw waits (record { total = omega (arith, v.total, empty, still); busy = inr still })
    ]

    returns-Inv : (c : Callers) → Inv c → Inv (on_call returns c)
    unfolding on_call
    returns-Inv c v = elim (Bool-cases (ltb 0 c.running)) [
      | inr idle ↦ rw idle v
      | inl running ↦ elim (Bool-cases (ltb 0 (s.waiting c.sem))) [
        | inl some_wait ↦
            let (same, fewer) = release_waited c.sem (ground (arith, some_wait)) in
            let empty : s.permits c.sem ≡ 0 = ground (arith, some_wait, v.busy) in
            rw (running, some_wait)
              (record { total = omega (arith, v.total, same); busy = inr (same ∙ empty) })
        | inr nobody ↦
            let alone : s.waiting c.sem ≡ 0 = ground (arith, nobody) in
            let (more, still) = release_free c.sem alone in
            rw (running, nobody)
              (record { total = ground (arith, v.total, more, running); busy = inl still })
      ]
    ]

    on_call-Inv : (e : Event) (c : Callers) → Inv c → Inv (on_call e c)
    on_call-Inv comes c v = comes-Inv c v
    on_call-Inv returns c v = returns-Inv c v

    on_calls-Inv : (es : List Event) (c : Callers) → Inv c → Inv (on_calls es c)
    unfolding on_calls
    on_calls-Inv [] c v = v
    on_calls-Inv (e ∷ es) c v = on_calls-Inv es (on_call e c) (on_call-Inv e c v)

    msg_sem-Inv : Inv msg_sem
    msg_sem-Inv =
        let (three, nobody) = permits-new 3 in
        record { total = omega (arith, three); busy = inl nobody }

    -- The calls are limited and the limit is used. However requests come and calls return, at most
    -- three calls of `latest_messages` run at a time, and while one waits for its permit three do
    -- run.
    pub on_calls-running :
        (es : List Event)
        → ((on_calls es msg_sem).running ≤ 3)
          × (((on_calls es msg_sem).running ≡ 3) ⊎ (s.waiting (on_calls es msg_sem).sem ≡ 0))
    on_calls-running es =
        let v = on_calls-Inv es msg_sem msg_sem-Inv in
        (omega (arith, v.total), ground (arith, v.total, v.busy))
