-- ===== src/Api/CallersTests.antt =====
-- A run and a witness for the limit of calls.
use kafka_proxy.Base.{
  ℕ, zero, suc, ◌+◌, ◌≤◌, ◌<◌, ◌≡◌, ◌⊎◌, refl, Bool, true, false, List, [], ◌∷◌, arith,
}
use kafka_proxy.Api.Callers.{
  Semaphore, GivesPermits, Event, comes, returns, msg_sem, on_call, on_calls, on_calls-running,
}

-- The permits left and the tasks that wait.
abbrev take_permit : ℕ × ℕ → Bool × (ℕ × ℕ)
take_permit (zero, w) = (false, (zero, w + 1))
take_permit (suc n, w) = (true, (n, w))

abbrev put_permit : ℕ × ℕ → ℕ × ℕ
put_permit (n, zero) = (n + 1, zero)
put_permit (n, suc w) = (n, w)

abbrev counting : Semaphore
counting = record {
  State = ℕ × ℕ;
  new = λ n. (n, 0);
  acquire_permit = take_permit;
  drop_permit = put_permit;
  permits = λ x. x.0;
  waiting = λ x. x.1;
}

take_some :
    (x : ℕ × ℕ)
    → 0 < x.0
    → ((take_permit x).0 ≡ true) × ((take_permit x).1.0 + 1 ≡ x.0) × ((take_permit x).1.1 ≡ x.1)
take_some (zero, w) h = absurd (omega (arith, h))
take_some (suc n, w) h = (refl, omega arith, refl)

take_none :
    (x : ℕ × ℕ)
    → x.0 ≡ 0
    → ((take_permit x).0 ≡ false) × ((take_permit x).1.0 ≡ 0) × ((take_permit x).1.1 ≡ x.1 + 1)
take_none (zero, w) h = (refl, refl, refl)
take_none (suc n, w) h = absurd (omega (arith, h))

put_waited : (x : ℕ × ℕ) → 0 < x.1 → ((put_permit x).0 ≡ x.0) × ((put_permit x).1 + 1 ≡ x.1)
put_waited (n, zero) h = absurd (omega (arith, h))
put_waited (n, suc w) h = (refl, omega arith)

put_free : (x : ℕ × ℕ) → x.1 ≡ 0 → ((put_permit x).0 ≡ x.0 + 1) × ((put_permit x).1 ≡ 0)
put_free (n, zero) h = (refl, refl)
put_free (n, suc w) h = absurd (omega (arith, h))

counting-GivesPermits : GivesPermits counting
counting-GivesPermits = record {
  permits-new = λ n. (refl, refl);
  acquire_some = take_some;
  acquire_none = take_none;
  release_waited = put_waited;
  release_free = put_free;
}

-- The fourth call waits until the first returns.
abbrev events : List Event
events = comes ∷ comes ∷ comes ∷ comes ∷ comes ∷ returns ∷ []

one_waits : counting.waiting (on_calls counting events (msg_sem counting)).sem ≡ 1
unfolding on_calls on_call
one_waits = refl

on_calls-running_example :
    ((on_calls counting events (msg_sem counting)).running ≤ 3)
    × (((on_calls counting events (msg_sem counting)).running ≡ 3)
        ⊎ (counting.waiting (on_calls counting events (msg_sem counting)).sem ≡ 0))
on_calls-running_example = on_calls-running counting counting-GivesPermits events
