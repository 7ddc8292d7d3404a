-- ===== src/Relay/IdleTimeout.antt =====
-- src/relay.rs: `down_to_up` of `Relay::run_inner` while its client is silent. Each turn of the loop
-- makes a new `timeout(d, down_read.next())` and waits for it or for the flush tick. Times are
-- milliseconds; `interval` ticks at once and then every 5, a late tick leaving the later ones where
-- they are (tokio's default). The task is polled some time after a timer is due, and when both are due
-- `select!` takes either.
use kafka_proxy.Base.{
  ℕ, ◌+◌, ◌*◌, ◌≤◌, ◌<◌, ◌≡◌, refl, Bool, not, ◌&&◌, ◌||◌, List, [], ◌∷◌, Option, none, some, ◌>>=◌,
  if◌then◌else◌, arith, leb, length, All,
}

abbrev pub per_conn_flush_ms : ℕ
per_conn_flush_ms = 5

-- The time at the head of the loop, and when the next tick is due.
pub record Timers : Type 0 where
  pub now : ℕ
  pub tick_due : ℕ

-- How late the task is polled, and whether `select!` looks at the timeout first.
pub record Poll : Type 0 where
  pub late : ℕ
  pub timeout_first : Bool

-- When the first of two timers fires, at the earliest at `now`.
abbrev pub first_due : ℕ → ℕ → ℕ → ℕ
first_due now a b = let first = if leb a b then a else b in if leb now first then first else now

-- A turn of the loop: `none` where the timeout has elapsed and the task returns.
unfoldable pub silent_turn : ℕ → Poll → Timers → Option Timers
silent_turn d p t =
    let woken = first_due t.now t.tick_due (t.now + d) + p.late in
    if leb (t.now + d) woken && (p.timeout_first || not (leb t.tick_due woken))
    then none
    else some (record { now = woken; tick_due = t.tick_due + per_conn_flush_ms })

unfoldable pub silent_turns : ℕ → List Poll → Timers → Option Timers
silent_turns d [] t = some t
silent_turns d (p ∷ ps) t = silent_turn d p t >>= silent_turns d ps

abbrev pub start_timers : ℕ → Timers
start_timers now = record { now = now; tick_due = now }

silent_turn-ticks :
    (d slack : ℕ) (p : Poll) (t : Timers)
    → per_conn_flush_ms + slack < d
    → p.late ≤ slack
    → t.tick_due ≤ t.now + per_conn_flush_ms
    → silent_turn d p t
      ≡ some (record {
        now = first_due t.now t.tick_due (t.now + d) + p.late;
        tick_due = t.tick_due + per_conn_flush_ms;
      })
unfolding silent_turn
silent_turn-ticks d slack p t long prompt due = ground arith

-- The idle timeout does not come. Let it be longer than the 5 milliseconds between flush ticks by more
-- than the task is ever late. Then a client that stays silent is still connected after any number
-- of turns of the loop, each of which a tick ended, so that 5 milliseconds more have gone by.
pub idle_timeout_starved :
    (d slack : ℕ) (ps : List Poll) (t : Timers)
    → per_conn_flush_ms + slack < d
    → All (λ p. p.late ≤ slack) ps
    → t.tick_due ≤ t.now + per_conn_flush_ms
    → (t' : Timers) × (silent_turns d ps t ≡ some t')
      × (t.tick_due + per_conn_flush_ms * length ps ≤ t'.now + per_conn_flush_ms)
unfolding silent_turns
idle_timeout_starved d slack [] t long prompt due = (t, refl, omega (arith, due))
idle_timeout_starved d slack (p ∷ ps) t long prompt due =
    let woken = first_due t.now t.tick_due (t.now + d) + p.late in
    let next : Timers = record { now = woken; tick_due = t.tick_due + per_conn_flush_ms } in
    let (t', e, later) = idle_timeout_starved d slack ps next long prompt.1 (ground arith) in
    (t', rw (silent_turn-ticks d slack p t long prompt.0 due) e, omega (arith, later))
