-- ===== src/Proxy/Shutdown.antt =====
-- src/lib.rs: where an accept loop sends its clients, and what the cancellation does to it.
use kafka_proxy.Base.{
  ℕ, ◌≡◌, refl, false, ◌&&◌, List, [], ◌∷◌, ◌++◌, Option, arith, ltb, All, Bool-cases, inl, inr,
}
use kafka_proxy.Base.Sort.{All-append}
use kafka_proxy.Metrics.{Metrics}
use kafka_proxy.Proxy.Admission.{admits}
use kafka_proxy.Proxy.Accept.{
  Forwarding, Turn, cancelled, accepted, accept_failed, task_ended, AcceptLoop, accept_turn,
  accept_turns, fresh_loop,
}

module _ (max_rss : Option ℕ) (max_connections : ℕ) (f : Forwarding) where
  AllTo : AcceptLoop → Type 0
  AllTo l = All (λ (s : ℕ × Forwarding). s.1 ≡ f) l.spawned

  accept_turn-AllTo :
      (t : Turn) (l : AcceptLoop) → AllTo l → AllTo (accept_turn max_rss max_connections f t l)
  unfolding AllTo accept_turn
  accept_turn-AllTo cancelled l to = to
  accept_turn-AllTo (accepted peer rss now) l to =
      elim (Bool-cases (l.running && admits max_rss rss max_connections l.system.metrics)) [
        | inl e ↦
            rw e (
              All-append (λ (s : ℕ × Forwarding). s.1 ≡ f) l.spawned ((peer, f) ∷ []) to (refl, tt))
        | inr e ↦ rw e to
      ]
  accept_turn-AllTo accept_failed l to = to
  accept_turn-AllTo (task_ended peer) l to = elim (Bool-cases (ltb 0 l.system.connected)) [
    | inl e ↦ rw e to
    | inr e ↦ rw e to
  ]

  accept_turns-AllTo :
      (ts : List Turn) (l : AcceptLoop)
      → AllTo l
      → AllTo (accept_turns max_rss max_connections f ts l)
  unfolding accept_turns
  accept_turns-AllTo [] l to = to
  accept_turns-AllTo (t ∷ ts) l to = accept_turns-AllTo ts _ (accept_turn-AllTo t l to)

  -- Every client of a loop goes where the loop sends them.
  pub accept_turns-forwarding :
      (ts : List Turn) (m : Metrics)
      → All
          (λ (s : ℕ × Forwarding). s.1 ≡ f)
          (accept_turns max_rss max_connections f ts (fresh_loop m)).spawned
  unfolding AllTo
  accept_turns-forwarding ts m = accept_turns-AllTo ts (fresh_loop m) tt

  accept_turns-append :
      (ts us : List Turn) (l : AcceptLoop)
      → accept_turns max_rss max_connections f (ts ++ us) l
        ≡ accept_turns max_rss max_connections f us (accept_turns max_rss max_connections f ts l)
  unfolding accept_turns
  accept_turns-append [] us l = refl
  accept_turns-append (t ∷ ts) us l =
      accept_turns-append ts us (accept_turn max_rss max_connections f t l)

  Stopped : List (ℕ × Forwarding) → AcceptLoop → Type 0
  Stopped clients l = (l.running ≡ false) × (l.spawned ≡ clients)

  accept_turn-Stopped :
      (clients : List (ℕ × Forwarding)) (t : Turn) (l : AcceptLoop)
      → Stopped clients l
      → Stopped clients (accept_turn max_rss max_connections f t l)
  unfolding Stopped accept_turn
  accept_turn-Stopped clients cancelled l (off, same) = (refl, same)
  accept_turn-Stopped clients (accepted peer rss now) l (off, same) =
      (ground (arith, off), ground (arith, off, same))
  accept_turn-Stopped clients accept_failed l stopped = stopped
  accept_turn-Stopped clients (task_ended peer) l (off, same) =
      elim (Bool-cases (ltb 0 l.system.connected)) [
        | inl e ↦ rw e (off, same)
        | inr e ↦ rw e (off, same)
      ]

  accept_turns-Stopped :
      (clients : List (ℕ × Forwarding)) (ts : List Turn) (l : AcceptLoop)
      → Stopped clients l
      → Stopped clients (accept_turns max_rss max_connections f ts l)
  unfolding accept_turns
  accept_turns-Stopped clients [] l stopped = stopped
  accept_turns-Stopped clients (t ∷ ts) l stopped =
      accept_turns-Stopped clients ts _ (accept_turn-Stopped clients t l stopped)

  -- The cancellation ends an accept loop. Whatever came before, the loop has ended after it and no
  -- client that comes later is taken; and at the moment it ends, the clients that were connected
  -- still are: it waits for none of them.
  pub accept_turns-cancelled :
      (ts us : List Turn) (l : AcceptLoop)
      → let before = accept_turns max_rss max_connections f ts l in
        let ended = accept_turns max_rss max_connections f (ts ++ (cancelled ∷ [])) l in
        let after = accept_turns max_rss max_connections f (ts ++ (cancelled ∷ us)) l in
        (after.running ≡ false) × (after.spawned ≡ before.spawned) × (ended.system ≡ before.system)
  unfolding accept_turns accept_turn Stopped
  accept_turns-cancelled ts us l =
      let before = accept_turns max_rss max_connections f ts l in
      let (off, same) =
        accept_turns-Stopped before.spawned us (record before { running = false }) (refl, refl) in
      rw (accept_turns-append ts (cancelled ∷ us) l, accept_turns-append ts (cancelled ∷ []) l)
        (off, same, refl)
