-- ===== src/Proxy/Accept.antt =====
-- src/lib.rs: `accept_loop_per_connection` and `accept_loop_pooled` as a loop over what its `select!`
-- yields, with the ends of the tasks it spawns, and that it keeps to the steps of Proxy/Admission.
use kafka_proxy.Base.{
  ℕ, ◌+◌, ◌^◌, ◌≤◌, ◌<◌, ◌≡◌, refl, Bool, true, false, ◌&&◌, List, [], ◌∷◌, ◌++◌, Option,
  if◌then◌else◌, arith, ltb, Bool-cases, inl, inr,
}
use kafka_proxy.Metrics.{Metrics}
use kafka_proxy.Proxy.{BrokerTarget}
use kafka_proxy.Proxy.Admission.{
  System, admits, client_begins, client_ends, admit, begin, finish, Reach, here, next,
  Reach-connected,
}

-- Where a loop sends its clients: to relays for a target of their own, or for the pool of a node.
pub data Forwarding : Type 0 where
  per_connection : BrokerTarget → Forwarding
  pooled : ℕ → Forwarding

abbrev pub node_of : Forwarding → ℕ
node_of (per_connection target) = target.node_id
node_of (pooled node_id) = node_id

-- The cancellation, a client with the resident memory and the time, a failure of `accept` (after
-- which the loop sleeps a second), and the end of a client's task.
pub data Turn : Type 0 where
  cancelled : Turn
  accepted : (peer rss now : ℕ) → Turn
  accept_failed : Turn
  task_ended : (peer : ℕ) → Turn

-- `spawned` are the clients for which a relay was started, and how it forwards.
pub record AcceptLoop : Type 0 where
  pub system : System
  pub running : Bool
  pub spawned : List (ℕ × Forwarding)

module _ (max_rss : Option ℕ) (max_connections : ℕ) (f : Forwarding) where
  abbrev pub accept_client : ℕ → ℕ → AcceptLoop → AcceptLoop
  accept_client peer now l = record l {
    system =
        client_begins peer (node_of f) now (record l.system { admitting = l.system.admitting + 1 });
    spawned = l.spawned ++ ((peer, f) ∷ []);
  }

  unfoldable pub accept_turn : Turn → AcceptLoop → AcceptLoop
  accept_turn cancelled l = record l { running = false }
  accept_turn (accepted peer rss now) l =
      if l.running && admits max_rss rss max_connections l.system.metrics
      then accept_client peer now l
      else l
  accept_turn accept_failed l = l
  accept_turn (task_ended peer) l =
      if ltb 0 l.system.connected then record l { system = client_ends peer l.system } else l

  unfoldable pub accept_turns : List Turn → AcceptLoop → AcceptLoop
  accept_turns [] l = l
  accept_turns (t ∷ ts) l = accept_turns ts (accept_turn t l)

  Idle : AcceptLoop → Type 0
  Idle l = l.system.admitting ≡ 0

  accept_turn-Idle : (t : Turn) (l : AcceptLoop) → Idle l → Idle (accept_turn t l)
  unfolding Idle accept_turn client_begins client_ends
  accept_turn-Idle cancelled l idle = idle
  accept_turn-Idle (accepted peer rss now) l idle =
      elim (Bool-cases (l.running && admits max_rss rss max_connections l.system.metrics)) [
        | inl e ↦ rw e (omega (arith, idle))
        | inr e ↦ rw e idle
      ]
  accept_turn-Idle accept_failed l idle = idle
  accept_turn-Idle (task_ended peer) l idle = elim (Bool-cases (ltb 0 l.system.connected)) [
    | inl e ↦ rw e idle
    | inr e ↦ rw e idle
  ]

  -- A turn is no step, one, or two: a client is admitted, and then counted.
  accept_turn-Reach :
      (s : System) (t : Turn) (l : AcceptLoop)
      → Idle l
      → Reach 1 max_rss max_connections s l.system
      → Reach 1 max_rss max_connections s (accept_turn t l).system
  unfolding Idle accept_turn
  accept_turn-Reach s cancelled l idle r = r
  accept_turn-Reach s (accepted peer rss now) l idle r =
      elim (Bool-cases (l.running && admits max_rss rss max_connections l.system.metrics)) [
        | inl e ↦
            let ok : admits max_rss rss max_connections l.system.metrics ≡ true =
              ground (arith, e) in
            let r1 : Reach 1 max_rss max_connections s
                (record l.system { admitting = l.system.admitting + 1 }) =
              next r (admit rss (omega (arith, idle)) ok) in
            rw e (next r1 (begin peer (node_of f) now (omega arith)))
        | inr e ↦ rw e r
      ]
  accept_turn-Reach s accept_failed l idle r = r
  accept_turn-Reach s (task_ended peer) l idle r = elim (Bool-cases (ltb 0 l.system.connected)) [
    | inl e ↦ rw e (next r (finish peer (ground (arith, e))))
    | inr e ↦ rw e r
  ]

  accept_turns-Reach :
      (s : System) (ts : List Turn) (l : AcceptLoop)
      → Idle l
      → Reach 1 max_rss max_connections s l.system
      → Reach 1 max_rss max_connections s (accept_turns ts l).system
  unfolding accept_turns
  accept_turns-Reach s [] l idle r = r
  accept_turns-Reach s (t ∷ ts) l idle r =
      accept_turns-Reach s ts (accept_turn t l) (accept_turn-Idle t l idle)
        (accept_turn-Reach s t l idle r)

-- The two loops of the source differ in what they forward to only.
unfoldable pub accept_loop_per_connection :
    Option ℕ → ℕ → BrokerTarget → List Turn → AcceptLoop → AcceptLoop
accept_loop_per_connection max_rss max_connections target =
    accept_turns max_rss max_connections (per_connection target)

unfoldable pub accept_loop_pooled : Option ℕ → ℕ → ℕ → List Turn → AcceptLoop → AcceptLoop
accept_loop_pooled max_rss max_connections node_id =
    accept_turns max_rss max_connections (pooled node_id)

abbrev pub fresh_loop : Metrics → AcceptLoop
fresh_loop m = record {
  system = record { metrics = m; conn_tracker = []; admitting = 0; connected = 0 };
  running = true;
  spawned = [];
}

-- One accept loop on its own keeps the limit. Whatever clients come, in either mode, and whenever
-- their tasks end, `accept` fails or the loop is cancelled, the gauge is the number of connected
-- clients, and that is at most the limit.
pub accept_turns-connected :
    (max_rss : Option ℕ) (max_connections : ℕ) (f : Forwarding) (ts : List Turn) (m : Metrics)
    → max_connections + 1 < 2 ^ 63
    → m.downstream_connections ≡ 0
    → ((accept_turns max_rss max_connections f ts
          (fresh_loop m)).system.metrics.downstream_connections
        ≡ (accept_turns max_rss max_connections f ts (fresh_loop m)).system.connected)
      × ((accept_turns max_rss max_connections f ts (fresh_loop m)).system.connected
          ≤ max_connections)
unfolding Idle
accept_turns-connected max_rss max_connections f ts m small none_connected =
    let r =
      accept_turns-Reach max_rss max_connections f (fresh_loop m).system ts (fresh_loop m) refl
        here in
    let (gauge, few) =
      Reach-connected 1 max_rss max_connections m (omega arith) small none_connected r in
    (gauge, omega (arith, few))
