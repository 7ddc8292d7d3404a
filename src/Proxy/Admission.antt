-- ===== src/Proxy/Admission.antt =====
-- src/lib.rs: `accept_loop_per_connection` and `accept_loop_pooled`. The loops of all listeners share
-- the gauge of downstream connections: each reads it, and counts its client in a later step.
use kafka_proxy.Base.{
  ℕ, ◌+◌, ◌-◌, ◌^◌, ◌≤◌, ◌<◌, ◌≡◌, ◌∙◌, Bool, true, ◌&&◌, Option, none, some, [], arith, leb, ltb,
}
use kafka_proxy.Base.Map.{Map, insert, remove}
use kafka_proxy.Metrics.{Metrics, inc_downstream_connections, dec_downstream_connections}

-- Client to (node id, time), as `ConnectionTracker`; the metrics; how many loops let a client in that
-- they have not counted yet; how many counted clients are connected.
pub record System : Type 0 where
  pub metrics : Metrics
  pub conn_tracker : Map (ℕ × ℕ)
  pub admitting : ℕ
  pub connected : ℕ

-- The two checks of an accepted client: the memory limit, if there is one, and the number of clients.
unfoldable pub admits : Option ℕ → ℕ → ℕ → Metrics → Bool
admits none rss max_connections m = ltb m.downstream_connections max_connections
admits (some max_rss) rss max_connections m =
    leb rss max_rss && ltb m.downstream_connections max_connections

-- After the checks.
unfoldable pub client_begins : ℕ → ℕ → ℕ → System → System
client_begins peer node_id now s = record s {
  metrics = inc_downstream_connections s.metrics;
  conn_tracker = insert peer (node_id, now) s.conn_tracker;
  admitting = s.admitting - 1;
  connected = s.connected + 1;
}

-- The end of the task that relays for the client.
unfoldable pub client_ends : ℕ → System → System
client_ends peer s = record s {
  metrics = dec_downstream_connections s.metrics;
  conn_tracker = remove peer s.conn_tracker;
  connected = s.connected - 1;
}

module _ (loops : ℕ) (max_rss : Option ℕ) (max_connections : ℕ) where
  -- A step of one of the loops, the end of a client, or a change of other metrics.
  pub data Step (s : System) : System → Type 0 where
    admit :
        (rss : ℕ)
        → s.admitting < loops
        → admits max_rss rss max_connections s.metrics ≡ true
        → Step s (record s { admitting = s.admitting + 1 })
    begin : (peer node_id now : ℕ) → 0 < s.admitting → Step s (client_begins peer node_id now s)
    finish : (peer : ℕ) → 0 < s.connected → Step s (client_ends peer s)
    other :
        (m : Metrics)
        → m.downstream_connections ≡ s.metrics.downstream_connections
        → Step s (record s { metrics = m })

  pub data Reach (s : System) : System → Type 0 where
    here : Reach s s
    next : {t u : System} → Reach s t → Step t u → Reach s u

  pub record Inv (s : System) : Type 0 where
    pub gauge : s.metrics.downstream_connections ≡ s.connected
    pub within : s.connected + s.admitting ≤ max_connections + loops - 1

  admits-lt :
      (rss : ℕ) (m : Metrics)
      → admits max_rss rss max_connections m ≡ true
      → m.downstream_connections < max_connections
  unfolding admits
  admits-lt rss m h = elim max_rss [ none ↦ ground arith | some k ↦ ground arith ]

  Step-Inv : {s t : System} → max_connections + loops < 2 ^ 63 → Step s t → Inv s → Inv t
  unfolding client_begins client_ends inc_downstream_connections dec_downstream_connections
  Step-Inv {s} small (admit rss free h) v = record {
    gauge = v.gauge;
    within = omega (arith, admits-lt rss s.metrics h, v.gauge, v.within);
  }
  Step-Inv small (begin peer node_id now some_admitting) v = record {
    gauge = omega (arith, v.gauge, v.within);
    within = omega (arith, v.within);
  }
  Step-Inv small (finish peer some_connected) v = record {
    gauge = omega (arith, v.gauge, v.within);
    within = omega (arith, v.within);
  }
  Step-Inv small (other m same) v = record { gauge = same ∙ v.gauge; within = v.within }

  Reach-Inv : {s t : System} → max_connections + loops < 2 ^ 63 → Inv s → Reach s t → Inv t
  Reach-Inv small v here = v
  Reach-Inv small v (next r st) = Step-Inv small st (Reach-Inv small v r)

-- However the accept loops and the ends of clients come between each other, the gauge is the number
-- of connected clients, and that number is above the limit by less than the number of loops.
pub Reach-connected :
    {t : System} (loops : ℕ) (max_rss : Option ℕ) (max_connections : ℕ) (m : Metrics)
    → 1 ≤ loops
    → max_connections + loops < 2 ^ 63
    → m.downstream_connections ≡ 0
    → Reach loops max_rss max_connections
        (record { metrics = m; conn_tracker = []; admitting = 0; connected = 0 })
        t
    → (t.metrics.downstream_connections ≡ t.connected) × (t.connected < max_connections + loops)
Reach-connected {t} loops max_rss max_connections m some_loop small fresh r =
    let v = Reach-Inv loops max_rss max_connections small start r in
    (v.gauge, omega (arith, v.within))
  where
    start :
        Inv loops max_rss max_connections
          (record { metrics = m; conn_tracker = []; admitting = 0; connected = 0 })
    start = record { gauge = fresh; within = omega arith }
