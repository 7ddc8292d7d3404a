-- ===== src/Proxy/Serves.antt =====
-- src/lib.rs: that `run` comes to wait for its accept loops, and where they send clients.
use kafka_proxy.Base.{ℕ, ◌≡◌, true, List, [], ◌∷◌, All}
use kafka_proxy.Config.{ProxyConfig}
use kafka_proxy.Metrics.{Metrics, new as new_metrics}
use kafka_proxy.Rewrite.{RewriteMap}
use kafka_proxy.Upstream.{Client}
use kafka_proxy.Upstream.Connect.{ClientBuilder}
use kafka_proxy.Proxy.{MappedListener}
use kafka_proxy.Proxy.Bootstrap.{bind_of}
use kafka_proxy.Proxy.Accept.{node_of}
use kafka_proxy.Proxy.Accept.{Forwarding, Turn, accept_turns, fresh_loop}
use kafka_proxy.Proxy.Listeners.{HasAddress}
use kafka_proxy.Proxy.Run.{Outside, Accepting, forwarding_of}

-- The loop of a listener: it listens at the listener's address, and whatever happens to it, its
-- clients go to the listener's node, which the table of rewritten addresses has an address for.
pub record LoopOf (c : ProxyConfig) (table : RewriteMap) (l : MappedListener) (a : Accepting)
    : Type 0 where
  pub bind : a.bind ≡ bind_of c.proxy.listen_bind l
  pub forwarding : a.forwarding ≡ forwarding_of c.pool.mode l
  pub node : node_of a.forwarding ≡ l.node_id
  pub advertised : HasAddress table (node_of a.forwarding)
  pub clients :
      (ts : List Turn) (m : Metrics)
      → All
          (λ (s : ℕ × Forwarding). node_of s.1 ≡ l.node_id)
          (accept_turns a.max_rss a.max_connections a.forwarding ts (fresh_loop m)).spawned

-- One loop for each listener, in order.
abbrev pub Serves : ProxyConfig → RewriteMap → List MappedListener → List Accepting → Type 0
Serves c table [] [] = Unit {0}
Serves c table (l ∷ ls) (a ∷ loops) = LoopOf c table l a × Serves c table ls loops
Serves c table _ _ = ⊥

-- The addresses can be bound one after the other.
module _ {k : Client} {b : ClientBuilder k} (o : Outside k b) (c : ProxyConfig) where
  abbrev pub Binds : List MappedListener → o.Network → Type 0
  Binds [] net = Unit {0}
  Binds (l ∷ ls) net =
      ((o.bind (bind_of c.proxy.listen_bind l) net).0 ≡ true)
      × Binds ls (o.bind (bind_of c.proxy.listen_bind l) net).1
