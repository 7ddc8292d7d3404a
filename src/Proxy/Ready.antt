-- ===== src/Proxy/Ready.antt =====
-- src/lib.rs: `build_rewrite_map` on a mapping whose entries can be read, with servers that are found.
use kafka_proxy.Base.{map, ℕ, ◌≡◌, refl, List, [], ◌∷◌, Option, some, inr}
use kafka_proxy.Base.Map.{insert}
use kafka_proxy.Rewrite.{RewriteMap}
use kafka_proxy.Text.{Text}
use kafka_proxy.Proxy.{
  SocketAddr, BrokerTarget, MappedListener, parse_mapping_entry, find_target, server_host,
  build_listener, build_loop,
}

-- What a mapping entry and its server come to.
pub record Entry : Type 0 where
  pub bind_addr : Text
  pub host : Text
  pub port : ℕ
  pub addr : SocketAddr
  pub target : BrokerTarget

abbrev pub listener_of : Entry → MappedListener
listener_of x = record {
  node_id = x.target.node_id;
  port = x.port;
  bind_addr = x.bind_addr;
  target = x.target;
}

-- The table that the entries fill, a later one for a node in the place of an earlier.
abbrev pub table_of : List Entry → RewriteMap → RewriteMap
table_of [] table = table
table_of (x ∷ xs) table = table_of xs (insert x.target.node_id (x.host, x.port) table)

module _ (resolve : Text → Option SocketAddr) (fallback_host : Text)
    (targets : List BrokerTarget) where
  -- The mapping entry can be read, its server has an address, and a broker of the cluster is found
  -- for it.
  pub record IsReady (server mapping : Text) (x : Entry) : Type 0 where
    pub read : parse_mapping_entry mapping fallback_host ≡ inr (x.bind_addr, x.host, x.port)
    pub resolved : resolve server ≡ some x.addr
    pub found : find_target x.addr (server_host server) targets ≡ some x.target

  abbrev pub AllReady : List Text → List Text → List Entry → Type 0
  AllReady [] [] [] = Unit {0}
  AllReady (s ∷ servers) (m ∷ mappings) (x ∷ xs) = IsReady s m x × AllReady servers mappings xs
  AllReady _ _ _ = ⊥

  pub build_loop-ready :
      (servers mappings : List Text) (xs : List Entry) (table : RewriteMap)
      → AllReady servers mappings xs
      → build_loop resolve fallback_host targets servers mappings table
        ≡ inr (table_of xs table, map listener_of xs)
  unfolding build_loop build_listener
  build_loop-ready [] [] [] table ready = refl
  build_loop-ready [] [] (x ∷ xs) table ready = absurd ready
  build_loop-ready [] (m ∷ mappings) xs table ready = absurd ready
  build_loop-ready (s ∷ servers) [] xs table ready = absurd ready
  build_loop-ready (s ∷ servers) (m ∷ mappings) [] table ready = absurd ready
  build_loop-ready (s ∷ servers) (m ∷ mappings) (x ∷ xs) table (r, ready) =
      let rest =
        build_loop-ready servers mappings xs (insert x.target.node_id (x.host, x.port) table)
          ready in
      rw (r.read, r.resolved, r.found, rest, build_loop, build_listener) refl
