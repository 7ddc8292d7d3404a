-- ===== src/Proxy.antt =====
-- src/lib.rs: the mapping entries, and the table of listeners and of rewritten addresses; below it the
-- rest of a start, the accept loops, and the admission of clients. The addresses that host names
-- resolve to are an argument, `resolve`.
pub mod Mapping
pub mod Listeners
pub mod Bootstrap
pub mod Fallback
pub mod Accept
pub mod Admission
pub mod Shutdown
pub mod Run
pub mod Ready
pub mod Serves
mod Tests
mod BootstrapTests
mod RunTests
mod ShutdownTests
use kafka_proxy.Base.{
  ℕ, ◌*◌, ◌+◌, Bool, true, false, not, ◌&&◌, ◌||◌, List, [], ◌∷◌, ◌++◌, Option, none, some, ◌⊎◌,
  inl, inr, ◌==◌, leb, ltb, is_empty, if◌then◌else◌, unwrap_or,
}
use kafka_proxy.Base.Map.{insert}
use kafka_proxy.Text.{Text, rsplit_once, parse_unsigned, text_eq}
use kafka_proxy.Text.Decimal.{decimal}
use kafka_proxy.Config.{PoolConfig, ProxyConfig, parts_of}
use kafka_proxy.Rewrite.{RewriteMap}
use kafka_proxy.Pool.Broker.{PoolLimits}

pub record SocketAddr : Type 0 where
  pub ip : ℕ
  pub port : ℕ

pub record BrokerTarget : Type 0 where
  pub node_id : ℕ
  pub real_addr : SocketAddr
  pub real_host : Text

pub record MappedListener : Type 0 where
  pub node_id : ℕ
  pub port : ℕ
  pub bind_addr : Text
  pub target : BrokerTarget

-- The reasons of `ProxyError` here: the messages of `Config`, and `ConfigParse` of a host name.
pub data ProxyError : Type 0 where
  bad_format advertise_without_port bad_advertise_port bind_without_port bad_bind_port : ProxyError
  unresolved unknown_broker : Text → ProxyError

-- A configured duration is in microseconds, and an instant of the pool in nanoseconds.
unfoldable pub pool_limits : PoolConfig → PoolLimits
pool_limits c = record {
  max_per_broker = c.max_per_broker;
  min_idle = c.min_idle;
  idle_timeout = c.idle_timeout * 1_000;
  acquire_timeout = c.acquire_timeout * 1_000;
  max_in_flight = c.max_in_flight;
}

abbrev pub u16_max : ℕ
u16_max = 65535

-- The part to bind to, if there is one, and the part to advertise.
unfoldable pub bind_and_advertise : List Text → Option (Option Text × Text)
bind_and_advertise (a ∷ []) = some (none, a)
bind_and_advertise (b ∷ a ∷ []) = some (some b, a)
bind_and_advertise (o ∷ b ∷ a ∷ []) = some (some b, a)
bind_and_advertise _ = none

-- The advertised host, or the fallback for an empty one, and the port.
unfoldable pub parse_advertise : Text → Text → ProxyError ⊎ (Text × ℕ)
parse_advertise part fallback_host = elim (rsplit_once b':' part) [
  | none ↦ inl advertise_without_port
  | some (host, port_str) ↦ elim (parse_unsigned u16_max port_str) [
    | none ↦ inl bad_advertise_port
    | some port ↦ inr (if is_empty host then fallback_host else host, port)
  ]
]

unfoldable pub parse_bind : Option Text → ℕ → ProxyError ⊎ Text
parse_bind none advertise_port = inr (b':' ∷ decimal advertise_port)
parse_bind (some part) advertise_port = elim (rsplit_once b':' part) [
  | none ↦ inl bind_without_port
  | some (host, port_str) ↦ elim (parse_unsigned u16_max port_str) [
    | none ↦ inl bad_bind_port
    | some port ↦ inr (if is_empty host then b':' ∷ decimal port else host ++ (b':' ∷ decimal port))
  ]
]

-- (bind_addr, advertise_host, advertise_port)
unfoldable pub parse_mapping_entry : Text → Text → ProxyError ⊎ (Text × Text × ℕ)
unfolding bind_and_advertise parse_advertise parse_bind
parse_mapping_entry mapping fallback_host = elim (bind_and_advertise (parts_of mapping)) [
  | none ↦ inl bad_format
  | some (bind_part, advertise_part) ↦ elim (parse_advertise advertise_part fallback_host) [
    | inl e ↦ inl e
    | inr (host, port) ↦ elim (parse_bind bind_part port) [
      | inl e ↦ inl e
      | inr bind_addr ↦ inr (bind_addr, host, port)
    ]
  ]
]

abbrev pub is_target : SocketAddr → Text → BrokerTarget → Bool
is_target addr host t =
    (t.real_addr.ip == addr.ip && t.real_addr.port == addr.port) || text_eq t.real_host host

-- `targets.iter().find(..)`
unfoldable pub find_target : SocketAddr → Text → List BrokerTarget → Option BrokerTarget
find_target addr host [] = none
find_target addr host (t ∷ ts) =
    let rest = find_target addr host ts in if is_target addr host t then some t else rest

-- The part of a bootstrap server before its last colon, or all of it.
unfoldable pub server_host : Text → Text
server_host bs = elim (rsplit_once b':' bs) [ none ↦ bs | some (h, _) ↦ h ]

module _ (resolve : Text → Option SocketAddr) (fallback_host : Text)
    (targets : List BrokerTarget) where
  -- The body of the loop of `build_rewrite_map`: the entry for the table, and the listener.
  unfoldable pub build_listener : Text → Text → ProxyError ⊎ ((Text × ℕ) × MappedListener)
  unfolding find_target server_host
  build_listener bs mapping = elim (parse_mapping_entry mapping fallback_host) [
    | inl e ↦ inl e
    | inr (bind_addr, host, port) ↦ elim (resolve bs) [
      | none ↦ inl (unresolved bs)
      | some addr ↦ elim (find_target addr (server_host bs) targets) [
        | none ↦ inl (unknown_broker bs)
        | some t ↦ inr (
          (host, port),
          record { node_id = t.node_id; port = port; bind_addr = bind_addr; target = t },
        )
      ]
    ]
  ]

  -- The loop over the servers and their entries together, up to the shorter of the lists.
  unfoldable pub build_loop :
      List Text → List Text → RewriteMap → ProxyError ⊎ (RewriteMap × List MappedListener)
  unfolding build_listener
  build_loop [] mappings node_ports = inr (node_ports, [])
  build_loop (bs ∷ servers) [] node_ports = inr (node_ports, [])
  build_loop (bs ∷ servers) (mapping ∷ mappings) node_ports = elim (build_listener bs mapping) [
    | inl e ↦ inl e
    | inr (entry, l) ↦ elim (build_loop servers mappings (insert l.node_id entry node_ports)) [
      | inl e ↦ inl e
      | inr (table, ls) ↦ inr (table, l ∷ ls)
    ]
  ]

unfoldable pub build_rewrite_map :
    (Text → Option SocketAddr)
    → ProxyConfig
    → List BrokerTarget
    → ProxyError ⊎ (RewriteMap × List MappedListener)
unfolding build_loop
build_rewrite_map resolve c targets =
    build_loop resolve (unwrap_or c.proxy.advertise_host []) targets c.bootstrap_servers
      c.proxy.bootstrap_server_mapping []
