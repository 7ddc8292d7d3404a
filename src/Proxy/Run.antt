-- ===== src/Proxy/Run.antt =====
-- src/lib.rs: `run`, from the configuration to the accept loops that it waits for. kafka_client, the
-- network and the clock are arguments.
use kafka_proxy.Base.{
  ℕ, ◌-◌, ◌^◌, List, [], ◌∷◌, ◌++◌, Option, none, some, ◌⊎◌, inl, inr, Bool, if◌then◌else◌, leb,
}
use kafka_proxy.Text.{Text, codes, rsplit_once}
use kafka_proxy.Text.Decimal.{decimal}
use kafka_proxy.Config.{ProxyConfig, PoolMode, pooled, per_connection}
use kafka_proxy.Config.Values.{ConfigError, parse_addr}
use kafka_proxy.Metrics.{Metrics, new as new_metrics}
use kafka_proxy.Rewrite.{RewriteMap}
use kafka_proxy.Upstream.{Client, UpstreamError, AuthInner, plaintext, sasl, kerberos, from_config}
use kafka_proxy.Upstream.Connect.{ClientBuilder, apply_to_client_builder}
use kafka_proxy.Api.Serve.{Server, serve, new as new_api_deps}
use kafka_proxy.Pool.Remap.{CidRemap, with_max_in_flight}
use kafka_proxy.Pool.Broker.{BrokerPool, new as new_pool, warmup}
use kafka_proxy.Proxy.{
  SocketAddr, BrokerTarget, MappedListener, ProxyError, pool_limits, build_rewrite_map,
}
use kafka_proxy.Proxy.Bootstrap.{BrokerInfo, bootstrap_targets, bind_of, max_rss_limit}
use kafka_proxy.Proxy.Accept.{Forwarding, per_connection as to_target, pooled as to_pool}

-- `build` gives an error, or the brokers the client knows after `refresh_metadata`. `attempts` are the
-- outcomes of the connection attempts to a node: the write channel and the duration of one that works.
-- `bind` says whether an address can be bound, and changes the network: one that is bound is taken.
-- The endpoints bind theirs in a task of its own, at some time; `api_binds` says whether they could.
pub record Outside (k : Client) (b : ClientBuilder k) : Type 1 where
  pub Network : Type 0
  pub net : Network
  pub bind : Text → Network → Bool × Network
  pub api_binds : Text → Bool
  pub builder : List Text → b.Builder
  pub with_broker_hostname : Text → b.Builder → b.Builder
  pub build : b.Builder → Text ⊎ List BrokerInfo
  pub lookup_host : Text → Text ⊎ List SocketAddr
  pub attempts : ℕ → List (Option (ℕ × ℕ))
  pub now : ℕ
  pub show_addr : SocketAddr → Text

pub data RunError : Type 0 where
  upstream_auth : UpstreamError → RunError
  kafka : Text → RunError
  start : ProxyError → RunError
  io : Text → RunError

-- An accept loop that has been started, with the arguments it is given.
pub record Accepting : Type 0 where
  pub bind : Text
  pub forwarding : Forwarding
  pub pool : Option BrokerPool
  pub max_connections : ℕ
  pub idle : Option ℕ
  pub max_rss : Option ℕ

-- What `run` waits for, with what all the loops share. `api` is the server
-- of the web endpoints, if its address could be bound; otherwise that is only logged.
pub record Running : Type 0 where
  pub api : Option Server
  pub rewrite_map : RewriteMap
  pub loops : List Accepting
  pub cid_remap : CidRemap
  pub metrics : Metrics

-- `{}` of an i32.
unfoldable pub show_i32 : ℕ → Text
show_i32 n = if leb (2 ^ 31) n then b'-' ∷ decimal (2 ^ 32 - n) else decimal n

unfoldable pub forwarding_of : PoolMode → MappedListener → Forwarding
forwarding_of per_connection l = to_target l.target
forwarding_of pooled l = to_pool l.node_id

-- The host of the first server, if it has a colon.
abbrev pub first_host : List Text → Option Text
first_host [] = none
first_host (bs ∷ servers) = elim (rsplit_once b':' bs) [ none ↦ none | some (h, _) ↦ some h ]

abbrev pub found : {A : Type 0} → ConfigError ⊎ A → Option A
found (inl e) = none
found (inr x) = some x

module _ {k : Client} {b : ClientBuilder k} (o : Outside k b) where
  -- The name resolution of Proxy.antt and Proxy/Bootstrap.
  abbrev pub resolve : Text → Option SocketAddr
  resolve s = found (parse_addr o.lookup_host s)

  unfoldable pub debug_broker : BrokerTarget → Text
  unfolding show_i32
  debug_broker t =
      codes "node_id: "
      ++ (show_i32 t.node_id
          ++ (codes ", raddr: " ++ (o.show_addr t.real_addr ++ (codes ", host: " ++ t.real_host))))

  unfoldable pub info : MappedListener → Text
  unfolding show_i32
  info l =
      decimal l.port
      ++ (codes " -> {node_id: "
          ++ (show_i32 l.node_id
              ++ (codes ", real_addr: "
                  ++ (o.show_addr l.target.real_addr
                      ++ (codes ", real_host: " ++ (l.target.real_host ++ codes "}"))))))

  abbrev pub name_host : Option Text → b.Builder → b.Builder
  name_host none builder = builder
  name_host (some host) builder = o.with_broker_hostname host builder

  -- The builder of the client, as `bootstrap_targets` completes it.
  unfoldable pub client_builder : AuthInner k → List Text → b.Builder
  client_builder (kerberos creds host port) servers =
      name_host (first_host servers)
        (apply_to_client_builder k b (kerberos creds host port) (o.builder servers))
  client_builder plaintext servers = apply_to_client_builder k b plaintext (o.builder servers)
  client_builder (sasl mechanism creds) servers =
      apply_to_client_builder k b (sasl mechanism creds) (o.builder servers)

  abbrev pub as_start : {A : Type 0} → ProxyError ⊎ A → RunError ⊎ A
  as_start (inl e) = inl (start e)
  as_start (inr x) = inr x

  unfoldable pub bootstrap : AuthInner k → List Text → RunError ⊎ List BrokerTarget
  unfolding client_builder
  bootstrap auth servers = elim (o.build (client_builder auth servers)) [
    | inl e ↦ inl (kafka e)
    | inr brokers ↦ as_start (bootstrap_targets resolve servers brokers)
  ]

  -- A listener of the pooled mode gets a pool, which is warmed up first.
  abbrev pub pool_of : ProxyConfig → MappedListener → CidRemap → Metrics → BrokerPool
  pool_of c l remap m =
      warmup (o.attempts l.node_id) o.now (new_pool l.node_id (pool_limits c.pool) remap m)

  abbrev pub accepting : ProxyConfig → MappedListener → Option BrokerPool → Accepting
  accepting c l pool = record {
    bind = bind_of c.proxy.listen_bind l;
    forwarding = forwarding_of c.pool.mode l;
    pool = pool;
    max_connections = c.proxy.max_downstream_connections;
    idle = c.proxy.client_idle_timeout;
    max_rss = max_rss_limit c.pool.max_rss_bytes;
  }

  -- The body of the loop over the listeners, after the bind.
  unfoldable pub start_listener :
      PoolMode → ProxyConfig → MappedListener → CidRemap → Metrics → Accepting × CidRemap × Metrics
  start_listener per_connection c l remap m = (accepting c l none, remap, m)
  start_listener pooled c l remap m =
      let pool = pool_of c l remap m in (accepting c l (some pool), pool.cid_remap, pool.metrics)

  -- A bind that fails ends the start, and the loops that run are aborted with their `JoinSet`.
  unfoldable pub start_listeners :
      ProxyConfig
      → List MappedListener
      → o.Network
      → CidRemap
      → Metrics
      → RunError ⊎ (List Accepting × CidRemap × Metrics)
  unfolding start_listener
  start_listeners c [] net remap m = inr ([], remap, m)
  start_listeners c (l ∷ ls) net remap m =
      let (free, net') = o.bind (bind_of c.proxy.listen_bind l) net in
      let (a, remap', m') = start_listener c.pool.mode c l remap m in
      let rest = start_listeners c ls net' remap' m' in
      if free
      then elim rest [
        | inl e ↦ inl e
        | inr (loops, last_remap, last_m) ↦ inr (a ∷ loops, last_remap, last_m)
      ]
      else inl (io (bind_of c.proxy.listen_bind l))

  -- The web endpoints start before the listeners, with the metrics and the tracker of a fresh start.
  abbrev pub start_api : ProxyConfig → Option Server
  start_api c = serve o.api_binds (new_api_deps (new_metrics c.api.metrics_enabled) [] c.api) c.api

  abbrev pub running : Option Server → RewriteMap → List Accepting × CidRemap × Metrics → Running
  running api table (loops, remap, m) = record {
    api = api;
    rewrite_map = table;
    loops = loops;
    cid_remap = remap;
    metrics = m;
  }

  unfoldable pub run_with : AuthInner k → ProxyConfig → RunError ⊎ Running
  unfolding bootstrap start_listeners
  run_with auth c = elim (bootstrap auth c.bootstrap_servers) [
    | inl e ↦ inl e
    | inr targets ↦ elim (build_rewrite_map resolve c targets) [
      | inl e ↦ inl (start e)
      | inr (table, listeners) ↦
          elim (start_listeners c listeners o.net (with_max_in_flight c.pool.max_in_flight)
            (new_metrics c.api.metrics_enabled)) [
              | inl e ↦ inl e
              | inr started ↦ inr (running (start_api c) table started)
            ]
    ]
  ]

  unfoldable pub run : ProxyConfig → RunError ⊎ Running
  unfolding run_with
  run c = elim (from_config k c.upstream_auth) [
    | inl e ↦ inl (upstream_auth e)
    | inr auth ↦ run_with auth c
  ]
