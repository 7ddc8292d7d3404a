-- ===== src/Proxy/Bootstrap.antt =====
-- src/lib.rs: `bootstrap_targets`, once kafka_client has built its client and tried to refresh its
-- metadata; a refresh that fails is only logged. `brokers` is what the client then knows. Also the
-- addresses and the memory limit that `run` derives from the configuration.
use kafka_proxy.Base.{
  ℕ, suc, ◌+◌, ◌-◌, ◌%◌, ◌^◌, List, [], ◌∷◌, ◌++◌, Option, none, some, ◌⊎◌, inl, inr, if◌then◌else◌,
  is_empty, ltb,
}
use kafka_proxy.Text.{Text, starts_with_char}
use kafka_proxy.Text.Decimal.{decimal}
use kafka_proxy.Proxy.{
  SocketAddr, BrokerTarget, MappedListener, ProxyError, unresolved, server_host,
}

-- A broker of the metadata.
pub record BrokerInfo : Type 0 where
  pub node_id : ℕ
  pub host : Text
  pub port : ℕ

-- `-(i as i32 + 1)`
abbrev pub fallback_node_id : ℕ → ℕ
fallback_node_id i = (2 ^ 32 - (i % 2 ^ 32 + 1) % 2 ^ 32) % 2 ^ 32

abbrev pub broker_address : BrokerInfo → Text
broker_address b = b.host ++ (b':' ∷ decimal b.port)

module _ (resolve : Text → Option SocketAddr) where
  -- The bootstrap servers from the i-th on.
  unfoldable pub fallback_targets : ℕ → List Text → ProxyError ⊎ List BrokerTarget
  fallback_targets i [] = inr []
  fallback_targets i (bs ∷ servers) = elim (resolve bs) [
    | none ↦ inl (unresolved bs)
    | some addr ↦ elim (fallback_targets (suc i) servers) [
      | inl e ↦ inl e
      | inr targets ↦ inr (
          record { node_id = fallback_node_id i; real_addr = addr; real_host = server_host bs }
          ∷ targets)
    ]
  ]

  unfoldable pub metadata_targets : List BrokerInfo → ProxyError ⊎ List BrokerTarget
  metadata_targets [] = inr []
  metadata_targets (b ∷ brokers) = elim (resolve (broker_address b)) [
    | none ↦ inl (unresolved (broker_address b))
    | some addr ↦ elim (metadata_targets brokers) [
      | inl e ↦ inl e
      | inr targets ↦
          inr (record { node_id = b.node_id; real_addr = addr; real_host = b.host } ∷ targets)
    ]
  ]

  unfoldable pub bootstrap_targets : List Text → List BrokerInfo → ProxyError ⊎ List BrokerTarget
  bootstrap_targets servers brokers =
      if is_empty brokers then fallback_targets 0 servers else metadata_targets brokers

-- The address a listener binds to.
unfoldable pub bind_of : Text → MappedListener → Text
bind_of listen_bind l =
    if starts_with_char b':' l.bind_addr then listen_bind ++ l.bind_addr else l.bind_addr

-- No limit at 0.
unfoldable pub max_rss_limit : ℕ → Option ℕ
max_rss_limit max_rss_bytes = if ltb 0 max_rss_bytes then some max_rss_bytes else none
