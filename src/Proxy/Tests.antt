-- ===== src/Proxy/Tests.antt =====
-- Runs and witnesses for src/lib.rs.
use kafka_proxy.Base.{
  ◌+◌, ◌<◌, ◌≡◌, refl, true, List, [], ◌∷◌, ◌++◌, Option, none, some, inr, arith, length, All,
  is_empty, if◌then◌else◌,
}
use kafka_proxy.Metrics.{new as new_metrics}
use kafka_proxy.Text.{
  Text, split, trim, trim_start, trim_end, is_whitespace, rsplit_once, parse_unsigned, parse_digits,
}
use kafka_proxy.Text.Decimal.{decimal}
use kafka_proxy.Config.Sections.{default_api_config, default_ha_mode, default_log_config}
use kafka_proxy.Config.{
  AuthConfig, none_auth, ProxyConfig, default_pool_config, parts_of, advertise_part, host_of,
  validate_entry, validate_entries, validate,
}
use kafka_proxy.Rewrite.{RewriteMap}
use kafka_proxy.Base.Map.{insert}
use kafka_proxy.Proxy.{
  SocketAddr, BrokerTarget, MappedListener, bind_and_advertise, parse_advertise, parse_bind,
  parse_mapping_entry, find_target, server_host, build_listener, build_loop, build_rewrite_map,
}
use kafka_proxy.Proxy.Mapping.{address, parse_mapping_entry-address}
use kafka_proxy.Proxy.Listeners.{IsListed, build_rewrite_map-validate}
use kafka_proxy.Proxy.Admission.{System, Step, Reach, admits, Reach-connected}

abbrev no_auth : AuthConfig
no_auth = record {
  mechanism = none_auth;
  username = none;
  password = none;
  kerberos_principal = none;
  kerberos_keytab = none;
  kerberos_kdc = none;
  kerberos_realm = none;
  ca_file = none;
  server_name = none;
  verify = true;
}

-- The server "k:9" behind the entry "p:1".
abbrev config : ProxyConfig
config = record {
  bootstrap_servers = (b'k' ∷ b':' ∷ b'9' ∷ []) ∷ [];
  proxy = record {
    advertise_host = none;
    listen_bind = b'0' ∷ [];
    max_downstream_connections = 100;
    client_idle_timeout = none;
    bootstrap_server_mapping = (b'p' ∷ b':' ∷ b'1' ∷ []) ∷ [];
  };
  upstream_auth = no_auth;
  downstream_auth = no_auth;
  pool = default_pool_config;
  api = default_api_config;
  ha = default_ha_mode;
  log = default_log_config;
}

abbrev broker : BrokerTarget
broker = record { node_id = 4; real_addr = record { ip = 1; port = 9 }; real_host = b'k' ∷ [] }

abbrev resolve : Text → Option SocketAddr
resolve s = some (record { ip = 2; port = 9 })

config_valid : validate config ≡ none
unfolding validate validate_entries validate_entry parts_of advertise_part host_of split trim
    trim_start trim_end is_whitespace rsplit_once
config_valid = refl

-- The target is found by its host name, though the address is another.
abbrev table : RewriteMap
table = (4, (b'p' ∷ [], 1)) ∷ []

abbrev listeners : List MappedListener
listeners = record { node_id = 4; port = 1; bind_addr = b':' ∷ decimal 1; target = broker } ∷ []

config_built : build_rewrite_map resolve config (broker ∷ []) ≡ inr (table, listeners)
unfolding build_rewrite_map build_loop build_listener parse_mapping_entry bind_and_advertise
    parse_advertise parse_bind find_target server_host parts_of split trim trim_start trim_end
    is_whitespace rsplit_once parse_unsigned parse_digits insert
config_built = refl

build_rewrite_map-validate_example :
    (length listeners ≡ length config.bootstrap_servers) × All (IsListed table) listeners
build_rewrite_map-validate_example =
    build_rewrite_map-validate resolve config (broker ∷ []) table listeners config_valid
      config_built

abbrev p : Text
p = b'p' ∷ []

-- "k", "b:80" and "p:9092".
parse_mapping_entry-address_example :
    (parse_mapping_entry (address p 9092) []
      ≡ inr (b':' ∷ decimal 9092, if is_empty p then [] else p, 9092))
    × (parse_mapping_entry (address (b'b' ∷ []) 80 ++ (b',' ∷ address p 9092)) []
        ≡ inr (address (b'b' ∷ []) 80, if is_empty p then [] else p, 9092))
    × (parse_mapping_entry
          ((b'k' ∷ []) ++ (b',' ∷ (address (b'b' ∷ []) 80 ++ (b',' ∷ address p 9092))))
          []
        ≡ inr (address (b'b' ∷ []) 80, if is_empty p then [] else p, 9092))
parse_mapping_entry-address_example =
    parse_mapping_entry-address (b'k' ∷ []) (b'b' ∷ []) p [] 80 9092
      ((refl, tt), (unfold is_whitespace in (refl, tt)))
      ((refl, tt), (unfold is_whitespace in (refl, tt)))
      ((refl, tt), (unfold is_whitespace in (refl, tt))) (omega arith) (omega arith)

-- Two loops admit a client each while none is counted, with a limit of one.
abbrev s0 : System
s0 = record { metrics = new_metrics true; conn_tracker = []; admitting = 0; connected = 0 }

abbrev s1 : System
s1 = record s0 { admitting = 1 }

abbrev s2 : System
s2 = record s0 { admitting = 2 }

both_admitted : Reach 2 none 1 s0 s2
unfolding admits new_metrics
both_admitted =
    let r1 : Reach 2 none 1 s0 s1 = Reach.next Reach.here (Step.admit 0 (omega arith) refl) in
    Reach.next r1 (Step.admit 0 (omega arith) refl)

Reach-connected_example :
    (s2.metrics.downstream_connections ≡ s2.connected) × (s2.connected < 1 + 2)
Reach-connected_example =
    Reach-connected {t = s2} 2 none 1 (new_metrics true) (omega arith) (omega arith)
      (unfold new_metrics in refl) both_admitted
