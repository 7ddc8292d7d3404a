-- ===== src/Proxy/BootstrapTests.antt =====
-- Runs and witnesses for a start without metadata and for an accept loop.
use kafka_proxy.Base.{◌⊎◌, ◌≡◌, refl, true, List, [], ◌∷◌, Option, none, some, inr, arith}
use kafka_proxy.Base.Map.{insert}
use kafka_proxy.Wire.{Bytes, get_i32, slice_from}
use kafka_proxy.Text.{
  Text, codes, split, trim, trim_start, trim_end, is_whitespace, rsplit_once, parse_unsigned,
  parse_digits,
}
use kafka_proxy.Text.Decimal.{decimal}
use kafka_proxy.Config.Sections.{default_api_config, default_ha_mode, default_log_config}
use kafka_proxy.Config.{AuthConfig, none_auth, ProxyConfig, default_pool_config, parts_of}
use kafka_proxy.Rewrite.{RewriteMap, rewrite_metadata_response}
use kafka_proxy.Rewrite.Header.{response_cid, parse_response_cid}
use kafka_proxy.Rewrite.Sample.{
  sample_protocol, one_broker, decode_sample, unpack_node, frame_cid, frame_node,
}
use kafka_proxy.Proxy.{
  SocketAddr, BrokerTarget, MappedListener, bind_and_advertise, parse_advertise, parse_bind,
  parse_mapping_entry, find_target, server_host, build_listener, build_loop, build_rewrite_map,
}
use kafka_proxy.Proxy.Bootstrap.{fallback_targets, bootstrap_targets}
use kafka_proxy.Metrics.{new as new_metrics, inc_downstream_connections, dec_downstream_connections}
use kafka_proxy.Proxy.Admission.{System}
use kafka_proxy.Proxy.Accept.{
  Turn, accepted, accept_failed, task_ended, cancelled, pooled, fresh_loop, accept_turns,
}
use kafka_proxy.Proxy.Fallback.{rewrite_metadata_response-fallback}
use kafka_proxy.Proxy.Admission.{admits, client_begins, client_ends}
use kafka_proxy.Proxy.Accept.{accept_turn}

abbrev no_auth : AuthConfig
no_auth = record {
  mechanism = none_auth;
  username = none;
  password = none;
  kerberos_principal = none;
  kerberos_keytab = none;
  kerberos_kdc = none;
  kerberos_realm = none;
  ca_file = none;
  server_name = none;
  verify = true;
}

abbrev pub config : ProxyConfig
config = record {
  bootstrap_servers = codes "k:9" ∷ [];
  proxy = record {
    advertise_host = none;
    listen_bind = codes "0";
    max_downstream_connections = 100;
    client_idle_timeout = none;
    bootstrap_server_mapping = codes "p:1" ∷ [];
  };
  upstream_auth = no_auth;
  downstream_auth = no_auth;
  pool = default_pool_config;
  api = default_api_config;
  ha = default_ha_mode;
  log = default_log_config;
}

abbrev pub lookup_host : Text → Text ⊎ List SocketAddr
lookup_host s = inr (record { ip = 2; port = 9 } ∷ [])

abbrev resolve : Text → Option SocketAddr
resolve s = some (record { ip = 2; port = 9 })

-- The only target has the node id -1.
abbrev pub target : BrokerTarget
target = record {
  node_id = 4_294_967_295;
  real_addr = record { ip = 2; port = 9 };
  real_host = codes "k";
}

pub targets_run : bootstrap_targets resolve config.bootstrap_servers [] ≡ inr (target ∷ [])
unfolding bootstrap_targets fallback_targets server_host rsplit_once
targets_run = refl

abbrev pub table : RewriteMap
table = (4_294_967_295, (codes "p", 1)) ∷ []

abbrev pub listeners : List MappedListener
listeners =
    record { node_id = 4_294_967_295; port = 1; bind_addr = b':' ∷ decimal 1; target = target } ∷ []

table_run : build_rewrite_map resolve config (target ∷ []) ≡ inr (table, listeners)
unfolding build_rewrite_map build_loop build_listener parse_mapping_entry bind_and_advertise
    parse_advertise parse_bind find_target server_host parts_of split trim trim_start trim_end
    is_whitespace rsplit_once parse_unsigned parse_digits insert
table_run = refl

-- A response that names the node 1.
abbrev raw_frame : Bytes
raw_frame = 0 ∷ 0 ∷ 0 ∷ 7 ∷ 0 ∷ 0 ∷ 0 ∷ 1 ∷ 0 ∷ 0 ∷ 35 ∷ 132 ∷ b'r' ∷ []

decoded_run :
    sample_protocol.metadata.decode_frame raw_frame 9
    ≡ some (7, record { brokers = one_broker (1, 9092, codes "r"); rest = tt })
unfolding decode_sample unpack_node get_i32 slice_from response_cid parse_response_cid frame_cid
    frame_node
decoded_run = refl

rewrite_metadata_response-fallback_example :
    rewrite_metadata_response sample_protocol 9 raw_frame table ≡ none
rewrite_metadata_response-fallback_example =
    rewrite_metadata_response-fallback resolve config (target ∷ []) table listeners sample_protocol
      9 7 raw_frame (record { brokers = one_broker (1, 9092, codes "r"); rest = tt }) (omega arith)
      targets_run table_run decoded_run (omega arith, tt)

-- With a limit of one, the second client is refused; the fourth comes after the cancellation.
abbrev turns : List Turn
turns =
    accepted 7 0 100
    ∷ accepted 8 0 110
    ∷ task_ended 7
    ∷ accept_failed
    ∷ accepted 9 0 120
    ∷ cancelled
    ∷ accepted 10 0 130
    ∷ []

abbrev after_turns : System
after_turns = (accept_turns none 1 (pooled 4) turns (fresh_loop (new_metrics true))).system

one_connected : after_turns.connected ≡ 1
unfolding accept_turns accept_turn admits client_begins client_ends new_metrics
    inc_downstream_connections dec_downstream_connections
one_connected = refl
