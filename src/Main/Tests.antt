-- ===== src/Main/Tests.antt =====
-- Runs and witnesses for src/main.rs.
use kafka_proxy.Base.{
  ◌≡◌, refl, true, false, [], ◌∷◌, Option, none, some, inr, if◌then◌else◌, arith,
}
use kafka_proxy.Text.{codes, rsplit_once, split, trim, trim_start, trim_end, is_whitespace}
use kafka_proxy.Config.{
  AuthConfig, none_auth, ProxyConfig, default_pool_config, validate, validate_entries,
  validate_entry, parts_of, advertise_part, host_of,
}
use kafka_proxy.Config.Sections.{default_api_config, default_ha_mode}
use kafka_proxy.Config.Values.{load, from_str}
use kafka_proxy.Main.Paths.{is_absolute, parent, join}
use kafka_proxy.Main.LogFormat.{LogEvent, warn}
use kafka_proxy.Main.Escapes.{shown, IsPlainEvent}
use kafka_proxy.Main.{
  Subscriber, Tracing, SetsOnce, Environment, resolved_dir, finished, main, main_logged,
  main-first_subscriber, cancelled_after, hangup, terminate,
}

relative_run :
    resolved_dir (codes "/etc/kafka/config.toml") (codes "logs") ≡ codes "/etc/kafka/logs"
unfolding resolved_dir is_absolute parent join rsplit_once
relative_run = refl

beside_run : resolved_dir (codes "config.toml") (codes "logs") ≡ codes "logs"
unfolding resolved_dir is_absolute parent join rsplit_once
beside_run = refl

signals_run : cancelled_after (hangup ∷ terminate ∷ []) ≡ true
unfolding cancelled_after
signals_run = refl

-- A global subscriber that is set once.
abbrev cell : Tracing
cell = record {
  State = Option Subscriber;
  global = λ st. st;
  init = λ s st. elim st [ none ↦ some (some s) | some a ↦ none ];
  set_global_default = λ s st. elim st [ none ↦ (true, some s) | some a ↦ (false, some a) ];
}

cell-SetsOnce : SetsOnce cell
cell-SetsOnce = record {
  global-init = λ s st fresh. (some s, rw fresh refl, refl);
  global-set_global_default = λ a b st set. rw set refl;
}

abbrev no_auth : AuthConfig
no_auth = record {
  mechanism = none_auth;
  username = none;
  password = none;
  kerberos_principal = none;
  kerberos_keytab = none;
  kerberos_kdc = none;
  kerberos_realm = none;
  ca_file = none;
  server_name = none;
  verify = true;
}

-- A configuration that asks for a log file at the level "debug".
abbrev config : ProxyConfig
config = record {
  bootstrap_servers = codes "k:9" ∷ [];
  proxy = record {
    advertise_host = none;
    listen_bind = codes "0";
    max_downstream_connections = 100;
    client_idle_timeout = none;
    bootstrap_server_mapping = codes "p:1" ∷ [];
  };
  upstream_auth = no_auth;
  downstream_auth = no_auth;
  pool = default_pool_config;
  api = default_api_config;
  ha = default_ha_mode;
  log = record { log_dir = some (codes "/var/log"); level = codes "debug"; max_files = 7 };
}

abbrev environment : Environment
environment = record {
  rust_log = none;
  read_file = λ path. inr [];
  parse_toml = λ text. inr config;
  create_dir_all = λ dir. true;
  run = λ c. none;
}

main_run : (main cell environment (codes "config.toml") none).0 ≡ finished
unfolding main main_logged load from_str validate validate_entries validate_entry parts_of
    advertise_part host_of split trim trim_start trim_end is_whitespace rsplit_once
main_run = refl

main-first_subscriber_example :
    (main cell environment (codes "config.toml") none).1
    ≡ some (record { filter = codes "info"; log_dir = none })
main-first_subscriber_example =
    main-first_subscriber cell cell-SetsOnce environment (codes "config.toml") none refl

abbrev event : LogEvent
event = record {
  level = warn;
  target = codes "kafka_proxy";
  file = some (codes "src/lib.rs");
  line = some 7;
  time = codes "12:00";
  fields = λ ansi. if ansi then 27 ∷ codes "[1mlate" else codes "late";
}

event_plain : IsPlainEvent event
unfolding shown
event_plain = record {
  time = ground arith;
  target = ground arith;
  file = ground arith;
  fields = λ rest. refl;
}
