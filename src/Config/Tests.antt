-- ===== src/Config/Tests.antt =====
-- Runs and witnesses for the configuration.
use kafka_proxy.Base.{◌≡◌, refl, true, List, [], ◌∷◌, none, some}
use kafka_proxy.Text.{
  Text, split, trim, trim_start, trim_end, is_whitespace, rsplit_once, strip_suffix, parse_unsigned,
  parse_digits,
}
use kafka_proxy.Config.Sections.{default_api_config, default_ha_mode, default_log_config}
use kafka_proxy.Config.{
  AuthConfig, none_auth, ProxyConfig, no_advertise_host, default_pool_config, parts_of,
  advertise_part, host_of, validate_entry, validate_entries, validate,
}
use kafka_proxy.Config.Duration.{parse_duration_str, parse_seconds}

abbrev no_auth : AuthConfig
no_auth = record {
  mechanism = none_auth;
  username = none;
  password = none;
  kerberos_principal = none;
  kerberos_keytab = none;
  kerberos_kdc = none;
  kerberos_realm = none;
  ca_file = none;
  server_name = none;
  verify = true;
}

abbrev one_server : List Text → ProxyConfig
one_server mapping = record {
  bootstrap_servers = (b'k' ∷ b':' ∷ b'9' ∷ []) ∷ [];
  proxy = record {
    advertise_host = none;
    listen_bind = b'0' ∷ [];
    max_downstream_connections = 100;
    client_idle_timeout = none;
    bootstrap_server_mapping = mapping;
  };
  upstream_auth = no_auth;
  downstream_auth = no_auth;
  pool = default_pool_config;
  api = default_api_config;
  ha = default_ha_mode;
  log = default_log_config;
}

-- "p:1" names a host to advertise; ":1" does not.
abbrev good : ProxyConfig
good = one_server ((b'p' ∷ b':' ∷ b'1' ∷ []) ∷ [])

good_run : validate good ≡ none
unfolding validate validate_entries validate_entry parts_of advertise_part host_of split trim
    trim_start trim_end is_whitespace rsplit_once
good_run = refl

bad_run :
    validate (one_server ((b':' ∷ b'1' ∷ []) ∷ [])) ≡ some (no_advertise_host 0 (b':' ∷ b'1' ∷ []))
unfolding validate validate_entries validate_entry parts_of advertise_part host_of split trim
    trim_start trim_end is_whitespace rsplit_once
bad_run = refl

-- " 5ms", "2m" and "7".
durations_run :
    (parse_duration_str (b' ' ∷ b'5' ∷ b'm' ∷ b's' ∷ []) ≡ some 5_000)
    × (parse_duration_str (b'2' ∷ b'm' ∷ []) ≡ some 120_000_000)
    × (parse_duration_str (b'7' ∷ []) ≡ some 7_000_000)
unfolding parse_duration_str parse_seconds trim trim_start trim_end is_whitespace strip_suffix
    parse_unsigned parse_digits
durations_run = (refl, refl, refl)
