-- ===== src/Config.antt =====
-- src/config.rs: the configuration and its validation. The TOML reader fills the records; of the
-- sections only what the proxy's code reads is a field.
pub mod Sections
pub mod Duration
pub mod Validation
pub mod Values
mod Tests
use kafka_proxy.Base.{
  ℕ, zero, suc, ◌+◌, ◌-◌, ◌≤◌, Bool, true, false, not, ◌&&◌, ◌||◌, List, [], ◌∷◌, map, Option, none,
  some, ◌==◌, leb, ltb, length, is_empty, if◌then◌else◌, unwrap_or,
}
use kafka_proxy.Text.{Text, trim, split, rsplit_once}
use kafka_proxy.Config.Sections.{ApiConfig, HaMode, LogConfig}

pub data AuthMechanism : Type 0 where
  none_auth plain scram_sha256 scram_sha512 gssapi mtls : AuthMechanism

pub record AuthConfig : Type 0 where
  pub mechanism : AuthMechanism
  pub username : Option Text
  pub password : Option Text
  pub kerberos_principal : Option Text
  pub kerberos_keytab : Option Text
  pub kerberos_kdc : Option Text
  pub kerberos_realm : Option Text
  pub ca_file : Option Text
  pub server_name : Option Text
  pub verify : Bool

pub data PoolMode : Type 0 where
  pooled per_connection : PoolMode

-- Durations in microseconds.
pub record PoolConfig : Type 0 where
  pub mode : PoolMode
  pub max_per_broker : ℕ
  pub min_idle : ℕ
  pub idle_timeout : ℕ
  pub acquire_timeout : ℕ
  pub health_check : ℕ
  pub max_in_flight : ℕ
  pub max_rss_bytes : ℕ

abbrev pub default_pool_config : PoolConfig
default_pool_config = record {
  mode = pooled;
  max_per_broker = 16;
  min_idle = 2;
  idle_timeout = 300_000_000;
  acquire_timeout = 5_000_000;
  health_check = 30_000_000;
  max_in_flight = 100_000;
  max_rss_bytes = 0;
}

pub record ProxySection : Type 0 where
  pub advertise_host : Option Text
  pub listen_bind : Text
  pub max_downstream_connections : ℕ
  pub client_idle_timeout : Option ℕ
  pub bootstrap_server_mapping : List Text

pub record ProxyConfig : Type 0 where
  pub bootstrap_servers : List Text
  pub proxy : ProxySection
  pub upstream_auth : AuthConfig
  pub downstream_auth : AuthConfig
  pub pool : PoolConfig
  pub api : ApiConfig
  pub ha : HaMode
  pub log : LogConfig

-- The reasons of `ConfigError::Invalid`, with what their messages show.
pub data Invalid : Type 0 where
  no_servers no_mapping : Invalid
  length_mismatch : ℕ → ℕ → Invalid
  min_idle_above_max : ℕ → ℕ → Invalid
  bad_format : ℕ → Text → Invalid
  no_advertise_host : ℕ → Text → Invalid

-- `m.split(',').map(|s| s.trim())`
unfoldable pub parts_of : Text → List Text
parts_of m = map trim (split b',' m)

-- The last of one to three parts.
unfoldable pub advertise_part : List Text → Option Text
advertise_part (a ∷ []) = some a
advertise_part (b ∷ a ∷ []) = some a
advertise_part (o ∷ b ∷ a ∷ []) = some a
advertise_part _ = none

unfoldable pub host_of : Text → Text
host_of part = elim (rsplit_once b':' part) [ none ↦ [] | some (h, _) ↦ h ]

-- One entry, the `i`th: `none` if nothing is wrong.
unfoldable pub validate_entry : Option Text → ℕ → Text → Option Invalid
unfolding parts_of advertise_part host_of
validate_entry advertise_host i m = elim (advertise_part (parts_of m)) [
  | none ↦ some (bad_format i m)
  | some part ↦
      if is_empty (host_of part) && is_empty (trim (unwrap_or advertise_host []))
      then some (no_advertise_host i m)
      else none
]

unfoldable pub validate_entries : Option Text → ℕ → List Text → Option Invalid
validate_entries advertise_host i [] = none
validate_entries advertise_host i (m ∷ ms) =
    let rest = validate_entries advertise_host (i + 1) ms in
    elim (validate_entry advertise_host i m) [ some e ↦ some e | none ↦ rest ]

unfoldable pub validate : ProxyConfig → Option Invalid
validate c =
    if is_empty c.bootstrap_servers
    then some no_servers
    else if is_empty c.proxy.bootstrap_server_mapping
    then some no_mapping
    else if not (length c.proxy.bootstrap_server_mapping == length c.bootstrap_servers)
    then some
        (length_mismatch (length c.proxy.bootstrap_server_mapping) (length c.bootstrap_servers))
    else if ltb c.pool.max_per_broker c.pool.min_idle
    then some (min_idle_above_max c.pool.min_idle c.pool.max_per_broker)
    else validate_entries c.proxy.advertise_host 0 c.proxy.bootstrap_server_mapping
