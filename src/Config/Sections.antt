-- ===== src/Config/Sections.antt =====
-- src/config.rs: the sections [api], [ha] and [log], with their defaults. A missing section is
-- `Default::default()`; a missing field of a section that is there has a default of its own.
use kafka_proxy.Base.{ℕ, Bool, false, [], Option, none, unwrap_or}
use kafka_proxy.Text.{Text, codes}

pub record ApiConfig : Type 0 where
  pub listen : Text
  pub default_count : ℕ
  pub metrics_enabled : Bool

abbrev pub default_api_listen : Text
default_api_listen = codes "127.0.0.1:9100"

abbrev pub default_debug_count : ℕ
default_debug_count = 5

abbrev pub default_api_config : ApiConfig
default_api_config = record {
  listen = default_api_listen;
  default_count = default_debug_count;
  metrics_enabled = false;
}

pub data HaMode : Type 0 where
  stateless_replicas dns_round_robin : HaMode

abbrev pub default_ha_mode : HaMode
default_ha_mode = stateless_replicas

-- `Display` of a mode.
unfoldable pub show_ha_mode : HaMode → Text
show_ha_mode stateless_replicas = codes "stateless-replicas"
show_ha_mode dns_round_robin = codes "dns-round-robin"

pub record LogConfig : Type 0 where
  pub log_dir : Option Text
  pub level : Text
  pub max_files : ℕ

-- The derived `Default`: the section is missing.
abbrev pub default_log_config : LogConfig
default_log_config = record { log_dir = none; level = []; max_files = 0 }

abbrev pub default_log_level : Text
default_log_level = codes "info"

abbrev pub default_max_log_files : ℕ
default_max_log_files = 7

-- The fields that a section may leave out, and what the section is then.
unfoldable pub read_log_section : Option Text → Option Text → Option ℕ → LogConfig
read_log_section log_dir level max_files = record {
  log_dir = log_dir;
  level = unwrap_or level default_log_level;
  max_files = unwrap_or max_files default_max_log_files;
}

unfoldable pub read_api_section : Option Text → Option ℕ → Option Bool → ApiConfig
read_api_section listen default_count metrics_enabled = record {
  listen = unwrap_or listen default_api_listen;
  default_count = unwrap_or default_count default_debug_count;
  metrics_enabled = unwrap_or metrics_enabled false;
}

-- `#[serde(default)]` of a section.
unfoldable pub log_section : Option LogConfig → LogConfig
log_section section = unwrap_or section default_log_config

unfoldable pub api_section : Option ApiConfig → ApiConfig
api_section section = unwrap_or section default_api_config
