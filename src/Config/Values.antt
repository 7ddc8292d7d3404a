-- ===== src/Config/Values.antt =====
-- src/config.rs: loading, the visitors that read a duration, and the names of the mechanisms. The TOML
-- reader is an argument.
use kafka_proxy.Base.{
  ℕ, ◌*◌, ◌^◌, List, [], ◌∷◌, ◌++◌, Bool, true, false, Option, none, some, ◌⊎◌, inl, inr, ltb,
  if◌then◌else◌,
}
use kafka_proxy.Text.{Text, codes}
use kafka_proxy.Config.{
  ProxyConfig, Invalid, validate, AuthMechanism, none_auth, plain, scram_sha256, scram_sha512,
  gssapi, mtls,
}
use kafka_proxy.Config.Duration.{parse_duration_str}

-- What a deserializer hands to a visitor; an i64 is its bit pattern.
pub data Value : Type 0 where
  str : Text → Value
  i64 : ℕ → Value
  u64 : ℕ → Value
  null unit : Value
  another : Value

-- `Duration::from_secs(v.max(0) as u64)`, in microseconds
abbrev pub seconds_of_i64 : ℕ → ℕ
seconds_of_i64 v = if ltb v (2 ^ 63) then v * 1_000_000 else 0

-- `none` is a type error, or that of `parse_duration_str`.
unfoldable pub deserialize_duration : Value → Option ℕ
deserialize_duration (str text) = parse_duration_str text
deserialize_duration (i64 v) = some (seconds_of_i64 v)
deserialize_duration (u64 v) = some (v * 1_000_000)
deserialize_duration null = none
deserialize_duration unit = none
deserialize_duration another = none

abbrev some_some : Option ℕ → Option (Option ℕ)
some_some none = none
some_some (some d) = some (some d)

unfoldable pub deserialize_optional_duration : Value → Option (Option ℕ)
deserialize_optional_duration null = some none
deserialize_optional_duration unit = some none
deserialize_optional_duration (str text) = some_some (parse_duration_str text)
deserialize_optional_duration (i64 v) = some (some (seconds_of_i64 v))
deserialize_optional_duration (u64 v) = some (some (v * 1_000_000))
deserialize_optional_duration another = none

pub data ConfigError : Type 0 where
  read parse : Text → ConfigError
  invalid : Invalid → ConfigError
  resolve_failed : Text → ConfigError
  no_address : Text → ConfigError

-- `parse_toml` is `toml::from_str`.
unfoldable pub from_str : (Text → Text ⊎ ProxyConfig) → Text → ConfigError ⊎ ProxyConfig
from_str parse_toml text = elim (parse_toml text) [
  | inl e ↦ inl (parse e)
  | inr c ↦ elim (validate c) [ none ↦ inr c | some e ↦ inl (invalid e) ]
]

-- `file` is what reading the path gives.
unfoldable pub load : (Text → Text ⊎ ProxyConfig) → Text ⊎ Text → ConfigError ⊎ ProxyConfig
unfolding from_str
load parse_toml (inl e) = inl (read e)
load parse_toml (inr text) = from_str parse_toml text

unfoldable pub is_gssapi : AuthMechanism → Bool
is_gssapi gssapi = true
is_gssapi _ = false

-- `Display` of a mechanism.
unfoldable pub show_mechanism : AuthMechanism → Text
show_mechanism none_auth = codes "none"
show_mechanism plain = codes "plain"
show_mechanism scram_sha256 = codes "scram-sha256"
show_mechanism scram_sha512 = codes "scram-sha512"
show_mechanism gssapi = codes "gssapi"
show_mechanism mtls = codes "mtls"

-- The first of the addresses that `lookup_host` gives, or an error with the name.
unfoldable pub parse_addr : {A : Type 0} → (Text → Text ⊎ List A) → Text → ConfigError ⊎ A
parse_addr lookup_host s = elim (lookup_host s) [
  | inl e ↦ inl (resolve_failed (s ++ (codes ": " ++ e)))
  | inr addrs ↦ elim addrs [ [] ↦ inl (no_address s) | a ∷ rest ↦ inr a ]
]
