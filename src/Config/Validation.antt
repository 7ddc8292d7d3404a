-- ===== src/Config/Validation.antt =====
-- src/config.rs: what a configuration that passes `validate` satisfies.
use kafka_proxy.Base.{
  ℕ, ◌+◌, ◌≤◌, ◌≡◌, ◌⊎◌, inl, inr, false, List, [], ◌∷◌, Option, none, some, arith, length,
  is_empty, unwrap_or, All, Option-cases, Bool-cases,
}
use kafka_proxy.Text.{Text, trim-not_empty}
use kafka_proxy.Config.{
  ProxyConfig, parts_of, advertise_part, host_of, validate_entry, validate_entries, validate,
}

-- An entry has one to three parts, and its advertised host or the fallback is not empty.
pub record EntryIsValid (advertise_host : Option Text) (m : Text) : Type 0 where
  pub part : Text
  pub last : advertise_part (parts_of m) ≡ some part
  pub host : (is_empty (host_of part) ≡ false) ⊎ (is_empty (unwrap_or advertise_host []) ≡ false)

validate_entry-EntryIsValid :
    (advertise_host : Option Text) (i : ℕ) (m : Text)
    → validate_entry advertise_host i m ≡ none
    → EntryIsValid advertise_host m
unfolding validate_entry
validate_entry-EntryIsValid advertise_host i m h =
    elim (Option-cases (advertise_part (parts_of m))) [
      | inl e ↦ ground arith
      | inr (part, e) ↦ record {
        part = part;
        last = e;
        host = elim (Bool-cases (is_empty (host_of part))) [
          | inl q ↦ inr (trim-not_empty (unwrap_or advertise_host []) (ground arith))
          | inr q ↦ inl q
        ];
      }
    ]

validate_entries-All :
    (advertise_host : Option Text) (i : ℕ) (ms : List Text)
    → validate_entries advertise_host i ms ≡ none
    → All (EntryIsValid advertise_host) ms
unfolding validate_entries
validate_entries-All advertise_host i [] h = tt
validate_entries-All advertise_host i (m ∷ ms) h =
    elim (Option-cases (validate_entry advertise_host i m)) [
      | inl e ↦ (
        validate_entry-EntryIsValid advertise_host i m e,
        validate_entries-All advertise_host (i + 1) ms (ground arith),
      )
      | inr (e, q) ↦ ground arith
    ]

-- A configuration that passes has a bootstrap server, one mapping entry for each, no more idle
-- connections than the pool allows, and every entry has one to three parts and a host to advertise,
-- its own or the fallback.
pub validate-valid :
    (c : ProxyConfig)
    → validate c ≡ none
    → (1 ≤ length c.bootstrap_servers)
      × (length c.proxy.bootstrap_server_mapping ≡ length c.bootstrap_servers)
      × (c.pool.min_idle ≤ c.pool.max_per_broker)
      × All (EntryIsValid c.proxy.advertise_host) c.proxy.bootstrap_server_mapping
unfolding validate
validate-valid c h = (
  ground arith,
  ground arith,
  ground arith,
  validate_entries-All c.proxy.advertise_host 0 c.proxy.bootstrap_server_mapping (ground arith),
)
