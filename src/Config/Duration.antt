-- ===== src/Config/Duration.antt =====
-- src/config.rs: `parse_duration_str`. A duration is a number of microseconds.
pub mod Units
use kafka_proxy.Base.{
  ℕ, ◌-◌, ◌*◌, ◌%◌, ◌^◌, ◌≡◌, true, [], ◌∷◌, ◌++◌, Option, none, some, arith, All,
}
use kafka_proxy.Text.{Text, trim, trim_end, strip_suffix, parse_unsigned, is_digit}

abbrev pub u64_max : ℕ
u64_max = 2 ^ 64 - 1

abbrev pub scaled : ℕ → Option ℕ → Option ℕ
scaled micros none = none
scaled micros (some n) = some (n * micros)

-- `Duration::from_secs(n * mul)`: the product of two u64 wraps, as in a release build.
abbrev pub seconds : ℕ → Option ℕ → Option ℕ
seconds mul none = none
seconds mul (some n) = some (n * mul % 2 ^ 64 * 1_000_000)

-- The suffixes of one letter, in the order in which they are tried.
unfoldable pub parse_seconds : Text → Option ℕ
parse_seconds s = elim (strip_suffix (b's' ∷ []) s) [
  | some n ↦ seconds 1 (parse_unsigned u64_max n)
  | none ↦ elim (strip_suffix (b'm' ∷ []) s) [
    | some n ↦ seconds 60 (parse_unsigned u64_max n)
    | none ↦ elim (strip_suffix (b'h' ∷ []) s) [
      | some n ↦ seconds 3600 (parse_unsigned u64_max n)
      | none ↦ scaled 1_000_000 (parse_unsigned u64_max s)
    ]
  ]
]

unfoldable pub parse_duration_str : Text → Option ℕ
unfolding parse_seconds
parse_duration_str text =
    let s = trim text in
    elim (strip_suffix (b'm' ∷ b's' ∷ []) s) [
      | some n ↦ scaled 1000 (parse_unsigned u64_max n)
      | none ↦ elim (strip_suffix (b'u' ∷ b's' ∷ []) s) [
        | some n ↦ scaled 1 (parse_unsigned u64_max n)
        | none ↦ parse_seconds s
      ]
    ]
