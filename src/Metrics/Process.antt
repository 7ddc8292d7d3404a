-- ===== src/Metrics/Process.antt =====
-- src/metrics.rs: `process_rss_bytes` on Linux, and `page_size_kb`. What the file /proc/self/statm and
-- the command getconf give are arguments; a product wraps as it does in a release build.
use kafka_proxy.Base.{
  ℕ, ◌*◌, ◌-◌, ◌/◌, ◌%◌, List, [], ◌∷◌, Option, none, some, if◌then◌else◌, is_empty,
}
use kafka_proxy.Text.{Text, is_whitespace, trim, onto_first, parse_unsigned}
use kafka_proxy.Metrics.{word64}

-- The pieces between blanks, some of them empty.
abbrev split_blanks : Text → List Text
split_blanks [] = [] ∷ []
split_blanks (c ∷ s) =
    let rest = split_blanks s in if is_whitespace c then [] ∷ rest else onto_first c rest

abbrev without_empty : List Text → List Text
without_empty [] = []
without_empty (t ∷ ts) = if is_empty t then without_empty ts else t ∷ without_empty ts

-- `str::split_whitespace`
unfoldable pub split_whitespace : Text → List Text
unfolding is_whitespace
split_whitespace s = without_empty (split_blanks s)

abbrev pub u64_max : ℕ
u64_max = word64 - 1

-- The output of getconf, if it ran and is UTF-8.
unfoldable pub page_size_kb : Option Text → ℕ
page_size_kb none = 4
page_size_kb (some output) = elim (parse_unsigned u64_max (trim output)) [
  | none ↦ 4
  | some b ↦ b / 1024
]

abbrev second_field : List Text → Option Text
second_field (a ∷ b ∷ rest) = some b
second_field _ = none

unfoldable pub process_rss_bytes : Option Text → ℕ → ℕ
unfolding split_whitespace
process_rss_bytes none page_kb = 0
process_rss_bytes (some statm) page_kb = elim (second_field (split_whitespace statm)) [
  | none ↦ 0
  | some field ↦ elim (parse_unsigned u64_max field) [
    | none ↦ 0
    | some pages ↦ pages * page_kb * 1024 % word64
  ]
]
