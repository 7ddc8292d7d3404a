-- ===== src/Main/LogFormat.antt =====
-- src/main.rs: `format_event` of `LocationFormat`. The text of the time and of the fields are up to
-- tracing, and may depend on whether the writer takes escapes.
use kafka_proxy.Base.{ℕ, Bool, true, false, [], ◌∷◌, ◌++◌, Option, none, some, unwrap_or}
use kafka_proxy.Text.{Text, codes}
use kafka_proxy.Text.Decimal.{decimal}

pub data Level : Type 0 where
  trace debug info warn error : Level

pub record LogEvent : Type 0 where
  pub level : Level
  pub target : Text
  pub file : Option Text
  pub line : Option ℕ
  pub time : Text
  pub fields : Bool → Text

abbrev pub level_text : Level → Text
level_text trace = codes "TRACE"
level_text debug = codes "DEBUG"
level_text info = codes " INFO"
level_text warn = codes " WARN"
level_text error = codes "ERROR"

abbrev pub level_code : Level → Text
level_code trace = codes "35"
level_code debug = codes "34"
level_code info = codes "32"
level_code warn = codes "33"
level_code error = codes "31"

-- `target:file:line`
unfoldable pub location : LogEvent → Text
location e =
    let file = unwrap_or e.file e.target in
    elim e.line [
      | some line ↦ e.target ++ (b':' ∷ (file ++ (b':' ∷ decimal line)))
      | none ↦ e.target ++ (b':' ∷ file)
    ]

-- An escape sequence that selects a rendition.
abbrev pub escape : Text → Text
escape code = 27 ∷ b'[' ∷ (code ++ (b'm' ∷ []))

abbrev pub level_part : Bool → LogEvent → Text
level_part true e = escape (level_code e.level) ++ (level_text e.level ++ escape (codes "0"))
level_part false e = level_text e.level

abbrev pub location_part : Bool → LogEvent → Text
location_part true e =
    b' '
    ∷ (escape (codes "2") ++ (b'<' ∷ (location e ++ (b'>' ∷ (escape (codes "0") ++ codes " ")))))
location_part false e = codes " <" ++ (location e ++ codes "> ")

unfoldable pub format_event : Bool → LogEvent → Text
unfolding location
format_event ansi e =
    e.time
    ++ (b' ' ∷ (level_part ansi e ++ (location_part ansi e ++ (e.fields ansi ++ codes "\n"))))
