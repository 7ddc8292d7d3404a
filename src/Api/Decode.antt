-- ===== src/Api/Decode.antt =====
-- src/api.rs: that the JSON object which `record_to_json` makes of a message can be read back.
use kafka_proxy.Base.{◌≡◌, true, false, ◌⊎◌, List, [], ◌∷◌, ◌++◌, Option, none, some}
use kafka_proxy.Wire.{Bytes}
use kafka_proxy.Text.{Text, codes}
use kafka_proxy.Api.Render.{
  Header, ConsumerRecord, HeaderEntry, Message, AllBytes, is_utf8, read_hex,
}

-- The text stands for the bytes: it is the bytes, which are valid UTF-8, or behind "0x" it has digits
-- that are read as the bytes, which are not.
abbrev pub StandsFor : Text → Bytes → Type 0
StandsFor text b =
    ((is_utf8 b ≡ true) × (text ≡ b))
    ⊎ ((is_utf8 b ≡ false)
        × ((digits : Text) × (text ≡ codes "0x" ++ digits) × (read_hex digits ≡ some b)))

abbrev pub KeyStandsFor : Option Text → Option Bytes → Type 0
KeyStandsFor none none = Unit {0}
KeyStandsFor (some text) (some b) = StandsFor text b
KeyStandsFor _ _ = ⊥

-- The entries name the headers in their order, each with its value.
abbrev pub HeadersStandFor : List HeaderEntry → List Header → Type 0
HeadersStandFor [] [] = Unit {0}
HeadersStandFor (entry ∷ entries) (h ∷ hs) =
    (entry.key ≡ h.key) × StandsFor entry.value h.value × HeadersStandFor entries hs
HeadersStandFor _ _ = ⊥

pub record Shows (m : Message) (r : ConsumerRecord) : Type 0 where
  pub partition : m.partition ≡ r.partition
  pub offset : m.offset ≡ r.offset
  pub timestamp : m.timestamp ≡ r.timestamp
  pub key : KeyStandsFor m.key r.key
  pub value : StandsFor m.value r.value
  pub headers : HeadersStandFor m.headers r.headers

abbrev pub KeyBytes : Option Bytes → Type 0
KeyBytes none = Unit {0}
KeyBytes (some b) = AllBytes b
