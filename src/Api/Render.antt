-- ===== src/Api/Render.antt =====
-- src/api.rs: `bytes_to_text` and `record_to_json`. A string is its UTF-8 bytes.
use kafka_proxy.Base.{
  ℕ, ◌+◌, ◌-◌, ◌*◌, ◌/◌, ◌%◌, ◌<◌, ◌≡◌, refl, Bool, false, ◌&&◌, List, [], ◌∷◌, ◌++◌, map, Option,
  none, some, arith, leb, ltb, ◌==◌, if◌then◌else◌, All,
}
use kafka_proxy.Wire.{Bytes}
use kafka_proxy.Text.{Text, codes}

-- A byte of UTF-8 by what is expected: the continuation bytes to come, and the range of the next.
pub record Expected : Type 0 where
  pub more : ℕ
  pub low : ℕ
  pub high : ℕ

abbrev pub lead : ℕ → Option Expected
lead b =
    if ltb b 0x80
    then some (record { more = 0; low = 0; high = 0 })
    else if leb 0xc2 b && leb b 0xdf
    then some (record { more = 1; low = 0x80; high = 0xbf })
    else if b == 0xe0
    then some (record { more = 2; low = 0xa0; high = 0xbf })
    else if b == 0xed
    then some (record { more = 2; low = 0x80; high = 0x9f })
    else if leb 0xe1 b && leb b 0xef
    then some (record { more = 2; low = 0x80; high = 0xbf })
    else if b == 0xf0
    then some (record { more = 3; low = 0x90; high = 0xbf })
    else if leb 0xf1 b && leb b 0xf3
    then some (record { more = 3; low = 0x80; high = 0xbf })
    else if b == 0xf4
    then some (record { more = 3; low = 0x80; high = 0x8f })
    else none

abbrev pub next_byte : Expected → ℕ → Option Expected
next_byte e b =
    if e.more == 0
    then lead b
    else if leb e.low b && leb b e.high
    then some (record { more = e.more - 1; low = 0x80; high = 0xbf })
    else none

unfoldable pub utf8_from : Expected → Bytes → Bool
utf8_from e [] = e.more == 0
utf8_from e (b ∷ bs) = elim (next_byte e b) [ none ↦ false | some e' ↦ utf8_from e' bs ]

abbrev pub start : Expected
start = record { more = 0; low = 0; high = 0 }

-- `std::str::from_utf8(&b)` is `Ok`.
abbrev pub is_utf8 : Bytes → Bool
unfolding utf8_from
is_utf8 b = utf8_from start b

abbrev pub hex_digit : ℕ → ℕ
hex_digit n = if ltb n 10 then 48 + n else 87 + n

-- `format!("{byte:02x}")` of each byte.
unfoldable pub hex : Bytes → Text
hex [] = []
hex (b ∷ bs) = hex_digit (b / 16) ∷ hex_digit (b % 16) ∷ hex bs

unfoldable pub bytes_to_text : Bytes → Text
unfolding hex utf8_from
bytes_to_text b = if utf8_from start b then b else codes "0x" ++ hex b

-- kafka_client's record, and its JSON object.
pub record Header : Type 0 where
  pub key : Text
  pub value : Bytes

pub record ConsumerRecord : Type 0 where
  pub partition : ℕ
  pub offset : ℕ
  pub timestamp : ℕ
  pub key : Option Bytes
  pub value : Bytes
  pub headers : List Header

pub record HeaderEntry : Type 0 where
  pub key : Text
  pub value : Text

pub record Message : Type 0 where
  pub partition : ℕ
  pub offset : ℕ
  pub timestamp : ℕ
  pub key : Option Text
  pub value : Text
  pub headers : List HeaderEntry

unfoldable pub key_text : Option Bytes → Option Text
unfolding bytes_to_text
key_text none = none
key_text (some k) = some (bytes_to_text k)

unfoldable pub header_entry : Header → HeaderEntry
unfolding bytes_to_text
header_entry h = record { key = h.key; value = bytes_to_text h.value }

unfoldable pub record_to_json : ConsumerRecord → Message
unfolding key_text header_entry
record_to_json r = record {
  partition = r.partition;
  offset = r.offset;
  timestamp = r.timestamp;
  key = key_text r.key;
  value = bytes_to_text r.value;
  headers = map header_entry r.headers;
}

-- An independent reader of hexadecimal digits.
abbrev pub hex_value : ℕ → Option ℕ
hex_value c =
    if leb 48 c && leb c 57
    then some (c - 48)
    else if leb 97 c && leb c 102
    then some (c - 87)
    else none

unfoldable pub read_hex : Text → Option Bytes
read_hex [] = some []
read_hex (c ∷ []) = none
read_hex (c ∷ d ∷ s) =
    let rest = read_hex s in
    elim (hex_value c) [
      | none ↦ none
      | some h ↦ elim (hex_value d) [
        | none ↦ none
        | some l ↦ elim rest [ none ↦ none | some bs ↦ some ((h * 16 + l) ∷ bs) ]
      ]
    ]

abbrev pub AllBytes : Bytes → Type 0
AllBytes = All (λ b. b < 256)

hex_value-hex_digit : (n : ℕ) → n < 16 → hex_value (hex_digit n) ≡ some n
hex_value-hex_digit n h = ground arith

pub read_hex-hex : (bs : Bytes) → AllBytes bs → read_hex (hex bs) ≡ some bs
unfolding read_hex hex
read_hex-hex [] h = refl
read_hex-hex (b ∷ bs) (small, h) =
    let split : b / 16 * 16 + b % 16 ≡ b = omega arith in
    ground (
      arith,
      hex_value-hex_digit (b / 16) (omega arith),
      hex_value-hex_digit (b % 16) (omega arith),
      read_hex-hex bs h,
      split,
    )
