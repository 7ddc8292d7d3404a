-- ===== src/Rewrite/Header.antt =====
-- src/rewrite.rs: `parse_request_header` and `parse_response_cid`.
use kafka_proxy.Base.{
  ℕ, [], ◌∷◌, ◌^◌, ◌≤◌, ◌<◌, ◌≡◌, Option, none, some, ◌++◌, arith, ltb, length, if◌then◌else◌,
}
use kafka_proxy.Wire.{Bytes, put_i16, put_i32, get_i16, get_i32}

-- (api_key, api_version, correlation_id), or the `None` of a short frame. The outer `none` is the
-- panic of a read past the end.
unfoldable pub parse_request_header : Bytes → Option (Option (ℕ × ℕ × ℕ))
parse_request_header raw = if ltb (length raw) 8 then some none else elim (get_i16 raw) [
  | none ↦ none
  | some (api_key, cur) ↦ elim (get_i16 cur) [
    | none ↦ none
    | some (api_version, cur') ↦ elim (get_i32 cur') [
      | none ↦ none
      | some (correlation_id, _) ↦ some (some (api_key, api_version, correlation_id))
    ]
  ]
]

-- As above: `&raw[..4]` panics as `get_i32` does, on less than four bytes.
unfoldable pub parse_response_cid : Bytes → Option (Option ℕ)
parse_response_cid raw =
    if ltb (length raw) 4
    then some none
    else elim (get_i32 raw) [ none ↦ none | some (cid, _) ↦ some (some cid) ]

-- What they return.
unfoldable pub request_header : Bytes → Option (ℕ × ℕ × ℕ)
request_header raw = elim (parse_request_header raw) [ none ↦ none | some found ↦ found ]

unfoldable pub response_cid : Bytes → Option ℕ
response_cid raw = elim (parse_response_cid raw) [ none ↦ none | some found ↦ found ]

-- They return, whatever the frame: the length is tested before the reads.
pub parse_request_header-returns :
    (raw : Bytes) → parse_request_header raw ≡ some (request_header raw)
unfolding parse_request_header request_header get_i16 get_i32
parse_request_header-returns [] = ground arith
parse_request_header-returns (a ∷ []) = ground arith
parse_request_header-returns (a ∷ b ∷ []) = ground arith
parse_request_header-returns (a ∷ b ∷ c ∷ []) = ground arith
parse_request_header-returns (a ∷ b ∷ c ∷ d ∷ []) = ground arith
parse_request_header-returns (a ∷ b ∷ c ∷ d ∷ e ∷ []) = ground arith
parse_request_header-returns (a ∷ b ∷ c ∷ d ∷ e ∷ f ∷ []) = ground arith
parse_request_header-returns (a ∷ b ∷ c ∷ d ∷ e ∷ f ∷ g ∷ []) = ground arith
parse_request_header-returns (a ∷ b ∷ c ∷ d ∷ e ∷ f ∷ g ∷ h ∷ rest) = ground arith

pub parse_response_cid-returns : (raw : Bytes) → parse_response_cid raw ≡ some (response_cid raw)
unfolding parse_response_cid response_cid get_i32
parse_response_cid-returns [] = ground arith
parse_response_cid-returns (a ∷ []) = ground arith
parse_response_cid-returns (a ∷ b ∷ []) = ground arith
parse_response_cid-returns (a ∷ b ∷ c ∷ []) = ground arith
parse_response_cid-returns (a ∷ b ∷ c ∷ d ∷ rest) = ground arith

-- The header of a request frame, with a key and a version of 16 bits and an id of 32 bits, is read
-- back whatever follows it.
pub request_header_lem :
    (key version cid : ℕ) (rest : Bytes)
    → key < 2 ^ 16
    → version < 2 ^ 16
    → cid < 2 ^ 32
    → request_header (put_i16 key ++ (put_i16 version ++ (put_i32 cid ++ rest)))
      ≡ some (key, version, cid)
unfolding request_header parse_request_header put_i16 put_i32 get_i16 get_i32
request_header_lem key version cid rest hk hv hc = ground arith

pub response_cid-put_i32 :
    (cid : ℕ) (rest : Bytes) → cid < 2 ^ 32 → response_cid (put_i32 cid ++ rest) ≡ some cid
unfolding response_cid parse_response_cid put_i32 get_i32
response_cid-put_i32 cid rest h = ground arith

-- A response frame has a correlation id exactly from four bytes on.
pub response_cid-length : (raw : Bytes) (cid : ℕ) → response_cid raw ≡ some cid → 4 ≤ length raw
unfolding response_cid parse_response_cid
response_cid-length raw cid h = ground arith
