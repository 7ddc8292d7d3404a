-- ===== src/Rewrite/Frames.antt =====
-- src/rewrite.rs: the frame that the handlers write, read back by the same codec.
use kafka_proxy.Base.{
  ℕ, ◌^◌, ◌<◌, ◌≡◌, refl, Bool, true, false, [], ◌∷◌, ◌++◌, some, arith, Bool-cases, Option-cases,
  inl, inr,
}
use mathlib.Core.List.{append_assoc}
use kafka_proxy.Wire.{Bytes, put_i32}
use kafka_proxy.Rewrite.Codec.{Message, RoundTrips}
use kafka_proxy.Rewrite.Varint.{encode_unsigned_varint}
use kafka_proxy.Rewrite.{reencode, response_header, response_body}

-- No tagged fields: one zero byte.
pub encode_unsigned_varint-zero : (buf : Bytes) → encode_unsigned_varint buf 0 ≡ buf ++ (0 ∷ [])
unfolding encode_unsigned_varint
encode_unsigned_varint-zero buf = refl

module _ {R : Type 0} (c : Message R) (version cid : ℕ) (r : R) (out : Bytes) where
  pub reencode_changed :
      (changed : Bool) → reencode c version changed cid r ≡ some out → changed ≡ true
  unfolding reencode
  reencode_changed true h = refl
  reencode_changed false h = cc

  -- The frame that `reencode` writes decodes to the header's correlation id and the body.
  pub decode-reencode :
      (Carries : ℕ → R → Type 0) (changed : Bool)
      → RoundTrips c Carries
      → cid < 2 ^ 32
      → Carries version r
      → reencode c version changed cid r ≡ some out
      → c.decode_frame out version ≡ some (cid, r)
  unfolding reencode response_header response_body
  decode-reencode Carries true laws small carried h =
      elim (Bool-cases (c.is_flexible_version version)) [
        | inl flex ↦ elim (Option-cases (c.flexible_encode r version)) [
          | inl e ↦ ground arith
          | inr (body, e) ↦
              let frame : out ≡ put_i32 cid ++ (0 ∷ body) = ground (
                arith,
                encode_unsigned_varint-zero (put_i32 cid),
                append_assoc (put_i32 cid) (0 ∷ []) body,
              ) in
              rw frame (laws.flexible version cid r body small carried flex e)
        ]
        | inr plain ↦ elim (Option-cases (c.encode r version)) [
          | inl e ↦ ground arith
          | inr (body, e) ↦
              let frame : out ≡ put_i32 cid ++ body = ground arith in
              rw frame (laws.plain version cid r body small carried plain e)
        ]
      ]
  decode-reencode Carries false laws small carried h = cc

  -- A change is written whenever the body can be encoded.
  pub reencode-eq-some :
      (body : Bytes)
      → response_body c version r ≡ some body
      → reencode c version true cid r ≡ some (response_header c version cid ++ body)
  unfolding reencode
  reencode-eq-some body e = ground arith
