-- ===== src/Rewrite/Varint.antt =====
-- src/rewrite.rs: `encode_unsigned_varint`.
pub mod Reading
use Prim.Native.Nat.{bit_or}
use mathlib.Core.Logic.{dite}
use mathlib.Core.WellFounded.{Acc, WellFounded}
use native.Mathlib.Decide.{dec_le}
use kafka_proxy.Base.{
  ℕ, zero, suc, ◌+◌, ◌-◌, ◌*◌, ◌/◌, ◌%◌, ◌^◌, ◌≤◌, ◌<◌, ◌≡◌, refl, Bool, true, false, ◌&&◌, List,
  [], ◌∷◌, ◌++◌, Option, none, some, arith, ltb, ◌==◌, ==_iff, if◌then◌else◌, length,
}
use kafka_proxy.Base.Loops.{lt_wf}
use kafka_proxy.Wire.{Bytes}

-- `while value >= 0x80`: `value as u8` is `value % 256`, and `value >>= 7` is `value / 128`.
varint_loop : Bytes → (value : ℕ) → Acc ◌<◌ value → Bytes
varint_loop buf value (Acc.intro _ smaller) =
    dite (dec_le 0x80 value)
      (λ more.
        varint_loop (buf ++ (bit_or (value % 256) 0x80 ∷ [])) (value / 128)
          (smaller (value / 128) (omega arith)))
      (λ _. buf ++ ((value % 256) ∷ []))

unfoldable pub encode_unsigned_varint : Bytes → ℕ → Bytes
unfolding varint_loop lt_wf dec_le
encode_unsigned_varint buf value = varint_loop buf value (lt_wf.apply value)
