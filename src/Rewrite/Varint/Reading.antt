-- ===== src/Rewrite/Varint/Reading.antt =====
-- src/rewrite.rs: the encoding of `encode_unsigned_varint` against a reader of the format.
use Prim.Native.Nat.{bit_or}
use mathlib.Core.List.{append_assoc}
use mathlib.Core.WellFounded.{Acc}
use kafka_proxy.Base.{
  ℕ, zero, suc, ◌+◌, ◌-◌, ◌*◌, ◌/◌, ◌%◌, ◌^◌, ◌≤◌, ◌<◌, ◌≡◌, refl, Bool, true, ◌&&◌, [], ◌∷◌, ◌++◌,
  Option, none, some, arith, ltb, ◌==◌, if◌then◌else◌, length, ◌∙◌,
}
use kafka_proxy.Base.Loops.{lt_wf}
use kafka_proxy.Wire.{Bytes}
use kafka_proxy.Rewrite.Varint.{varint_loop, encode_unsigned_varint}

-- The format's reader: seven bits a byte, lowest first, up to the first byte below 0x80.
unfoldable pub read_unsigned_varint : Bytes → Option (ℕ × Bytes)
read_unsigned_varint [] = none
read_unsigned_varint (b ∷ rest) =
    let more = read_unsigned_varint rest in
    if ltb b 0x80
    then some (b, rest)
    else elim more [ none ↦ none | some (high, rest') ↦ some (b - 0x80 + 128 * high, rest') ]

-- The byte that the loop writes while more follow, over all values of a byte.
top_bit_set : ℕ → Bool
top_bit_set zero = true
top_bit_set (suc n) = (bit_or n 0x80 == n % 128 + 128) && top_bit_set n

top_bit_set_lem : (n x : ℕ) → top_bit_set n ≡ true → x < n → bit_or x 0x80 ≡ x % 128 + 128
unfolding top_bit_set
top_bit_set_lem zero x h lt = absurd (omega arith)
top_bit_set_lem (suc n) x h lt = ground (arith, top_bit_set_lem n x)

inner_byte : (v : ℕ) → bit_or (v % 256) 0x80 ≡ v % 128 + 128
unfolding top_bit_set
inner_byte v = top_bit_set_lem 256 (v % 256) refl (omega arith) ∙ omega arith

-- The bytes of `v` that the loop appends: `k` of them go before the last.
groups : ℕ → ℕ → Bytes
groups zero v = v ∷ []
groups (suc k) v =
    let rest = groups k (v / 128) in if ltb v 0x80 then v ∷ [] else (v % 128 + 128) ∷ rest

varint_loop-groups :
    (k : ℕ) (buf : Bytes) (v : ℕ) (w : Acc ◌<◌ v)
    → v < 128 ^ suc k
    → varint_loop buf v w ≡ buf ++ groups k v
unfolding varint_loop groups
varint_loop-groups zero buf v (Acc.intro _ smaller) h = ground arith
varint_loop-groups (suc k) buf v (Acc.intro _ smaller) h = grind (
  arith,
  inner_byte v,
  λ (w : Acc ◌<◌ (v / 128)).
      varint_loop-groups k (buf ++ ((v % 128 + 128) ∷ [])) (v / 128) w (omega arith),
  append_assoc buf ((v % 128 + 128) ∷ []) (groups k (v / 128)),
)

read-groups :
    (k v : ℕ) (rest : Bytes)
    → v < 128 ^ suc k
    → read_unsigned_varint (groups k v ++ rest) ≡ some (v, rest)
unfolding read_unsigned_varint groups
read-groups zero v rest h = ground arith
read-groups (suc k) v rest h = ground (arith, read-groups k (v / 128) rest (omega arith))

length-groups : (k v : ℕ) → length (groups k v) ≤ k + 1
unfolding groups
length-groups zero v = omega arith
length-groups (suc k) v = ground (arith, length-groups k (v / 128))

-- Every u32 is written behind what the buffer holds, in at most five bytes, and read back whatever
-- follows.
pub read-encode_unsigned_varint :
    (v : ℕ) (buf rest : Bytes)
    → v < 2 ^ 32
    → (written : Bytes) × (encode_unsigned_varint buf v ≡ buf ++ written)
      × (length written ≤ 5)
      × (read_unsigned_varint (written ++ rest) ≡ some (v, rest))
unfolding encode_unsigned_varint
read-encode_unsigned_varint v buf rest h = (
  groups 4 v,
  varint_loop-groups 4 buf v (lt_wf.apply v) (omega arith),
  omega (arith, length-groups 4 v),
  read-groups 4 v rest (omega arith),
)
