-- ===== src/Wire.antt =====
-- Frames as lists of bytes, and the big-endian integers of the Kafka wire format as the calls
-- `put_i32`, `get_i16`, `get_i32` read and write them in src/rewrite.rs and src/pool.rs. An i16 or
-- i32 is its bit pattern, a number below 2 ^ 16 or 2 ^ 32; `none` stands for a panic.
use kafka_proxy.Base.{
  ℕ, zero, suc, ◌+◌, ◌*◌, ◌/◌, ◌%◌, ◌^◌, ◌≤◌, ◌<◌, ◌≡◌, refl, List, [], ◌∷◌, ◌++◌, Option, none,
  some, arith, Bool, leb, ◌||◌, length,
}
pub mod Sink
pub mod SampleSink

abbrev pub Bytes : Type 0
Bytes = List ℕ

-- `x <= k` on the two's complement reading of a w-bit pattern, for 0 <= k.
abbrev pub i16_le : ℕ → ℕ → Bool
i16_le x k = leb (2 ^ 15) x || leb x k

abbrev pub i32_le : ℕ → ℕ → Bool
i32_le x k = leb (2 ^ 31) x || leb x k

unfoldable pub put_i16 : ℕ → Bytes
put_i16 v = (v / 256 % 256) ∷ (v % 256) ∷ []

unfoldable pub put_i32 : ℕ → Bytes
put_i32 v = (v / 2 ^ 24 % 256) ∷ (v / 2 ^ 16 % 256) ∷ (v / 2 ^ 8 % 256) ∷ (v % 256) ∷ []

unfoldable pub get_i16 : Bytes → Option (ℕ × Bytes)
get_i16 (a ∷ b ∷ rest) = some (a * 256 + b, rest)
get_i16 _ = none

unfoldable pub get_i32 : Bytes → Option (ℕ × Bytes)
get_i32 (a ∷ b ∷ c ∷ d ∷ rest) = some (a * 2 ^ 24 + b * 2 ^ 16 + c * 2 ^ 8 + d, rest)
get_i32 _ = none

-- `&data[n..]`, which panics past the end.
unfoldable pub slice_from : ℕ → Bytes → Option Bytes
slice_from zero xs = some xs
slice_from (suc n) [] = none
slice_from (suc n) (x ∷ xs) = slice_from n xs

-- `&data[..n]`, which panics past the end.
unfoldable pub slice_to : ℕ → Bytes → Option Bytes
slice_to zero xs = some []
slice_to (suc n) [] = none
slice_to (suc n) (x ∷ xs) = elim (slice_to n xs) [ none ↦ none | some ys ↦ some (x ∷ ys) ]

pub get_i16-put_i16 :
    (v : ℕ) (rest : Bytes) → v < 2 ^ 16 → get_i16 (put_i16 v ++ rest) ≡ some (v, rest)
unfolding get_i16 put_i16
get_i16-put_i16 v rest h = ground arith

pub get_i32-put_i32 :
    (v : ℕ) (rest : Bytes) → v < 2 ^ 32 → get_i32 (put_i32 v ++ rest) ≡ some (v, rest)
unfolding get_i32 put_i32
get_i32-put_i32 v rest h = ground arith

pub length-put_i32 : (v : ℕ) → length (put_i32 v) ≡ 4
unfolding put_i32
length-put_i32 v = refl

pub slice_from-put_i32 : (v : ℕ) (rest : Bytes) → slice_from 4 (put_i32 v ++ rest) ≡ some rest
unfolding slice_from put_i32
slice_from-put_i32 v rest = refl

-- A frame of at least four bytes splits at its correlation id.
pub slice_from-four : (xs : Bytes) → 4 ≤ length xs → (rest : Bytes) × (slice_from 4 xs ≡ some rest)
unfolding slice_from
slice_from-four [] h = absurd (omega arith)
slice_from-four (a ∷ []) h = absurd (omega arith)
slice_from-four (a ∷ b ∷ []) h = absurd (omega arith)
slice_from-four (a ∷ b ∷ c ∷ []) h = absurd (omega arith)
slice_from-four (a ∷ b ∷ c ∷ d ∷ rest) h = (rest, refl)
