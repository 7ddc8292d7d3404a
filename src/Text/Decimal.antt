-- ===== src/Text/Decimal.antt =====
-- `format!("{}", n)` for an unsigned number, and that it is read back.
use mathlib.Core.Logic.{dite, dif_pos, dif_neg}
use mathlib.Core.WellFounded.{Acc}
use native.Mathlib.Bridge.{le_prop}
use native.Mathlib.Decide.{dec_lt}
use kafka_proxy.Base.{
  ℕ, ◌+◌, ◌-◌, ◌*◌, ◌/◌, ◌%◌, ◌≤◌, ◌<◌, ◌≡◌, refl, sym, ap, ◌∙◌, true, [], ◌∷◌, some, arith, All,
}
use kafka_proxy.Base.Loops.{lt_wf}
use kafka_proxy.Text.{Text, is_digit, parse_digits, parse_unsigned}

div_shrinks : (n : ℕ) → 9 < n → n / 10 < n
div_shrinks n more = omega arith

-- The digits of `n` before the text that is already written.
decimal_loop : (n : ℕ) → Acc ◌<◌ n → Text → Text
decimal_loop n (Acc.intro _ smaller) tail =
    dite (dec_lt 9 n)
      (λ more. decimal_loop (n / 10) (smaller (n / 10) (div_shrinks n more)) ((48 + n % 10) ∷ tail))
      (λ _. (48 + n) ∷ tail)

unfoldable pub decimal : ℕ → Text
unfolding decimal_loop lt_wf dec_lt div_shrinks
decimal n = decimal_loop n (lt_wf.apply n) []

last_digit :
    (max high d : ℕ) (t : Text)
    → d ≤ 9
    → high * 10 + d ≤ max
    → parse_digits max high ((48 + d) ∷ t) ≡ parse_digits max (high * 10 + d) t
unfolding parse_digits
last_digit max high d t small fits =
    let sub : high * 10 + (48 + d - 48) ≡ high * 10 + d = omega arith in rw sub (ground arith)

parse_digits-decimal_loop :
    (max n : ℕ) (w : Acc ◌<◌ n) (tail : Text)
    → n ≤ max
    → parse_digits max 0 (decimal_loop n w tail) ≡ parse_digits max n tail
unfolding decimal_loop
parse_digits-decimal_loop max n (Acc.intro _ smaller) tail le = elim (dec_lt 9 n) [
  | yes more ↦ rw (dif_pos _ le_prop more) (
      parse_digits-decimal_loop max (n / 10) (smaller (n / 10) (div_shrinks n more))
        ((48 + n % 10) ∷ tail) (omega arith)
      ∙ last_digit max (n / 10) (n % 10) tail (omega arith) (omega arith)
      ∙ ap (λ k. parse_digits max k tail) (omega arith))
  | no one ↦ rw (dif_neg _ one) (
      last_digit max 0 n tail (omega arith) (omega arith)
      ∙ ap (λ k. parse_digits max k tail) (omega arith))
]

-- The text begins with a digit, and holds digits only if the text behind it does.
decimal_loop-digits :
    (n : ℕ) (w : Acc ◌<◌ n) (tail : Text)
    → All (λ c. is_digit c ≡ true) tail
    → (c : ℕ) × (s : Text) × (decimal_loop n w tail ≡ c ∷ s)
      × (is_digit c ≡ true)
      × All (λ d. is_digit d ≡ true) s
unfolding decimal_loop
decimal_loop-digits n (Acc.intro _ smaller) tail digits = elim (dec_lt 9 n) [
  | yes more ↦ rw (dif_pos _ le_prop more) (
      decimal_loop-digits (n / 10) (smaller (n / 10) (div_shrinks n more)) ((48 + n % 10) ∷ tail)
        (ground arith, digits))
  | no one ↦ rw (dif_neg _ one) (48 + n, tail, refl, ground arith, digits)
]

-- A number that is written is read back, if the type holds it.
pub parse_unsigned-decimal : (max n : ℕ) → n ≤ max → parse_unsigned max (decimal n) ≡ some n
unfolding decimal
parse_unsigned-decimal max n le =
    let (c, s, e, digit, _) = decimal_loop-digits n (lt_wf.apply n) [] tt in
    let plain : parse_unsigned max (c ∷ s) ≡ parse_digits max 0 (c ∷ s) =
      unfold parse_unsigned in ground arith in
    ap (parse_unsigned max) e
    ∙ plain
    ∙ ap (parse_digits max 0) (sym e)
    ∙ parse_digits-decimal_loop max n (lt_wf.apply n) [] le
    ∙ (unfold parse_digits in refl)

pub decimal-digits :
    (n : ℕ)
    → (c : ℕ) × (s : Text) × (decimal n ≡ c ∷ s)
      × (is_digit c ≡ true)
      × All (λ d. is_digit d ≡ true) s
unfolding decimal
decimal-digits n = decimal_loop-digits n (lt_wf.apply n) [] tt
