-- ===== src/Config/Duration/Units.antt =====
-- src/config.rs: a number with a unit is read as that many units.
use kafka_proxy.Base.{
  ℕ, zero, suc, ◌*◌, ◌%◌, ◌^◌, ◌≤◌, ◌<◌, ◌≡◌, refl, ◌∙◌, true, false, ◌&&◌, [], ◌∷◌, ◌++◌, none,
  some, arith, ◌==◌, leb, length, Bool-cases, inl, inr, length-append,
}
use kafka_proxy.Text.{Text, trim, strip_suffix, text_eq, parse_unsigned, is_whitespace}
use kafka_proxy.Text.Decimal.{decimal, parse_unsigned-decimal}
use kafka_proxy.Text.Plain.{
  Without, NoBlank, All-append, trim_plain, decimal-NoBlank, decimal-Without,
}
use kafka_proxy.Config.Duration.{u64_max, seconds, parse_seconds, parse_duration_str}

text_eq_refl : (s : Text) → text_eq s s ≡ true
text_eq_refl [] = refl
text_eq_refl (c ∷ s) = ground (arith, text_eq_refl s)

text_eq-length : (s t : Text) → text_eq s t ≡ true → length s ≡ length t
text_eq-length [] [] h = refl
text_eq-length [] (d ∷ t) h = ground arith
text_eq-length (c ∷ s) [] h = ground arith
text_eq-length (c ∷ s) (d ∷ t) h = ground (arith, text_eq-length s t)

strip_suffix-append :
    (suffix s : Text) → 1 ≤ length suffix → strip_suffix suffix (s ++ suffix) ≡ some s
unfolding strip_suffix
strip_suffix-append [] [] some_suffix = absurd (omega arith)
strip_suffix-append (d ∷ suffix) [] some_suffix = ground (arith, text_eq_refl suffix)
strip_suffix-append suffix (c ∷ s) some_suffix =
    elim (Bool-cases (text_eq (c ∷ (s ++ suffix)) suffix)) [
      | inl e ↦
          absurd
            (omega (arith, text_eq-length (c ∷ (s ++ suffix)) suffix e, length-append s suffix))
      | inr e ↦ rw (e, strip_suffix-append suffix s some_suffix) refl
    ]

text_eq-Without : (d : ℕ) (s t : Text) → text_eq s t ≡ true → Without d s → Without d t
text_eq-Without d [] [] h w = tt
text_eq-Without d [] (y ∷ t) h w = ground arith
text_eq-Without d (x ∷ s) [] h w = ground arith
text_eq-Without d (x ∷ s) (y ∷ t) h (w, ws) =
    (ground arith, text_eq-Without d s t (ground arith) ws)

-- A suffix with a character that the text does not have.
strip_suffix_absent :
    (d : ℕ) (suffix s : Text) → Without d s → (Without d suffix → ⊥) → strip_suffix suffix s ≡ none
unfolding strip_suffix
strip_suffix_absent d [] s w has = absurd (has tt)
strip_suffix_absent d (x ∷ suffix) [] w has = refl
strip_suffix_absent d (x ∷ suffix) (c ∷ s) (w, ws) has =
    elim (Bool-cases (text_eq (c ∷ s) (x ∷ suffix))) [
      | inl e ↦ absurd (has (text_eq-Without d (c ∷ s) (x ∷ suffix) e (w, ws)))
      | inr e ↦ rw (e, strip_suffix_absent d (x ∷ suffix) s ws has) refl
    ]

mul_le : (n a b : ℕ) → a ≤ b → n * a ≤ n * b
mul_le zero a b le = omega arith
mul_le (suc n) a b le = omega (arith, mul_le n a b le)

module _ (n : ℕ) where
  -- A suffix with a character `d` that the unit does not have.
  other_unit :
      (d : ℕ) (u suffix : Text)
      → (leb 48 d && leb d 57) ≡ false
      → Without d u
      → (Without d suffix → ⊥)
      → strip_suffix suffix (decimal n ++ u) ≡ none
  other_unit d u suffix h w has =
      strip_suffix_absent d suffix (decimal n ++ u)
        (All-append _ (decimal n) u (decimal-Without d n h) w) has

  trim-with_unit : (u : Text) → NoBlank u → trim (decimal n ++ u) ≡ decimal n ++ u
  trim-with_unit u w =
      trim_plain (decimal n ++ u) (All-append _ (decimal n) u (decimal-NoBlank n) w)

  module _ (small : n * 3600 < 2 ^ 64) where
    number : parse_unsigned u64_max (decimal n) ≡ some n
    number = parse_unsigned-decimal u64_max n (omega arith)

    in_seconds :
        (mul : ℕ)
        → mul ≤ 3600
        → seconds mul (parse_unsigned u64_max (decimal n)) ≡ some (n * mul * 1_000_000)
    in_seconds mul le =
        let bound : n * mul ≤ n * 3600 = mul_le n mul 3600 le in
        let plain : n * mul % 2 ^ 64 ≡ n * mul = omega arith in rw (number, plain) refl

    millis : parse_duration_str (decimal n ++ (b'm' ∷ b's' ∷ [])) ≡ some (n * 1000)
    unfolding parse_duration_str
    millis =
        rw
          (
            trim-with_unit (b'm' ∷ b's' ∷ []) (unfold is_whitespace in (refl, (refl, tt))),
            strip_suffix-append (b'm' ∷ b's' ∷ []) (decimal n) (omega arith),
            number,
            parse_duration_str,
          )
          refl

    micros : parse_duration_str (decimal n ++ (b'u' ∷ b's' ∷ [])) ≡ some (n * 1)
    unfolding parse_duration_str
    micros =
        rw
          (
            trim-with_unit (b'u' ∷ b's' ∷ []) (unfold is_whitespace in (refl, (refl, tt))),
            other_unit b'm' (b'u' ∷ b's' ∷ []) (b'm' ∷ b's' ∷ []) refl (refl, (refl, tt))
                (λ w. ground arith),
            trim-with_unit (b'u' ∷ b's' ∷ []) (unfold is_whitespace in (refl, (refl, tt))),
            strip_suffix-append (b'u' ∷ b's' ∷ []) (decimal n) (omega arith),
            number,
            parse_duration_str,
          )
          refl

    -- A unit of one letter is left to `parse_seconds`.
    one_letter :
        (u : ℕ)
        → is_whitespace u ≡ false
        → (strip_suffix (b'm' ∷ b's' ∷ []) (decimal n ++ (u ∷ [])) ≡ none)
        → (strip_suffix (b'u' ∷ b's' ∷ []) (decimal n ++ (u ∷ [])) ≡ none)
        → parse_duration_str (decimal n ++ (u ∷ [])) ≡ parse_seconds (decimal n ++ (u ∷ []))
    unfolding parse_duration_str
    one_letter u blank no_ms no_us =
        rw
          (
            trim-with_unit (u ∷ []) (blank, tt),
            no_ms,
            trim-with_unit (u ∷ []) (blank, tt),
            no_us,
            trim-with_unit (u ∷ []) (blank, tt),
            parse_duration_str,
          )
          refl

    secs : parse_duration_str (decimal n ++ (b's' ∷ [])) ≡ some (n * 1 * 1_000_000)
    unfolding parse_seconds
    secs =
        one_letter b's' (unfold is_whitespace in refl)
          (other_unit b'm' (b's' ∷ []) (b'm' ∷ b's' ∷ []) refl (refl, tt) (λ w. ground arith))
          (other_unit b'u' (b's' ∷ []) (b'u' ∷ b's' ∷ []) refl (refl, tt) (λ w. ground arith))
        ∙ rw (strip_suffix-append (b's' ∷ []) (decimal n) (omega arith), parse_seconds)
            (in_seconds 1 (omega arith))

    -- No "s" in the unit.
    no_s :
        (u : ℕ) (suffix : Text)
        → (u == b's') ≡ false
        → (Without b's' suffix → ⊥)
        → strip_suffix suffix (decimal n ++ (u ∷ [])) ≡ none
    no_s u suffix h has = other_unit b's' (u ∷ []) suffix refl (h, tt) has

    minutes : parse_duration_str (decimal n ++ (b'm' ∷ [])) ≡ some (n * 60 * 1_000_000)
    unfolding parse_seconds
    minutes =
        one_letter b'm' (unfold is_whitespace in refl)
          (no_s b'm' (b'm' ∷ b's' ∷ []) refl (λ w. ground arith))
          (no_s b'm' (b'u' ∷ b's' ∷ []) refl (λ w. ground arith))
        ∙ rw
            (
              no_s b'm' (b's' ∷ []) refl (λ w. ground arith),
              strip_suffix-append (b'm' ∷ []) (decimal n) (omega arith),
              parse_seconds,
            )
            (in_seconds 60 (omega arith))

    hours : parse_duration_str (decimal n ++ (b'h' ∷ [])) ≡ some (n * 3600 * 1_000_000)
    unfolding parse_seconds
    hours =
        one_letter b'h' (unfold is_whitespace in refl)
          (no_s b'h' (b'm' ∷ b's' ∷ []) refl (λ w. ground arith))
          (no_s b'h' (b'u' ∷ b's' ∷ []) refl (λ w. ground arith))
        ∙ rw
            (
              no_s b'h' (b's' ∷ []) refl (λ w. ground arith),
              other_unit b'm' (b'h' ∷ []) (b'm' ∷ []) refl (refl, tt) (λ w. ground arith),
              strip_suffix-append (b'h' ∷ []) (decimal n) (omega arith),
              parse_seconds,
            )
            (in_seconds 3600 (omega arith))

-- Where the number of hours fits in 64 bits of seconds: a number followed by "ms", "us", "s", "m" or
-- "h" is read as so many milliseconds, microseconds, seconds, minutes or hours.
pub parse_duration_str-decimal :
    (n : ℕ)
    → n * 3600 < 2 ^ 64
    → (parse_duration_str (decimal n ++ (b'm' ∷ b's' ∷ [])) ≡ some (n * 1000))
      × (parse_duration_str (decimal n ++ (b'u' ∷ b's' ∷ [])) ≡ some (n * 1))
      × (parse_duration_str (decimal n ++ (b's' ∷ [])) ≡ some (n * 1 * 1_000_000))
      × (parse_duration_str (decimal n ++ (b'm' ∷ [])) ≡ some (n * 60 * 1_000_000))
      × (parse_duration_str (decimal n ++ (b'h' ∷ [])) ≡ some (n * 3600 * 1_000_000))
parse_duration_str-decimal n small =
    (millis n small, micros n small, secs n small, minutes n small, hours n small)
