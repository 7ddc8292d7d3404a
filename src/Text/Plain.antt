-- ===== src/Text/Plain.antt =====
-- Text without a separator and without blanks.
use kafka_proxy.Base.{
  ℕ, ◌≡◌, refl, ap, ◌∙◌, true, false, [], ◌∷◌, ◌++◌, none, some, arith, ◌==◌, All,
}
use kafka_proxy.Text.{Text, is_whitespace, trim_start, trim_end, trim, split, rsplit_once, is_digit}
use kafka_proxy.Text.Decimal.{decimal, decimal-digits}

-- No character of the text is `d`.
abbrev pub Without : ℕ → Text → Type 0
Without d = All (λ c. (c == d) ≡ false)

abbrev pub NoBlank : Text → Type 0
NoBlank = All (λ c. is_whitespace c ≡ false)

pub All-append {ℓ} : (P : ℕ → Type ℓ) (s t : Text) → All P s → All P t → All P (s ++ t)
All-append P [] t a b = b
All-append P (c ∷ s) t a b = (a.0, All-append P s t a.1 b)

All-map {ℓ m} :
    (P : ℕ → Type ℓ) (Q : ℕ → Type m) → ((c : ℕ) → P c → Q c) → (s : Text) → All P s → All Q s
All-map P Q f [] a = tt
All-map P Q f (c ∷ s) a = (f c a.0, All-map P Q f s a.1)

pub split_plain : (d : ℕ) (s : Text) → Without d s → split d s ≡ s ∷ []
unfolding split
split_plain d [] w = refl
split_plain d (c ∷ s) w = ground (arith, split_plain d s w.1)

pub split-append : (d : ℕ) (s t : Text) → Without d s → split d (s ++ (d ∷ t)) ≡ s ∷ split d t
unfolding split
split-append d [] t w = ground arith
split-append d (c ∷ s) t w = ground (arith, split-append d s t w.1)

rsplit_once_plain : (d : ℕ) (s : Text) → Without d s → rsplit_once d s ≡ none
unfolding rsplit_once
rsplit_once_plain d [] w = refl
rsplit_once_plain d (c ∷ s) w = ground (arith, rsplit_once_plain d s w.1)

pub rsplit_once-append :
    (d : ℕ) (s t : Text) → Without d t → rsplit_once d (s ++ (d ∷ t)) ≡ some (s, t)
unfolding rsplit_once
rsplit_once-append d [] t w = ground (arith, rsplit_once_plain d t w)
rsplit_once-append d (c ∷ s) t w = ground (arith, rsplit_once-append d s t w)

trim_end_plain : (s : Text) → NoBlank s → trim_end s ≡ s
unfolding trim_end
trim_end_plain [] w = refl
trim_end_plain (c ∷ s) w = rw (trim_end_plain s w.1, w.0) (ground arith)

trim_start_plain : (s : Text) → NoBlank s → trim_start s ≡ s
unfolding trim_start
trim_start_plain [] w = refl
trim_start_plain (c ∷ s) w = ground arith

pub trim_plain : (s : Text) → NoBlank s → trim s ≡ s
unfolding trim
trim_plain s w = ap trim_end (trim_start_plain s w) ∙ trim_end_plain s w

digit_blank : (c : ℕ) → is_digit c ≡ true → is_whitespace c ≡ false
unfolding is_whitespace
digit_blank c h = ground arith

decimal-All : (P : ℕ → Type 0) → ((c : ℕ) → is_digit c ≡ true → P c) → (n : ℕ) → All P (decimal n)
decimal-All P f n = let (c, s, e, d, ds) = decimal-digits n in rw e (f c d, All-map _ P f s ds)

pub decimal-NoBlank : (n : ℕ) → NoBlank (decimal n)
decimal-NoBlank n = decimal-All _ digit_blank n

pub decimal-Without : (d n : ℕ) → is_digit d ≡ false → Without d (decimal n)
decimal-Without d n h = decimal-All _ (λ c q. ground arith) n
