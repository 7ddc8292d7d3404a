-- ===== src/Metrics/Samples.antt =====
-- src/metrics.rs: what a scraper reads in the text of `render_prometheus`.
use mathlib.Core.List.{append_assoc}
use kafka_proxy.Base.{
  ℕ, ◌≡◌, refl, ap, ◌∙◌, sym, Bool, true, false, not, List, [], ◌∷◌, ◌++◌, none, some, ◌==◌, All,
  arith, if◌then◌else◌,
}
use kafka_proxy.Text.{Text, split, rsplit_once}
use kafka_proxy.Text.Plain.{Without, split-append, rsplit_once-append, All-append}
use kafka_proxy.Metrics.Render.{Floats, Line, comment, sample, push_lines}

-- The text format as a reader sees it: lines of a name and a value behind the last blank; an empty
-- line and a line that begins with `#` are passed over.
unfoldable pub read_lines : List Text → List (Text × Text)
read_lines [] = []
read_lines ([] ∷ ls) = read_lines ls
read_lines ((c ∷ s) ∷ ls) =
    let rest = read_lines ls in
    if c == b'#'
    then rest
    else elim (rsplit_once b' ' (c ∷ s)) [ none ↦ rest | some pair ↦ pair ∷ rest ]

unfoldable pub read_samples : Text → List (Text × Text)
read_samples t = read_lines (split 10 t)

unfoldable pub samples_of : List Line → List (Text × Text)
samples_of [] = []
samples_of (comment t ∷ ls) = samples_of ls
samples_of (sample name value ∷ ls) = (name, value) ∷ samples_of ls

abbrev pub is_name : Text → Bool
is_name [] = false
is_name (c ∷ s) = not (c == b'#')

abbrev pub IsPlain : Text → Type 0
IsPlain t = Without 10 t × Without b' ' t

-- What is documented of `{}` on an f64: digits and signs or `NaN` and `inf`, so no blank and no
-- newline.
pub record PlainFloats (f : Floats) : Type 0 where
  pub show_nanos-IsPlain : (n : ℕ) → IsPlain (f.show_nanos n)
  pub show_micros-IsPlain : (n : ℕ) → IsPlain (f.show_micros n)
  pub show_ratio-IsPlain : (h m : ℕ) → IsPlain (f.show_ratio h m)

abbrev pub IsClean : Line → Type 0
IsClean (comment t) = Without 10 t
IsClean (sample name value) = (is_name name ≡ true) × Without 10 name × IsPlain value

read_lines_sample :
    (c : ℕ) (s value : Text) (ls : List Text)
    → not (c == b'#') ≡ true
    → Without b' ' value
    → read_lines (((c ∷ s) ++ (b' ' ∷ value)) ∷ ls) ≡ (c ∷ s, value) ∷ read_lines ls
unfolding read_lines
read_lines_sample c s value ls name plain =
    let at : rsplit_once b' ' ((c ∷ s) ++ (b' ' ∷ value)) ≡ some (c ∷ s, value) =
      rsplit_once-append b' ' (c ∷ s) value plain in
    ground (arith, at, name)

split-sample :
    (name value rest : Text)
    → Without 10 name
    → Without 10 value
    → split 10 (name ++ (b' ' ∷ (value ++ (10 ∷ rest)))) ≡ (name ++ (b' ' ∷ value)) ∷ split 10 rest
split-sample name value rest n v =
    ap (split 10) (sym (append_assoc name (b' ' ∷ value) (10 ∷ rest)))
    ∙ split-append 10 (name ++ (b' ' ∷ value)) rest (All-append _ name (b' ' ∷ value) n (refl, v))

pub read-push_lines :
    (ls : List Line) → All IsClean ls → read_samples (push_lines ls) ≡ samples_of ls
unfolding read_samples read_lines push_lines samples_of split
read-push_lines [] clean = refl
read-push_lines (comment t ∷ ls) clean =
    rw (split-append 10 (b'#' ∷ b' ' ∷ t) (push_lines ls) (refl, (refl, clean.0)))
      (read-push_lines ls clean.1)
read-push_lines (sample [] value ∷ ls) ((name, _, _), _) = ground (arith, name)
read-push_lines (sample (c ∷ s) value ∷ ls) ((name, line, (whole, plain)), clean) =
    rw
      (
        split-sample (c ∷ s) value (push_lines ls) line whole,
        read_lines_sample c s value (split 10 (push_lines ls)) name plain,
      )
      (ap (λ x. (c ∷ s, value) ∷ x) (read-push_lines ls clean))
