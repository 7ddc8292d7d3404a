-- ===== src/Metrics/Clean.antt =====
-- src/metrics.rs: the lines of `render_prometheus` can be told apart again.
use kafka_proxy.Base.{
  ℕ, ◌+◌, ◌-◌, ◌^◌, ◌≡◌, refl, ap, ◌∙◌, Bool, true, not, List, [], ◌∷◌, ◌++◌, concat, map, ◌==◌,
  ◌&&◌, All, arith, Bool-cases, inl, inr, ltb,
}
use Prim.Native.String.{String}
use kafka_proxy.Text.{Text, codes}
use kafka_proxy.Text.Decimal.{decimal}
use kafka_proxy.Text.Plain.{Without, decimal-Without, All-append}
use kafka_proxy.Metrics.Render.{Floats, Line, comment, sample, signed, hit_rate, family, single}
use kafka_proxy.Metrics.Samples.{PlainFloats, samples_of, is_name, IsPlain, IsClean}

pub samples_of-append : (xs ys : List Line) → samples_of (xs ++ ys) ≡ samples_of xs ++ samples_of ys
unfolding samples_of
samples_of-append [] ys = refl
samples_of-append (comment t ∷ xs) ys = samples_of-append xs ys
samples_of-append (sample name value ∷ xs) ys =
    ap (λ r. (name, value) ∷ r) (samples_of-append xs ys)

pub samples_of-concat :
    (xss : List (List Line)) → samples_of (concat xss) ≡ concat (map samples_of xss)
samples_of-concat [] = unfold samples_of in refl
samples_of-concat (xs ∷ xss) =
    samples_of-append xs (concat xss) ∙ ap (λ r. samples_of xs ++ r) (samples_of-concat xss)

pub Lines-append : (xs ys : List Line) → All IsClean xs → All IsClean ys → All IsClean (xs ++ ys)
Lines-append [] ys a b = b
Lines-append (x ∷ xs) ys a b = (a.0, Lines-append xs ys a.1 b)

pub Lines-concat : (xss : List (List Line)) → All (All IsClean) xss → All IsClean (concat xss)
Lines-concat [] a = tt
Lines-concat (xs ∷ xss) a = Lines-append xs (concat xss) a.0 (Lines-concat xss a.1)

abbrev pub is_line : Text → Bool
is_line [] = true
is_line (c ∷ s) = not (c == 10) && is_line s

pub line_lem : (t : Text) → is_line t ≡ true → Without 10 t
line_lem [] h = tt
line_lem (c ∷ s) h = (ground (arith, h), line_lem s (ground (arith, h)))

pub decimal-IsPlain : (n : ℕ) → IsPlain (decimal n)
decimal-IsPlain n = (decimal-Without 10 n refl, decimal-Without b' ' n refl)

pub signed-IsPlain : (n : ℕ) → IsPlain (signed n)
signed-IsPlain n = elim (Bool-cases (ltb n (2 ^ 63))) [
  | inl small ↦ rw small (decimal-IsPlain n)
  | inr large ↦ rw large (let (a, b) = decimal-IsPlain (2 ^ 64 - n) in ((refl, a), (refl, b)))
]

pub hit_rate-IsPlain : (f : Floats) → PlainFloats f → (h m : ℕ) → IsPlain (hit_rate f h m)
unfolding hit_rate
hit_rate-IsPlain f floats h m = elim (Bool-cases (ltb 0 (h + m))) [
  | inl some_calls ↦ rw some_calls (floats.show_ratio-IsPlain h m)
  | inr no_calls ↦ rw no_calls ((refl, tt), (refl, tt))
]

pub sample-IsClean :
    (name : String) (value : Text)
    → is_name (codes name) ≡ true
    → is_line (codes name) ≡ true
    → IsPlain value
    → IsClean (sample (codes name) value)
sample-IsClean name value n l v = (n, line_lem (codes name) l, v)

pub family-IsClean :
    (name help kind : String) (ls : List Line)
    → is_line (codes name) ≡ true
    → is_line (codes help) ≡ true
    → is_line (codes kind) ≡ true
    → All IsClean ls
    → All IsClean (family name help kind ls)
family-IsClean name help kind ls n h k clean =
    let titled : (title s : Text)
        → is_line title ≡ true
        → is_line s ≡ true
        → Without 10 (title ++ (codes name ++ (b' ' ∷ s))) =
      λ title s t l.
        All-append _ title _ (line_lem title t)
          (All-append _ (codes name) _ (line_lem (codes name) n) (refl, line_lem s l)) in
    (
      titled (codes "HELP ") (codes help) refl h,
      (titled (codes "TYPE ") (codes kind) refl k, clean),
    )

pub single-IsClean :
    (name help kind : String) (value : Text)
    → is_name (codes name) ≡ true
    → is_line (codes name) ≡ true
    → is_line (codes help) ≡ true
    → is_line (codes kind) ≡ true
    → IsPlain value
    → All IsClean (single name help kind value)
single-IsClean name help kind value s n h k v =
    family-IsClean name help kind (sample (codes name) value ∷ []) n h k
      (sample-IsClean name value s n v, tt)

pub is_name-append : (s t : Text) → is_name s ≡ true → is_name (s ++ t) ≡ true
is_name-append [] t h = ground (arith, h)
is_name-append (c ∷ s) t h = h
