-- ===== src/Metrics/Latency.antt =====
-- src/metrics.rs: `Histogram`. A duration is a number of nanoseconds where the source has an f64
-- number of seconds, so the rounding of floats is left out.
use kafka_proxy.Base.{
  ℕ, zero, suc, ◌+◌, ◌/◌, ◌%◌, ◌^◌, ◌≤◌, ◌<◌, ◌≡◌, refl, sym, ◌∙◌, List, [], ◌∷◌, arith, ltb, leb,
  length, if◌then◌else◌,
}

pub record Histogram : Type 0 where
  pub buckets : List ℕ
  pub counts : List ℕ
  pub sum_micros : ℕ
  pub count : ℕ

-- 0.1, 0.5, 1, 5, 10, 50, 100 and 500 milliseconds, 1 and 5 seconds.
abbrev pub default_buckets : List ℕ
default_buckets =
    100_000 ∷ 500_000 ∷ 1_000_000 ∷ 5_000_000 ∷ 10_000_000 ∷ 50_000_000 ∷ 100_000_000 ∷ 500_000_000
    ∷ 1_000_000_000 ∷ 5_000_000_000 ∷ []

abbrev pub zeros : List ℕ → List ℕ
zeros [] = 0 ∷ []
zeros (b ∷ bs) = 0 ∷ zeros bs

-- One count for each bucket and one for +Inf.
unfoldable pub with_buckets : List ℕ → Histogram
with_buckets bs = record { buckets = bs; counts = zeros bs; sum_micros = 0; count = 0 }

unfoldable pub new : Histogram
unfolding with_buckets
new = with_buckets default_buckets

-- `binary_search_by(..).unwrap_or_else(|i| i)` on buckets in rising order: the index of the equal
-- bucket, or of the first larger one.
unfoldable pub bucket_index : List ℕ → ℕ → ℕ
bucket_index [] nanos = 0
bucket_index (b ∷ bs) nanos = if ltb b nanos then suc (bucket_index bs nanos) else 0

-- `for c in &self.counts[idx..] { c.fetch_add(1) }`
unfoldable pub add_from : ℕ → List ℕ → List ℕ
add_from idx [] = []
add_from zero (c ∷ cs) = ((c + 1) % 2 ^ 64) ∷ add_from zero cs
add_from (suc idx) (c ∷ cs) = c ∷ add_from idx cs

unfoldable pub observe : Histogram → ℕ → Histogram
unfolding bucket_index add_from
observe h nanos = record h {
  sum_micros = (h.sum_micros + nanos / 1000) % 2 ^ 64;
  count = (h.count + 1) % 2 ^ 64;
  counts = add_from (bucket_index h.buckets nanos) h.counts;
}

unfoldable pub observe_all : Histogram → List ℕ → Histogram
observe_all h [] = h
observe_all h (n ∷ ns) = observe_all (observe h n) ns

-- How many of the durations are at most `b`.
unfoldable pub at_most : ℕ → List ℕ → ℕ
at_most b [] = 0
at_most b (n ∷ ns) = if leb n b then suc (at_most b ns) else at_most b ns

-- Buckets that rise, each above `low`.
abbrev pub IsRising : ℕ → List ℕ → Type 0
IsRising low [] = Unit {0}
IsRising low (b ∷ bs) = (low < b) × IsRising b bs

-- The counts of `ns` on top of `cs`: for each bucket the durations up to it, then all of them.
unfoldable pub cumulative : List ℕ → List ℕ → List ℕ → List ℕ
cumulative bs [] ns = []
cumulative [] (c ∷ cs) ns = (c + length ns) ∷ cs
cumulative (b ∷ bs) (c ∷ cs) ns = (c + at_most b ns) ∷ cumulative bs cs ns

-- Counts that have room for `n` more without wrapping, one for each bucket and one more.
abbrev pub HasRoom : ℕ → List ℕ → List ℕ → Type 0
HasRoom n bs [] = ⊥
HasRoom n [] (c ∷ []) = c + n < 2 ^ 64
HasRoom n [] (c ∷ d ∷ cs) = ⊥
HasRoom n (b ∷ bs) (c ∷ cs) = (c + n < 2 ^ 64) × HasRoom n bs cs

at_most-le : (b : ℕ) (ns : List ℕ) → at_most b ns ≤ length ns
unfolding at_most
at_most-le b [] = omega arith
at_most-le b (n ∷ ns) = ground (arith, at_most-le b ns)

-- A duration that no bucket of the list is below is counted in every one of them.
add_from-zero :
    (low n : ℕ) (bs cs : List ℕ)
    → IsRising low bs
    → n ≤ low
    → HasRoom 1 bs cs
    → add_from 0 cs ≡ cumulative bs cs (n ∷ [])
unfolding add_from cumulative at_most
add_from-zero low n [] [] r h room = absurd room
add_from-zero low n [] (c ∷ []) r h room = ground arith
add_from-zero low n [] (c ∷ d ∷ cs) r h room = absurd room
add_from-zero low n (b ∷ bs) [] r h room = absurd room
add_from-zero low n (b ∷ bs) (c ∷ cs) r h room =
    ground (arith, add_from-zero b n bs cs r.1 (omega arith) room.1)

add_from-cumulative :
    (low n : ℕ) (bs cs : List ℕ)
    → IsRising low bs
    → HasRoom 1 bs cs
    → add_from (bucket_index bs n) cs ≡ cumulative bs cs (n ∷ [])
unfolding add_from bucket_index cumulative at_most
add_from-cumulative low n [] [] r room = absurd room
add_from-cumulative low n [] (c ∷ []) r room = ground arith
add_from-cumulative low n [] (c ∷ d ∷ cs) r room = absurd room
add_from-cumulative low n (b ∷ bs) [] r room = absurd room
add_from-cumulative low n (b ∷ bs) (c ∷ cs) r room =
    ground (arith, add_from-cumulative b n bs cs r.1 room.1, add_from-zero b n bs cs r.1)

cumulative-cumulative :
    (n : ℕ) (ns bs cs : List ℕ)
    → cumulative bs (cumulative bs cs (n ∷ [])) ns ≡ cumulative bs cs (n ∷ ns)
unfolding cumulative at_most
cumulative-cumulative n ns [] [] = refl
cumulative-cumulative n ns [] (c ∷ cs) = ground arith
cumulative-cumulative n ns (b ∷ bs) [] = refl
cumulative-cumulative n ns (b ∷ bs) (c ∷ cs) = ground (arith, cumulative-cumulative n ns bs cs)

HasRoom-one : (k : ℕ) (bs cs : List ℕ) → HasRoom (suc k) bs cs → HasRoom 1 bs cs
HasRoom-one k bs [] room = room
HasRoom-one k [] (c ∷ []) room = omega arith
HasRoom-one k [] (c ∷ d ∷ cs) room = room
HasRoom-one k (b ∷ bs) (c ∷ cs) room = (omega arith, HasRoom-one k bs cs room.1)

HasRoom-cumulative :
    (k n : ℕ) (bs cs : List ℕ) → HasRoom (suc k) bs cs → HasRoom k bs (cumulative bs cs (n ∷ []))
unfolding cumulative at_most
HasRoom-cumulative k n bs [] room = absurd room
HasRoom-cumulative k n [] (c ∷ []) room = omega arith
HasRoom-cumulative k n [] (c ∷ d ∷ cs) room = absurd room
HasRoom-cumulative k n (b ∷ bs) (c ∷ cs) room = (ground arith, HasRoom-cumulative k n bs cs room.1)

cumulative-nil : (bs cs : List ℕ) → cumulative bs cs [] ≡ cs
unfolding cumulative at_most
cumulative-nil bs [] = refl
cumulative-nil [] (c ∷ cs) = ground arith
cumulative-nil (b ∷ bs) (c ∷ cs) = ground (arith, cumulative-nil bs cs)

observe_all-cumulative :
    (ns : List ℕ) (h : Histogram)
    → IsRising 0 h.buckets
    → HasRoom (length ns) h.buckets h.counts
    → (observe_all h ns).counts ≡ cumulative h.buckets h.counts ns
unfolding observe_all
observe_all-cumulative [] h r room = sym (cumulative-nil h.buckets h.counts)
observe_all-cumulative (n ∷ ns) h r room =
    observe_all-cumulative ns (observe h n) (unfold observe in r)
      (unfold observe in rw step (HasRoom-cumulative (length ns) n h.buckets h.counts room))
    ∙ (unfold observe in rw step (cumulative-cumulative n ns h.buckets h.counts))
  where
    step : add_from (bucket_index h.buckets n) h.counts ≡ cumulative h.buckets h.counts (n ∷ [])
    step =
        add_from-cumulative 0 n h.buckets h.counts r
          (HasRoom-one (length ns) h.buckets h.counts room)

observe_all-count :
    (ns : List ℕ) (h : Histogram)
    → h.count + length ns < 2 ^ 64
    → (observe_all h ns).count ≡ h.count + length ns
unfolding observe_all observe
observe_all-count [] h small = omega arith
observe_all-count (n ∷ ns) h small = ground (arith, observe_all-count ns (observe h n))

-- What Prometheus asks of a histogram: for each bucket the durations up to it, and last all of them.
unfoldable pub expected : List ℕ → List ℕ → List ℕ
expected [] ns = length ns ∷ []
expected (b ∷ bs) ns = at_most b ns ∷ expected bs ns

cumulative-expected : (bs ns : List ℕ) → cumulative bs (zeros bs) ns ≡ expected bs ns
unfolding cumulative expected
cumulative-expected [] ns = ground arith
cumulative-expected (b ∷ bs) ns = ground (arith, cumulative-expected bs ns)

HasRoom-zeros : (k : ℕ) (bs : List ℕ) → k < 2 ^ 64 → HasRoom k bs (zeros bs)
HasRoom-zeros k [] h = omega arith
HasRoom-zeros k (b ∷ bs) h = (omega arith, HasRoom-zeros k bs h)

-- After fewer than 2 ^ 64 durations a histogram over rising buckets holds, for each bucket, the
-- number of durations up to its bound, and in the last count and in `count` the number of all.
pub observe_all-expected :
    (bs ns : List ℕ)
    → IsRising 0 bs
    → length ns < 2 ^ 64
    → ((observe_all (with_buckets bs) ns).counts ≡ expected bs ns)
      × ((observe_all (with_buckets bs) ns).count ≡ length ns)
unfolding with_buckets
observe_all-expected bs ns r small = (
  observe_all-cumulative ns (with_buckets bs) r (HasRoom-zeros (length ns) bs small)
      ∙ cumulative-expected bs ns,
  observe_all-count ns (with_buckets bs) (omega arith) ∙ omega arith,
)
