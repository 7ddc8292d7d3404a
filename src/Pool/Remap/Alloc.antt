-- ===== src/Pool/Remap/Alloc.antt =====
-- src/pool.rs: the ids that `alloc_cid_u` returns, for any number of tasks that run its
-- compare-exchange loop at once.
use kafka_proxy.Base.{
  ℕ, zero, suc, ◌+◌, ◌-◌, ◌%◌, ◌^◌, ◌≤◌, ◌<◌, ◌≡◌, refl, sym, ◌∙◌, ◌≢◌, List, [], ◌∷◌, arith, ◌==◌,
  length, if◌then◌else◌,
}
use kafka_proxy.Pool.Remap.{i32_max, next_cid_of}

abbrev pub IsCid : ℕ → Type 0
IsCid c = (1 ≤ c) × (c ≤ i32_max)

-- The counter after `k` allocations.
unfoldable pub counter_after : ℕ → ℕ → ℕ
counter_after zero c = c
counter_after (suc k) c = next_cid_of (counter_after k c)

pub next_cid_of-IsCid : (c : ℕ) → c < 2 ^ 32 → IsCid (next_cid_of c)
unfolding next_cid_of
next_cid_of-IsCid c h = ground arith

-- Within 1 .. i32::MAX the counter goes round: it is never 0 and never negative.
next_cid_of-mod : (c : ℕ) → IsCid c → next_cid_of c ≡ c % i32_max + 1
unfolding next_cid_of
next_cid_of-mod c h = ground arith

counter_after-mod : (k c : ℕ) → IsCid c → counter_after k c ≡ (c - 1 + k) % i32_max + 1
unfolding counter_after
counter_after-mod zero c h = omega arith
counter_after-mod (suc k) c h =
    let ih = counter_after-mod k c h in
    next_cid_of-mod (counter_after k c) (omega arith) ∙ omega arith

-- Two ids that fewer than i32::MAX allocations lie between are different.
pub counter_after-ne :
    (c i j : ℕ) → IsCid c → i < j → j < i + i32_max → counter_after i c ≢ counter_after j c
counter_after-ne c i j h lt near e = omega (arith, counter_after-mod i c h, counter_after-mod j c h)

-- A task in `alloc_cid_u`: before the load, or with what it loaded.
pub data Pc : Type 0 where
  before_load : Pc
  loaded : ℕ → Pc

-- The shared counter, the tasks, and the ids returned so far, the latest first.
pub record System : Type 0 where
  pub next_cid : ℕ
  pub task : ℕ → Pc
  pub returned : List ℕ

abbrev pub update : (ℕ → Pc) → ℕ → Pc → ℕ → Pc
update f i a j = if i == j then a else f j

-- One atomic step of one task. A compare-exchange that fails sends its task back to the load.
pub data Step (s : System) : System → Type 0 where
  load :
      (i : ℕ)
      → s.task i ≡ before_load
      → Step s (record s { task = update s.task i (loaded s.next_cid) })
  exchange :
      (i prev : ℕ)
      → s.task i ≡ loaded prev
      → prev ≡ s.next_cid
      → Step s (record {
        next_cid = next_cid_of prev;
        task = update s.task i before_load;
        returned = next_cid_of prev ∷ s.returned;
      })
  retry :
      (i prev : ℕ)
      → s.task i ≡ loaded prev
      → prev ≢ s.next_cid
      → Step s (record s { task = update s.task i before_load })

pub data Reach (s : System) : System → Type 0 where
  here : Reach s s
  next : {t u : System} → Reach s t → Step t u → Reach s u

-- The ids of a run that began with the counter at `c`.
abbrev pub IsHistory : ℕ → List ℕ → Type 0
IsHistory c [] = Unit {0}
IsHistory c (x ∷ xs) = (x ≡ counter_after (suc (length xs)) c) × IsHistory c xs

pub record Inv (c : ℕ) (s : System) : Type 0 where
  pub history : IsHistory c s.returned
  pub current : s.next_cid ≡ counter_after (length s.returned) c

Step-Inv : {c : ℕ} {s t : System} → Step s t → Inv c s → Inv c t
Step-Inv (load i e) v = record { history = v.history; current = v.current }
Step-Inv {c} (exchange i prev e same) v = record {
  history = (unfold counter_after in rw (same, v.current) refl, v.history);
  current = unfold counter_after in rw (same, v.current) refl;
}
Step-Inv (retry i prev e differs) v = record { history = v.history; current = v.current }

Reach-Inv : {c : ℕ} {s t : System} → Inv c s → Reach s t → Inv c t
Reach-Inv v here = v
Reach-Inv v (next r st) = Step-Inv st (Reach-Inv v r)

-- No id of the list is `x`.
abbrev pub Absent : ℕ → List ℕ → Type 0
Absent x [] = Unit {0}
Absent x (y ∷ ys) = (x ≢ y) × Absent x ys

abbrev pub AllDistinct : List ℕ → Type 0
AllDistinct [] = Unit {0}
AllDistinct (x ∷ xs) = Absent x xs × AllDistinct xs

IsHistory-Absent :
    (c k : ℕ) (xs : List ℕ)
    → IsCid c
    → IsHistory c xs
    → length xs < k
    → k ≤ i32_max
    → Absent (counter_after k c) xs
IsHistory-Absent c k [] hc h lt few = tt
IsHistory-Absent c k (x ∷ xs) hc (e, h) lt few = (
  λ q. counter_after-ne c (suc (length xs)) k hc (omega arith) (omega arith) (sym e ∙ sym q),
  IsHistory-Absent c k xs hc h (omega arith) few,
)

IsHistory-AllDistinct :
    (c : ℕ) (xs : List ℕ) → IsCid c → IsHistory c xs → length xs ≤ i32_max → AllDistinct xs
IsHistory-AllDistinct c [] hc h few = tt
IsHistory-AllDistinct c (x ∷ xs) hc (e, h) few = (
  rw e (IsHistory-Absent c (suc (length xs)) xs hc h (omega arith) few),
  IsHistory-AllDistinct c xs hc h (omega arith),
)

-- In every interleaving of any number of tasks, the ids returned are pairwise different as long as
-- there are at most i32::MAX of them.
pub Reach-AllDistinct :
    {s t : System}
    → IsCid s.next_cid
    → s.returned ≡ []
    → Reach s t
    → length t.returned ≤ i32_max
    → AllDistinct t.returned
Reach-AllDistinct {s} {t} hc e r few =
    IsHistory-AllDistinct s.next_cid t.returned hc (Reach-Inv start r).history few
  where
    start : Inv s.next_cid s
    start = record { history = rw e tt; current = unfold counter_after in rw e refl }
